-- ===== src/Kernel/Interface/Resolve.antt =====
-- What `handle_arp` does with a reply: the frames that waited for its sender are sent to it.
use conc_os.Common.{
  ℕ, ◌≡◌, refl, List, [], ◌∷◌, ◌++◌, map, append-nil, append_assoc, ap, ◌∙◌, true, false, some,
}
use conc_os.Net.Addr.{MacAddress, Ipv4Addr, mac_eq, addr_eq_refl, addr_key}
use conc_os.Net.Arp.Packet
use conc_os.Net.Arp.Packet.{ArpPacket}
use conc_os.Net.Arp.Cache
use conc_os.Net.Arp.Cache.History.{waiting-insert}
use conc_os.Common.Map.{lookup-insert}
use conc_os.Net.Ethernet.{ipv4_type}
use conc_os.Kernel.Host.{Env, Host, send_frame, ethernet_frame}
use conc_os.Kernel.Runs.{send_frame_lem, >>=_lem}
use conc_os.Kernel.Interface.{handle_arp, learn, answer, flush}

-- The host after some frames went to a hardware address.
abbrev pub after_sending : MacAddress → List (List ℕ) → Host → Host
after_sending mac frames h = record h {
  sent = h.sent ++ map (ethernet_frame mac h.interface.mac ipv4_type) frames;
}

-- The host once the sender of an ARP packet is known.
abbrev pub resolved_by : ArpPacket → Host → Host
resolved_by p h =
    let known = (Cache.insert h.interface.arp p.sender_addr p.sender_mac).0 in
    after_sending p.sender_mac (Cache.waiting h.interface.arp p.sender_addr)
      (record h { interface = record h.interface { arp = known } })

module _ (env : Env) (takes : (frame : List ℕ) → env.takes frame ≡ true) where
  flush_lem :
      (mac : MacAddress) (frames : List (List ℕ)) (h : Host)
      → flush env mac frames h ≡ some (tt, after_sending mac frames h)
  unfolding flush
  flush_lem mac [] h = rw (append-nil h.sent) refl
  flush_lem mac (frame ∷ frames) h =
      let next = record h {
        sent = h.sent ++ (ethernet_frame mac h.interface.mac ipv4_type frame ∷ []);
      } in
      >>=_lem (send_frame env mac ipv4_type frame) (λ _. flush env mac frames) h tt next
        (send_frame_lem env mac ipv4_type frame h (takes _))
      ∙ flush_lem mac frames next
      ∙ ap (λ (xs : List (List ℕ)). some (tt, record h { sent = xs }))
          (append_assoc h.sent (ethernet_frame mac h.interface.mac ipv4_type frame ∷ [])
            (map (ethernet_frame mac h.interface.mac ipv4_type) frames))

  learn_lem :
      (p : ArpPacket) (h : Host)
      → mac_eq p.sender_mac h.interface.mac ≡ false
      → learn env p h ≡ some (tt, resolved_by p h)
  unfolding learn Cache.insert Cache.waiting
  learn_lem p h other = rw other (
      flush_lem p.sender_mac (Cache.waiting h.interface.arp p.sender_addr) (record h {
        interface = record h.interface {
          arp = (Cache.insert h.interface.arp p.sender_addr p.sender_mac).0;
        };
      }))

  answer_reply :
      (p : ArpPacket) (h : Host) → p.operation ≡ Packet.reply → answer env p h ≡ some (tt, h)
  unfolding answer
  answer_reply p h e = rw e refl

lookup-insert_same :
    (c : Cache.ArpCache) (ip : Ipv4Addr) (mac : MacAddress)
    → Cache.lookup (Cache.insert c ip mac).0 ip ≡ some mac
unfolding Cache.lookup Cache.insert
lookup-insert_same c ip mac =
    rw (lookup-insert ip ip (Cache.resolved mac) c.entries, addr_eq_refl ip)

-- An ARP reply of another station resolves its address: when the driver takes the frames, every
-- packet that waited for the address is sent to the station, in the order in which they were
-- parked and each in an Ethernet frame, none waits any more, the address is known from then on,
-- and nothing else of the interface changes.
pub handle_arp_delivers :
    (env : Env) (p : ArpPacket) (h : Host)
    → ((frame : List ℕ) → env.takes frame ≡ true)
    → p.operation ≡ Packet.reply
    → mac_eq p.sender_mac h.interface.mac ≡ false
    → (handle_arp env p h ≡ some (tt, resolved_by p h))
      × (Cache.waiting (resolved_by p h).interface.arp p.sender_addr ≡ [])
      × (Cache.lookup (resolved_by p h).interface.arp p.sender_addr ≡ some p.sender_mac)
unfolding handle_arp
handle_arp_delivers env p h takes reply other = (
  >>=_lem (learn env p) (λ _. answer env p) h tt (resolved_by p h) (learn_lem env takes p h other)
      ∙ answer_reply env takes p (resolved_by p h) reply,
  rw (
    waiting-insert h.interface.arp p.sender_addr p.sender_addr p.sender_mac,
    addr_eq_refl p.sender_addr,
  ),
  lookup-insert_same h.interface.arp p.sender_addr p.sender_mac,
)
