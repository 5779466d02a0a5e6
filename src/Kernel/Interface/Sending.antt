-- ===== src/Kernel/Interface/Sending.antt =====
-- `NetworkInterface::send_ipv4` of kernel/src/network/handler.rs: which way a packet goes, and what
-- becomes of it there.
use conc_os.Common.{
  ℕ, ◌≤◌, ◌<◌, ◌≡◌, ◌≢◌, ◌⊎◌, refl, sym, ◌∙◌, ap, List, [], ◌∷◌, ◌++◌, Option, none, some, true,
  false, Bool-cases, inl, inr, length, subst,
}
use conc_os.Net.Addr.{
  MacAddress, Ipv4Addr, addr_eq, addr_eq_sound, addr_eq_refl, addr_key, broadcast, zero_mac,
}
use conc_os.Net.Ipv4
use conc_os.Net.Ipv4.{Ipv4Packet}
use conc_os.Net.Arp.Packet
use conc_os.Net.Arp.Cache
use conc_os.Net.Arp.Cache.{ArpCache, Queued, request_needed, already_pending, dropped}
use conc_os.Net.Arp.Cache.Invariant.{IsCache}
use conc_os.Net.Arp.Cache.Parking
use conc_os.Net.Arp.Cache.Parking.{Parked, Queues, queue_pending-Queues}
use conc_os.Net.Ethernet.{ipv4_type, arp_type}
use conc_os.Kernel.Host.{Env, Host, NetworkInterface, ethernet_frame}
use conc_os.Kernel.Runs.{send_frame_lem}
use conc_os.Kernel.Interface.{
  network, next_hop, resolve, after_queue, send_via, send_ipv4, send_arp_request, arp_message,
  send_request_from,
}

-- The next hop of a destination: itself on the interface's own network, and else the gateway.
pub data Route (i : NetworkInterface) (dst hop : Ipv4Addr) : Type 0 where
  direct :
      (own mask : Ipv4Addr)
      → i.ipv4 ≡ some own
      → i.subnet_mask ≡ some mask
      → network dst mask ≡ network own mask
      → hop ≡ dst
      → Route i dst hop
  by_gateway :
      (own mask : Ipv4Addr)
      → i.ipv4 ≡ some own
      → i.subnet_mask ≡ some mask
      → network dst mask ≢ network own mask
      → i.gateway ≡ some hop
      → Route i dst hop

-- The ARP request for an address, as a frame to all stations.
abbrev pub request_frame : Host → Ipv4Addr → Ipv4Addr → List ℕ
request_frame h own hop =
    ethernet_frame broadcast h.interface.mac arp_type
      (Packet.serialize (arp_message Packet.request h.interface.mac own zero_mac hop))

-- What becomes of a finished packet on its way to a hop: it leaves in a frame to the hop's hardware
-- address; or that is not known, and the packet waits, behind a request if it is the first to wait;
-- or there is no room for it to wait.
pub data Sent (h : Host) (own hop : Ipv4Addr) (bytes : List ℕ) (h' : Host) : Type 0 where
  framed :
      (mac : MacAddress)
      → Cache.lookup h.interface.arp hop ≡ some mac
      → h' ≡ record h { sent = h.sent ++ (ethernet_frame mac h.interface.mac ipv4_type bytes ∷ []) }
      → Sent h own hop bytes h'
  asked :
      (c : ArpCache)
      → Cache.lookup h.interface.arp hop ≡ none
      → Cache.waiting h.interface.arp hop ≡ []
      → Parked h.interface.arp c hop bytes
      → h' ≡ record h {
        interface = record h.interface { arp = c };
        sent = h.sent ++ (request_frame h own hop ∷ []);
      }
      → Sent h own hop bytes h'
  joined :
      (c : ArpCache)
      → Cache.lookup h.interface.arp hop ≡ none
      → Cache.waiting h.interface.arp hop ≢ []
      → length (Cache.waiting h.interface.arp hop) < 4
      → Parked h.interface.arp c hop bytes
      → h' ≡ record h { interface = record h.interface { arp = c } }
      → Sent h own hop bytes h'
  no_room :
      Cache.lookup h.interface.arp hop ≡ none
      → (4 ≤ length (Cache.waiting h.interface.arp hop))
        ⊎ ((Cache.waiting h.interface.arp hop ≡ [])
            × (16 ≤ Cache.pending_addresses h.interface.arp))
      → h' ≡ h
      → Sent h own hop bytes h'

-- Why a packet has no way out.
pub data NoRoute (i : NetworkInterface) (dst : Ipv4Addr) : Type 0 where
  no_address : i.ipv4 ≡ none → NoRoute i dst
  no_mask : i.subnet_mask ≡ none → NoRoute i dst
  no_gateway :
      (own mask : Ipv4Addr)
      → i.ipv4 ≡ some own
      → i.subnet_mask ≡ some mask
      → network dst mask ≢ network own mask
      → i.gateway ≡ none
      → NoRoute i dst

-- What becomes of a packet for a destination: it has no way out and nothing changes, or it is sent
-- to its next hop.
pub data Way (h : Host) (dst : Ipv4Addr) (bytes : List ℕ) (h' : Host) : Type 0 where
  stays : NoRoute h.interface dst → h' ≡ h → Way h dst bytes h'
  leaves :
      (own hop : Ipv4Addr)
      → h.interface.ipv4 ≡ some own
      → Route h.interface dst hop
      → Sent h own hop bytes h'
      → Way h dst bytes h'

next_hop_direct :
    (i : NetworkInterface) (dst own mask : Ipv4Addr)
    → i.ipv4 ≡ some own
    → i.subnet_mask ≡ some mask
    → addr_eq (network dst mask) (network own mask) ≡ true
    → next_hop i dst ≡ some dst
unfolding next_hop
next_hop_direct i dst own mask e f same = rw (e, f, same)

next_hop_gateway :
    (i : NetworkInterface) (dst own mask : Ipv4Addr)
    → i.ipv4 ≡ some own
    → i.subnet_mask ≡ some mask
    → addr_eq (network dst mask) (network own mask) ≡ false
    → next_hop i dst ≡ i.gateway
unfolding next_hop
next_hop_gateway i dst own mask e f other = rw (e, f, other)

next_hop-Route :
    (i : NetworkInterface) (dst hop : Ipv4Addr) → Route i dst hop → next_hop i dst ≡ some hop
next_hop-Route i dst hop (direct own mask e f same at) =
    next_hop_direct i dst own mask e f (
      subst (λ n. addr_eq n (network own mask) ≡ true) (sym same) (addr_eq_refl (network own mask)))
    ∙ ap some (sym at)
next_hop-Route i dst hop (by_gateway own mask e f other at) =
    elim (Bool-cases (addr_eq (network dst mask) (network own mask))) [
      | inl same ↦ absurd (other (addr_eq_sound (network dst mask) (network own mask) same))
      | inr apart ↦ next_hop_gateway i dst own mask e f apart ∙ at
    ]

module _ (env : Env) (takes : (frame : List ℕ) → env.takes frame ≡ true) where
  request_lem :
      (own hop : Ipv4Addr) (h : Host)
      → h.interface.ipv4 ≡ some own
      → send_arp_request env hop h
        ≡ some (tt, record h { sent = h.sent ++ (request_frame h own hop ∷ []) })
  unfolding send_arp_request send_request_from
  request_lem own hop h e =
      subst
        (λ o.
          send_request_from env h.interface.mac o hop h
          ≡ some (tt, record h { sent = h.sent ++ (request_frame h own hop ∷ []) }))
        (sym e)
        (send_frame_lem env broadcast arp_type
          (Packet.serialize (arp_message Packet.request h.interface.mac own zero_mac hop)) h
          (takes _))

  park-Sent :
      (own hop : Ipv4Addr) (bytes : List ℕ) (h : Host) (r : ArpCache × Queued)
      → h.interface.ipv4 ≡ some own
      → Cache.lookup h.interface.arp hop ≡ none
      → Queues h.interface.arp hop bytes r
      → (h' : Host) × ((after_queue env hop r.1
            (record h { interface = record h.interface { arp = r.0 } }))
          ≡ some (tt, h'))
        × Sent h own hop bytes h'
  unfolding after_queue
  park-Sent own hop bytes h r e unknown (Parking.first nobody parked q) = rw q (
    _,
    request_lem own hop (record h { interface = record h.interface { arp = r.0 } }) e,
    asked r.0 unknown nobody parked refl,
  )
  park-Sent own hop bytes h r e unknown (Parking.joined some_wait room parked q) =
      rw q (_, refl, Sent.joined r.0 unknown some_wait room parked refl)
  park-Sent own hop bytes h r e unknown (Parking.refused why same q) = rw q (
    _,
    refl,
    no_room unknown why (ap (λ c. record h { interface = record h.interface { arp = c } }) same),
  )

  resolve-Sent :
      (found : Option MacAddress) (own hop : Ipv4Addr) (bytes : List ℕ) (h : Host)
      → IsCache h.interface.arp
      → h.interface.ipv4 ≡ some own
      → Cache.lookup h.interface.arp hop ≡ found
      → (h' : Host) × (resolve env found hop bytes h ≡ some (tt, h')) × Sent h own hop bytes h'
  unfolding resolve
  resolve-Sent (some mac) own hop bytes h v e known =
      (_, send_frame_lem env mac ipv4_type bytes h (takes _), framed mac known refl)
  resolve-Sent none own hop bytes h v e unknown =
      park-Sent own hop bytes h (Cache.queue_pending h.interface.arp hop bytes) e unknown
        (queue_pending-Queues h.interface.arp hop bytes v unknown)

  send_via-some :
      (hop : Ipv4Addr) (bytes : List ℕ) (h : Host)
      → send_via env (some hop) bytes h ≡ resolve env (Cache.lookup h.interface.arp hop) hop bytes h
  unfolding send_via
  send_via-some hop bytes h = refl

  send_ipv4_via :
      (dst : Ipv4Addr) (packet : Ipv4Packet) (hop : Option Ipv4Addr) (h : Host)
      → next_hop h.interface dst ≡ hop
      → send_ipv4 env dst packet h ≡ send_via env hop (Ipv4.serialize packet) h
  unfolding send_ipv4
  send_ipv4_via dst packet hop h e = ap (λ o. send_via env o (Ipv4.serialize packet) h) e

  pub send_ipv4_routed :
      (dst : Ipv4Addr) (packet : Ipv4Packet) (own hop : Ipv4Addr) (h : Host)
      → IsCache h.interface.arp
      → h.interface.ipv4 ≡ some own
      → Route h.interface dst hop
      → (h' : Host) × (send_ipv4 env dst packet h ≡ some (tt, h'))
        × Sent h own hop (Ipv4.serialize packet) h'
  send_ipv4_routed dst packet own hop h v e route =
      let (h', run, sent) =
        resolve-Sent (Cache.lookup h.interface.arp hop) own hop (Ipv4.serialize packet) h v e
          refl in
      (
        h',
        send_ipv4_via dst packet (some hop) h (next_hop-Route h.interface dst hop route)
            ∙ send_via-some hop (Ipv4.serialize packet) h
            ∙ run,
        sent,
      )
