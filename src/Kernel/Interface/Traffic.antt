-- ===== src/Kernel/Interface/Traffic.antt =====
-- Sending IPv4 packets and handling ARP and ICMP leaves the configuration alone and never panics.
use conc_os.Common.{
  ℕ, ◌≡◌, refl, ◌∙◌, List, [], ◌∷◌, Option, none, some, true, Bool-cases, Option-cases, inl, inr,
  arith, ◌&&◌,
}
use conc_os.Net.Addr.{MacAddress, Ipv4Addr, mac_eq, broadcast}
use conc_os.Net.Ipv4
use conc_os.Net.Ipv4.{Ipv4Packet}
use conc_os.Net.Arp.Packet.{ArpPacket}
use conc_os.Net.Arp.Cache
use conc_os.Net.Arp.Cache.{Queued, request_needed, already_pending, dropped}
use conc_os.Net.Arp.Cache.Invariant.{insert-IsCache, queue_pending-IsCache}
use conc_os.Net.Ethernet.{ipv4_type, arp_type}
use conc_os.Kernel.Host.{Env, Host, NetworkInterface, set_arp, send_frame}
use conc_os.Kernel.Runs.{Ends, Keeps-bind, KeepsAll, set_arp-Keeps, done-Keeps, send_frame-Keeps}
use conc_os.Kernel.Interface.{
  next_hop, send_arp_request, resolve, send_via, send_ipv4, flush, learn, answer, handle_arp,
  is_own, send_request_from, after_queue, reply_from, is_request,
}

-- An interface that has a next hop has an address.
next_hop_bound :
    (i : NetworkInterface) (dst hop : Ipv4Addr)
    → next_hop i dst ≡ some hop
    → (ip : Ipv4Addr) × (i.ipv4 ≡ some ip)
unfolding next_hop
next_hop_bound i dst hop h = elim (Option-cases i.ipv4) [
  | inl e ↦ absurd (ground arith)
  | inr (ip, e) ↦ (ip, e)
]

module _ (env : Env) (takes : (frame : List ℕ) → env.takes frame ≡ true) where
  request_from-Keeps :
      (mac : MacAddress) (o : Option Ipv4Addr) (target ip : Ipv4Addr) (h : Host)
      → o ≡ some ip
      → Ends (send_request_from env mac o target h) (KeepsAll h)
  unfolding send_request_from
  request_from-Keeps mac none target ip h e = absurd (cc)
  request_from-Keeps mac (some own) target ip h e =
      send_frame-Keeps env broadcast arp_type _ h takes

  send_arp_request-Keeps :
      (target ip : Ipv4Addr) (h : Host)
      → h.interface.ipv4 ≡ some ip
      → Ends (send_arp_request env target h) (KeepsAll h)
  unfolding send_arp_request
  send_arp_request-Keeps target ip h e =
      request_from-Keeps h.interface.mac h.interface.ipv4 target ip h e

  after_queue-Keeps :
      (hop ip : Ipv4Addr) (q : Queued) (h : Host)
      → h.interface.ipv4 ≡ some ip
      → Ends (after_queue env hop q h) (KeepsAll h)
  unfolding after_queue
  after_queue-Keeps hop ip request_needed h e = send_arp_request-Keeps hop ip h e
  after_queue-Keeps hop ip already_pending h e = done-Keeps h
  after_queue-Keeps hop ip dropped h e = done-Keeps h

  resolve-Keeps :
      (mac : Option MacAddress) (hop ip : Ipv4Addr) (frame : List ℕ) (h : Host)
      → h.interface.ipv4 ≡ some ip
      → Ends (resolve env mac hop frame h) (KeepsAll h)
  unfolding resolve
  resolve-Keeps (some mac) hop ip frame h e = send_frame-Keeps env mac ipv4_type frame h takes
  resolve-Keeps none hop ip frame h e =
      let next = Cache.queue_pending h.interface.arp hop frame in
      Keeps-bind (set_arp next.0) (λ _. after_queue env hop next.1) h
        (set_arp-Keeps next.0 h (queue_pending-IsCache h.interface.arp hop frame))
        (λ a h' kept. after_queue-Keeps hop ip next.1 h' (kept.same_ipv4 ∙ e))

  send_via-Keeps :
      (hop : Option Ipv4Addr) (frame : List ℕ) (h : Host)
      → ((a : Ipv4Addr) → hop ≡ some a → (ip : Ipv4Addr) × (h.interface.ipv4 ≡ some ip))
      → Ends (send_via env hop frame h) (KeepsAll h)
  unfolding send_via
  send_via-Keeps none frame h own = done-Keeps h
  send_via-Keeps (some hop) frame h own =
      let (ip, e) = own hop refl in
      resolve-Keeps (Cache.lookup h.interface.arp hop) hop ip frame h e

  pub send_ipv4-Keeps :
      (dst : Ipv4Addr) (packet : Ipv4Packet) (h : Host)
      → Ends (send_ipv4 env dst packet h) (KeepsAll h)
  unfolding send_ipv4
  send_ipv4-Keeps dst packet h =
      send_via-Keeps (next_hop h.interface dst) (Ipv4.serialize packet) h
        (next_hop_bound h.interface dst)

  flush-Keeps :
      (mac : MacAddress) (frames : List (List ℕ)) (h : Host)
      → Ends (flush env mac frames h) (KeepsAll h)
  unfolding flush
  flush-Keeps mac [] h = done-Keeps h
  flush-Keeps mac (frame ∷ frames) h =
      Keeps-bind (send_frame env mac ipv4_type frame) _ h
        (send_frame-Keeps env mac ipv4_type frame h takes) (λ a h' kept. flush-Keeps mac frames h')

  learn-Keeps : (p : ArpPacket) (h : Host) → Ends (learn env p h) (KeepsAll h)
  unfolding learn
  learn-Keeps p h = elim (Bool-cases (mac_eq p.sender_mac h.interface.mac)) [
    | inl own ↦ rw own (done-Keeps h)
    | inr other ↦
        let next = Cache.insert h.interface.arp p.sender_addr p.sender_mac in
        rw other (
          Keeps-bind (set_arp next.0) (λ _. flush env p.sender_mac next.1) h
            (set_arp-Keeps next.0 h (insert-IsCache h.interface.arp p.sender_addr p.sender_mac))
            (λ a h' kept. flush-Keeps p.sender_mac next.1 h'))
  ]

  reply_from-Keeps :
      (o : Option Ipv4Addr) (p : ArpPacket) (h : Host)
      → is_own o p.target_addr ≡ true
      → Ends (reply_from env h.interface.mac o p h) (KeepsAll h)
  unfolding reply_from
  reply_from-Keeps none p h own = absurd (cc)
  reply_from-Keeps (some ip) p h own = send_frame-Keeps env p.sender_mac arp_type _ h takes

  answer-Keeps : (p : ArpPacket) (h : Host) → Ends (answer env p h) (KeepsAll h)
  unfolding answer
  answer-Keeps p h =
      elim (Bool-cases (is_request p.operation && is_own h.interface.ipv4 p.target_addr)) [
        | inl asked ↦ rw asked (reply_from-Keeps h.interface.ipv4 p h (ground arith))
        | inr other ↦ rw other (done-Keeps h)
      ]

  pub handle_arp-Keeps : (p : ArpPacket) (h : Host) → Ends (handle_arp env p h) (KeepsAll h)
  unfolding handle_arp
  handle_arp-Keeps p h =
      Keeps-bind (learn env p) (λ _. answer env p) h (learn-Keeps p h)
        (λ a h' kept. answer-Keeps p h')
