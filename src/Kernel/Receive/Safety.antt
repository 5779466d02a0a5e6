-- ===== src/Kernel/Receive/Safety.antt =====
-- Whatever bytes arrive, `process_rx` ends, and the interface stays well formed.
use conc_os.Common.{
  ℕ, ◌<◌, ◌≡◌, ◌≢◌, refl, sym, ◌∙◌, subst, List, [], ◌∷◌, ◌++◌, none, some, Result, ok, err, panic,
  ◌⊎◌, inl, inr, length, arith, drop, All, All-drop, All-append_left, true, drop-append_length,
  ok-injective, le→ltb, lt→ltb,
}
use conc_os.Common.Slices.{IsBytes, IsByte, drop_front}
use conc_os.Net.Addr.{MacAddress, Ipv4Addr}
use conc_os.Net.Ipv4
use conc_os.Net.Ipv4.{Ipv4Packet}
use conc_os.Net.Ipv4.Sound
use conc_os.Net.Ipv4.Sound.{from_packet_sound}
use conc_os.Net.Ethernet
use conc_os.Net.Ethernet.{EthernetFrame, EthernetError}
use conc_os.Net.Ethernet.Dispatch
use conc_os.Net.Ethernet.Dispatch.{new_sound}
use conc_os.Net.Arp.Cache.Invariant.{IsCache}
use conc_os.Kernel.Host.{Env, Host, NetworkInterface, idle}
use conc_os.Kernel.Runs.{Ends, ends, Ends-map, Ends-bind, Keeps-refl}
use conc_os.Kernel.Interface.Configure.{Change, Changes, kept, offered, bound}
use conc_os.Kernel.Interface.Receive.{IsFrame, handle_packet-Change}
use conc_os.Kernel.Receive.{process_rx, process_all, received}
use conc_os.Common.{true}

-- The payload of a packet that was parsed from bytes is made of bytes.
parsed-IsFrame :
    (body : List ℕ) (p : Ipv4Packet)
    → IsBytes body
    → Ipv4.from_packet body ≡ ok p
    → IsFrame (Ethernet.ipv4 p)
parsed-IsFrame body p v e = elim (from_packet_sound body v) [
  | Sound.rejected x run ↦ absurd (cc)
  | Sound.accepted q rest run w small shape check ↦
      let tail = All-drop IsByte 20 body v in
      let after : IsBytes (q.options ++ (q.payload ++ rest)) =
        subst (λ xs. IsBytes (drop 20 xs)) shape tail in
      let payload : IsBytes (q.payload ++ rest) =
        subst IsBytes (drop-append_length q.options (q.payload ++ rest))
          (All-drop IsByte (length q.options) (q.options ++ (q.payload ++ rest)) after) in
      subst (λ (x : Ipv4Packet). IsFrame (Ethernet.ipv4 x)) (ok-injective (sym run ∙ e))
        (All-append_left IsByte q.payload rest payload, omega (arith, w.lengths, w.small))
]

module _ (env : Env) (takes : (frame : List ℕ) → env.takes frame ≡ true) where
  received-Change :
      (r : Result EthernetError EthernetFrame) (dst : MacAddress) (h : Host)
      → r ≢ panic
      → ((frame : EthernetFrame) → r ≡ ok frame → IsFrame frame)
      → Ends (received env r dst h) (Changes h)
  unfolding received
  received-Change (ok frame) dst h fine v =
      handle_packet-Change env takes frame dst h (v frame refl)
  received-Change (err e) dst h fine v = ends tt h refl (kept (Keeps-refl h))
  received-Change panic dst h fine v = absurd (fine refl)

  parsed-Change :
      (packet : List ℕ) (dst : MacAddress) (h : Host)
      → IsBytes packet
      → Ends (received env (Ethernet.new packet) dst h) (Changes h)
  parsed-Change packet dst h v = elim (new_sound packet v) [
    | Dispatch.short small r ↦
        received-Change (Ethernet.new packet) dst h (λ z. cc) (λ f e. absurd (cc))
    | Dispatch.carries_arp addresses rest p size shape w r ↦
        received-Change (Ethernet.new packet) dst h (λ z. cc)
          (λ f e. subst IsFrame (ok-injective (sym r ∙ e)) tt)
    | Dispatch.bad_arp addresses body x size shape run r ↦
        received-Change (Ethernet.new packet) dst h (λ z. cc) (λ f e. absurd (cc))
    | Dispatch.carries_ipv4 addresses body p size shape run r ↦
        let inner : IsBytes (0x08 ∷ 0x00 ∷ body) =
          subst IsBytes (drop_front addresses (0x08 ∷ 0x00 ∷ body) 12 (sym size))
            (subst (λ xs. IsBytes (drop 12 xs)) shape (All-drop IsByte 12 packet v)) in
        received-Change (Ethernet.new packet) dst h (λ z. cc)
          (λ f e. subst IsFrame (ok-injective (sym r ∙ e)) (parsed-IsFrame body p inner.1.1 run))
    | Dispatch.bad_ipv4 addresses body x size shape run r ↦
        received-Change (Ethernet.new packet) dst h (λ z. cc) (λ f e. absurd (cc))
    | Dispatch.other addresses body hi lo size shape x r ↦
        received-Change (Ethernet.new packet) dst h (λ z. cc)
          (λ f e. subst IsFrame (ok-injective (sym r ∙ e)) tt)
  ]

  process_rx_short :
      (packet : List ℕ) (h : Host) → length packet < 14 → process_rx env packet h ≡ some (tt, h)
  unfolding process_rx
  process_rx_short packet h small = rw (lt→ltb (length packet) 14 small)

  pub process_rx-Change :
      (packet : List ℕ) (h : Host) → IsBytes packet → Ends (process_rx env packet h) (Changes h)
  unfolding process_rx
  process_rx-Change (d0 ∷ d1 ∷ d2 ∷ d3 ∷ d4 ∷ d5 ∷ s0 ∷ s1 ∷ s2 ∷ s3 ∷ s4 ∷ s5 ∷ t0 ∷ t1 ∷ body) h
        v =
      rw
        (le→ltb
          (length (d0 ∷ d1 ∷ d2 ∷ d3 ∷ d4 ∷ d5 ∷ s0 ∷ s1 ∷ s2 ∷ s3 ∷ s4 ∷ s5 ∷ t0 ∷ t1 ∷ body)) 14
          (omega arith))
        (parsed-Change (d0 ∷ d1 ∷ d2 ∷ d3 ∷ d4 ∷ d5 ∷ s0 ∷ s1 ∷ s2 ∷ s3 ∷ s4 ∷ s5 ∷ t0 ∷ t1 ∷ body)
          (record { a0 = d0; a1 = d1; a2 = d2; a3 = d3; a4 = d4; a5 = d5 }) h v)
  process_rx-Change packet h v =
      ends tt h (process_rx_short packet h (omega arith)) (kept (Keeps-refl h))

-- The interface between two packets: its cache is within its bounds, and it has either no part of
-- a configuration, or all of it with no DHCP exchange in flight.
pub record IsConfigured (i : NetworkInterface) : Type 0 where
  pub cache : IsCache i.arp
  pub whole :
      ((i.ipv4 ≡ none) × (i.gateway ≡ none) × (i.subnet_mask ≡ none))
      ⊎ ((ip : Ipv4Addr) × (gateway : Ipv4Addr) × (mask : Ipv4Addr) × (i.ipv4 ≡ some ip)
          × (i.gateway ≡ some gateway)
          × (i.subnet_mask ≡ some mask)
          × (i.dhcp ≡ idle))

Change-IsConfigured :
    {h h' : Host} → Change h h' → IsConfigured h.interface → IsConfigured h'.interface
Change-IsConfigured (kept k) v = record {
  cache = k.cache v.cache;
  whole = elim v.whole [
    | inl (a, g, m) ↦ inl (k.same_ipv4 ∙ a, k.same_gateway ∙ g, k.same_mask ∙ m)
    | inr (ip, gateway, mask, a, g, m, s) ↦
        inr
          (ip, gateway, mask, k.same_ipv4 ∙ a, k.same_gateway ∙ g, k.same_mask ∙ m, k.same_dhcp ∙ s)
  ];
}
Change-IsConfigured (offered msg xid offer e run mac a g m cache next) v = record {
  cache = cache v.cache;
  whole = elim v.whole [
    | inl (a', g', m') ↦ inl (a ∙ a', g ∙ g', m ∙ m')
    | inr (ip, gateway, mask, a', g', m', s) ↦ absurd (cc)
  ];
}
Change-IsConfigured (bound msg xid offer ack e run same mac a g m arp next) v = record {
  cache = subst IsCache (sym arp) v.cache;
  whole = inr (ack.client_addr, ack.gateway, ack.subnet_mask, a, g, m, next);
}

Change-mac : {h h' : Host} → Change h h' → h'.interface.mac ≡ h.interface.mac
Change-mac (kept k) = k.same_mac
Change-mac (offered msg xid offer e run mac a g m cache next) = mac
Change-mac (bound msg xid offer ack e run same mac a g m arp next) = mac

-- What stays fixed while no exchange is in flight.
pub record IsFixed (i j : NetworkInterface) : Type 0 where
  pub same_ipv4 : j.ipv4 ≡ i.ipv4
  pub same_gateway : j.gateway ≡ i.gateway
  pub same_mask : j.subnet_mask ≡ i.subnet_mask
  pub still_idle : j.dhcp ≡ idle

Change-IsFixed :
    {h h' : Host} → Change h h' → h.interface.dhcp ≡ idle → IsFixed h.interface h'.interface
Change-IsFixed (kept k) s = record {
  same_ipv4 = k.same_ipv4;
  same_gateway = k.same_gateway;
  same_mask = k.same_mask;
  still_idle = k.same_dhcp ∙ s;
}
Change-IsFixed (offered msg xid offer e run mac a g m cache next) s = absurd (cc)
Change-IsFixed (bound msg xid offer ack e run same mac a g m arp next) s = absurd (cc)

module _ (env : Env) (takes : (frame : List ℕ) → env.takes frame ≡ true) where
  -- A well-formed interface receives any sequence of byte strings without a panic, when the driver
  -- takes the frames that are sent, and is well formed after it, with its own hardware address.
  pub process_all-IsConfigured :
      (packets : List (List ℕ)) (h : Host)
      → All IsBytes packets
      → IsConfigured h.interface
      → Ends
          (process_all env packets h)
          (λ _ h'. IsConfigured h'.interface × (h'.interface.mac ≡ h.interface.mac))
  unfolding process_all
  process_all-IsConfigured [] h v w = ends tt h refl (w, refl)
  process_all-IsConfigured (packet ∷ packets) h v w =
      Ends-bind (process_rx env packet) (λ _. process_all env packets) h
        (process_rx-Change env takes packet h v.0)
        (λ a h' c.
          Ends-map (process_all-IsConfigured packets h' v.1 (Change-IsConfigured c w))
            (λ b h'' r. (r.0, r.1 ∙ Change-mac c)))

  -- With no exchange in flight, no traffic whatsoever changes the address, the gateway or the mask,
  -- nor starts an exchange: an address that is bound stays bound.
  pub process_all-IsFixed :
      (packets : List (List ℕ)) (h : Host)
      → All IsBytes packets
      → h.interface.dhcp ≡ idle
      → Ends (process_all env packets h) (λ _ h'. IsFixed h.interface h'.interface)
  unfolding process_all
  process_all-IsFixed [] h v s =
      ends tt h refl
        (record { same_ipv4 = refl; same_gateway = refl; same_mask = refl; still_idle = s })
  process_all-IsFixed (packet ∷ packets) h v s =
      Ends-bind (process_rx env packet) (λ _. process_all env packets) h
        (process_rx-Change env takes packet h v.0)
        (λ a h' c.
          let fixed = Change-IsFixed c s in
          Ends-map (process_all-IsFixed packets h' v.1 fixed.still_idle) (λ b h'' r. record {
            same_ipv4 = r.same_ipv4 ∙ fixed.same_ipv4;
            same_gateway = r.same_gateway ∙ fixed.same_gateway;
            same_mask = r.same_mask ∙ fixed.same_mask;
            still_idle = r.still_idle;
          }))
