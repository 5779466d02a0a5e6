-- ===== src/Net/Ethernet/Dispatch.antt =====
-- The frame parser on any bytes, through the parsers of its two payloads.
use conc_os.Common.{
  ℕ, ◌+◌, ◌*◌, ◌<◌, ◌≡◌, ◌≢◌, refl, List, [], ◌∷◌, ◌++◌, Result, ok, err, length, arith, le→ltb,
  lt→ltb, ap, inl, inr, ◌⊎◌, subst, ℕ_discrete, ne→==, ◌==◌, map_err, ◌>>=◌, if◌then◌else◌,
}
use conc_os.Common.Slices.{IsBytes, range, range_rest}
use conc_os.Net.Arp.Packet.{ArpPacket, ArpError}
use conc_os.Net.Arp.Packet
use conc_os.Net.Arp.Packet.Codec
use conc_os.Net.Arp.Packet.Codec.{IsEthernetIpv4}
use conc_os.Net.Ipv4
use conc_os.Net.Ipv4.Sound
use conc_os.Net.Ethernet.{
  EthernetFrame, EthernetError, arp, ipv4, unknown, arp_error, ipv4_err, too_short, new,
}
use conc_os.Common.{All-drop}
use conc_os.Common.Slices.{IsByte}

-- What a frame parses to. `addresses` are the two hardware addresses in front of the ethertype.
pub data Outcome (packet : List ℕ) (r : Result EthernetError EthernetFrame) : Type 0 where
  short : length packet < 14 → r ≡ err too_short → Outcome packet r
  carries_arp :
      (addresses rest : List ℕ) (p : ArpPacket)
      → length addresses ≡ 12
      → packet ≡ addresses ++ (0x08 ∷ 0x06 ∷ (Packet.serialize p ++ rest))
      → IsEthernetIpv4 p
      → r ≡ ok (arp p)
      → Outcome packet r
  bad_arp :
      (addresses body : List ℕ) (e : ArpError)
      → length addresses ≡ 12
      → packet ≡ addresses ++ (0x08 ∷ 0x06 ∷ body)
      → Packet.from_slice body ≡ err e
      → r ≡ err (arp_error e)
      → Outcome packet r
  carries_ipv4 :
      (addresses body : List ℕ) (p : Ipv4.Ipv4Packet)
      → length addresses ≡ 12
      → packet ≡ addresses ++ (0x08 ∷ 0x00 ∷ body)
      → Ipv4.from_packet body ≡ ok p
      → r ≡ ok (ipv4 p)
      → Outcome packet r
  bad_ipv4 :
      (addresses body : List ℕ) (e : Ipv4.Ipv4Error)
      → length addresses ≡ 12
      → packet ≡ addresses ++ (0x08 ∷ 0x00 ∷ body)
      → Ipv4.from_packet body ≡ err e
      → r ≡ err (ipv4_err e)
      → Outcome packet r
  other :
      (addresses body : List ℕ) (hi lo : ℕ)
      → length addresses ≡ 12
      → packet ≡ addresses ++ (hi ∷ lo ∷ body)
      → (hi ≢ 0x08) ⊎ ((lo ≢ 0x06) × (lo ≢ 0x00))
      → r ≡ ok (unknown (hi * 256 + lo) packet)
      → Outcome packet r

module _ (d0 d1 d2 d3 d4 d5 s0 s1 s2 s3 s4 s5 : ℕ) (body : List ℕ) where
  abbrev addresses : List ℕ
  addresses = d0 ∷ d1 ∷ d2 ∷ d3 ∷ d4 ∷ d5 ∷ s0 ∷ s1 ∷ s2 ∷ s3 ∷ s4 ∷ s5 ∷ []

  abbrev packet_of : ℕ → ℕ → List ℕ
  packet_of hi lo = addresses ++ (hi ∷ lo ∷ body)

  new_tests :
      (hi lo : ℕ)
      → new (packet_of hi lo) ≡ (
          if hi * 256 + lo == 0x0806
          then (map_err arp_error (Packet.from_slice body) >>= λ p. ok (arp p))
          else if hi * 256 + lo == 0x0800
          then (map_err ipv4_err (Ipv4.from_packet body) >>= λ p. ok (ipv4 p))
          else ok (unknown (hi * 256 + lo) (packet_of hi lo)))
  unfolding new
  new_tests hi lo =
      let whole = packet_of hi lo in
      let last : range {E = EthernetError} whole 14 (length whole) ≡ ok body =
        range_rest (addresses ++ (hi ∷ lo ∷ [])) body 14 (length whole) refl (omega arith) in
      rw (last, le→ltb (length whole) 14 (omega arith))

  abbrev Goal : ℕ → ℕ → Type 0
  Goal hi lo = Outcome (packet_of hi lo) (new (packet_of hi lo))

  arp_outcome : Codec.Parse body (Packet.from_slice body) → Goal 0x08 0x06
  arp_outcome (Codec.rejected x run) =
      bad_arp addresses body x refl refl run (rw (new_tests 0x08 0x06, run))
  arp_outcome (Codec.accepted p rest run v shape) =
      carries_arp addresses rest p refl (ap (λ xs. addresses ++ (0x08 ∷ 0x06 ∷ xs)) shape) v
        (rw (new_tests 0x08 0x06, run))

  ipv4_outcome : Sound.Parse body (Ipv4.from_packet body) → Goal 0x08 0x00
  ipv4_outcome (Sound.rejected x run) =
      bad_ipv4 addresses body x refl refl run (rw (new_tests 0x08 0x00, run))
  ipv4_outcome (Sound.accepted p rest run v small shape check) =
      carries_ipv4 addresses body p refl refl run (rw (new_tests 0x08 0x00, run))

  other_outcome : (hi lo : ℕ) → hi * 256 + lo ≢ 0x0806 → hi * 256 + lo ≢ 0x0800 → Goal hi lo
  other_outcome hi lo t u =
      other addresses body hi lo refl refl (apart (ℕ_discrete hi 0x08))
        (rw (new_tests hi lo, ne→== (hi * 256 + lo) 0x0806 t, ne→== (hi * 256 + lo) 0x0800 u))
    where
      apart : Dec (hi ≡ 0x08) → (hi ≢ 0x08) ⊎ ((lo ≢ 0x06) × (lo ≢ 0x00))
      apart (no h) = inl h
      apart (yes h) = inr ((λ l. t (omega arith)), (λ l. u (omega arith)))

  opened_outcome : (hi lo : ℕ) → lo < 256 → IsBytes body → Goal hi lo
  opened_outcome hi lo small v = elim (ℕ_discrete (hi * 256 + lo) 0x0806) [
    | yes t ↦
        subst (λ n. Goal n lo) (let e : 0x08 ≡ hi = omega arith in e)
          (subst (Goal 0x08) (let e : 0x06 ≡ lo = omega arith in e)
            (arp_outcome (Codec.from_slice_sound body v)))
    | no t ↦ elim (ℕ_discrete (hi * 256 + lo) 0x0800) [
      | yes u ↦
          subst (λ n. Goal n lo) (let e : 0x08 ≡ hi = omega arith in e)
            (subst (Goal 0x08) (let e : 0x00 ≡ lo = omega arith in e)
              (ipv4_outcome (Sound.from_packet_sound body v)))
      | no u ↦ other_outcome hi lo t u
    ]
  ]

new_short : (packet : List ℕ) → length packet < 14 → new packet ≡ err too_short
unfolding new
new_short packet h = rw (lt→ltb (length packet) 14 h)

-- On any bytes the frame parser never panics. It says `TooShort` below 14 bytes. Otherwise the two
-- bytes after the hardware addresses decide: after 08 06 the rest is what the ARP parser says, either
-- a packet of which the rest is the print, or its error; after 08 00 what the IPv4 parser says, a
-- packet or its error; and a frame with any other ethertype is kept whole.
pub new_sound : (packet : List ℕ) → IsBytes packet → Outcome packet (new packet)
new_sound (d0 ∷ d1 ∷ d2 ∷ d3 ∷ d4 ∷ d5 ∷ s0 ∷ s1 ∷ s2 ∷ s3 ∷ s4 ∷ s5 ∷ hi ∷ lo ∷ body) v =
    let bytes = All-drop IsByte 12 (packet_of d0 d1 d2 d3 d4 d5 s0 s1 s2 s3 s4 s5 body hi lo) v in
    opened_outcome d0 d1 d2 d3 d4 d5 s0 s1 s2 s3 s4 s5 body hi lo bytes.1.0 bytes.1.1
new_sound packet v = short (omega arith) (new_short packet (omega arith))
