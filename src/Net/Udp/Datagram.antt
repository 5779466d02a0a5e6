-- ===== src/Net/Udp/Datagram.antt =====
-- Printing and parsing UDP datagrams.
use conc_os.Common.{
  ℕ, suc, ◌+◌, ◌*◌, ◌/◌, ◌%◌, ◌^◌, ◌<◌, ◌≤◌, ◌≡◌, ◌≢◌, refl, ◌⊎◌, inl, inr, List, [], ◌∷◌, ◌++◌,
  Bool, ◌||◌, ◌&&◌, arith, Result, ok, err, ◌>>◌, reject_if, ltb, ◌==◌, ◌!=◌, if◌then◌else◌, length,
  le→ltb, Bool-cases, ap, ◌∙◌, sym, ok-injective, subst, dec_le,
}
use conc_os.Common.Slices.{range, range_rest, u16_to_be_bytes, u16_bytes, IsBytes}
use conc_os.Net.Addr.{Ipv4Addr, IsAddr}
use conc_os.Net.Checksum.{internet_checksum}
use conc_os.Net.Checksum.Verify.{
  word_sum, word_sum_bound, total, internet_checksum_accepts, internet_checksum-IsChecksum,
}
use conc_os.Net.Ipv4.{Ipv4Packet}
use conc_os.Net.Udp.{
  UdpPacket, UdpError, length_out_of_range, length_mismatch, incorrect_checksum, from_packet,
  serialize_ipv4, covered, ports_and_length, max_udp_payload,
}

-- A datagram that the length field can describe.
pub record IsDatagram (q : UdpPacket) : Type 0 where
  pub source_small : q.source_port < 2 ^ 16
  pub dest_small : q.dest_port < 2 ^ 16
  pub room : length q.payload ≤ max_udp_payload
  pub payload_bytes : IsBytes q.payload

-- The checksum field that `serialize_ipv4` writes.
unfoldable pub stored_checksum : UdpPacket → Ipv4Addr → Ipv4Addr → ℕ
stored_checksum q source dest =
    let size = 8 + length q.payload in
    let computed =
      internet_checksum (covered source dest size (ports_and_length q size ∷ q.payload ∷ [])) in
    if computed == 0 then 0xffff else computed

abbrev datagram_bytes : UdpPacket → Ipv4Addr → Ipv4Addr → List ℕ
datagram_bytes q source dest =
    ports_and_length q (8 + length q.payload)
    ++ (u16_to_be_bytes (stored_checksum q source dest) ++ q.payload)

serialize_shape :
    (q : UdpPacket) (source dest : Ipv4Addr)
    → IsDatagram q
    → serialize_ipv4 q source dest ≡ ok (datagram_bytes q source dest)
unfolding serialize_ipv4 stored_checksum
serialize_shape q source dest v =
    let size : (8 + length q.payload) % 2 ^ 16 ≡ 8 + length q.payload = omega (arith, v.room) in
    rw (
      le→ltb 65535 (length q.payload) (omega (arith, v.room)),
      le→ltb max_udp_payload (length q.payload) (omega (arith, v.room)),
      size,
    )

abbrev unsummed : UdpPacket → Ipv4Addr → Ipv4Addr → List (List ℕ)
unsummed q source dest =
    covered source dest (8 + length q.payload)
      (ports_and_length q (8 + length q.payload) ∷ q.payload ∷ [])

pseudo_sum_bounds :
    (q : UdpPacket) (source dest : Ipv4Addr)
    → IsDatagram q
    → IsAddr source
    → IsAddr dest
    → (0 < total (unsummed q source dest)) × (total (unsummed q source dest) < 2 ^ 31 + 2 ^ 30)
unfolding total word_sum
pseudo_sum_bounds q source dest v s d = (
  omega arith,
  omega (arith, v.room, v.source_small, v.dest_small, word_sum_bound q.payload v.payload_bytes),
)

-- The checksum field is never zero, the value by which a sender says that there is none.
stored_checksum_lem :
    (q : UdpPacket) (source dest : Ipv4Addr)
    → IsDatagram q
    → IsAddr source
    → IsAddr dest
    → (0 < stored_checksum q source dest)
      × (stored_checksum q source dest < 2 ^ 16)
      × ((total (unsummed q source dest) + stored_checksum q source dest) % 65535 ≡ 0)
unfolding stored_checksum
stored_checksum_lem q source dest v s d =
    let bounds = pseudo_sum_bounds q source dest v s d in
    let check = internet_checksum-IsChecksum (unsummed q source dest) (omega (arith, bounds)) in
    (ground (arith), ground (arith, check.small), ground (arith, check.completes))

datagram_sum :
    (q : UdpPacket) (source dest : Ipv4Addr)
    → stored_checksum q source dest < 2 ^ 16
    → total (covered source dest (8 + length q.payload) (datagram_bytes q source dest ∷ []))
      ≡ total (unsummed q source dest) + stored_checksum q source dest
unfolding total word_sum
datagram_sum q source dest h = omega arith

datagram_verifies :
    (q : UdpPacket) (source dest : Ipv4Addr)
    → IsDatagram q
    → IsAddr source
    → IsAddr dest
    → internet_checksum
        (covered source dest (8 + length q.payload) (datagram_bytes q source dest ∷ []))
      ≡ 0
datagram_verifies q source dest v s d =
    let bounds = pseudo_sum_bounds q source dest v s d in
    let stored = stored_checksum_lem q source dest v s d in
    let sum = datagram_sum q source dest stored.1 in
    (internet_checksum_accepts
        (covered source dest (8 + length q.payload) (datagram_bytes q source dest ∷ []))
        (omega (arith, sum, bounds, stored))).1
      (omega (arith, sum, stored), omega (arith, sum, bounds))

parses_back :
    (q : UdpPacket) (ip : Ipv4Packet)
    → IsDatagram q
    → IsAddr ip.source
    → IsAddr ip.dest
    → 28 ≤ ip.total_length
    → ip.payload ≡ datagram_bytes q ip.source ip.dest
    → from_packet ip
      ≡ ok (record q {
        datagram_length = 8 + length q.payload;
        checksum = stored_checksum q ip.source ip.dest;
      })
unfolding from_packet
parses_back q ip v s d long e =
    let stored = stored_checksum_lem q ip.source ip.dest v s d in
    let n = length q.payload in
    let size : suc (suc (suc (suc (suc (suc (suc (suc n))))))) ≡ 8 + n = omega arith in
    let field : (8 + n) / 256 % 256 * 256 + (8 + n) % 256 ≡ 8 + n =
      u16_bytes (8 + n) (omega (arith, v.room)) in
    let head =
      ports_and_length q (8 + n) ++ u16_to_be_bytes (stored_checksum q ip.source ip.dest) in
    let last : range {E = UdpError} ip.payload 8 (length ip.payload) ≡ ok q.payload =
      subst (λ (xs : List ℕ). range {E = UdpError} xs 8 (length xs) ≡ ok q.payload) (sym e)
        (range_rest head q.payload 8 (length (head ++ q.payload)) refl (omega arith)) in
    let wrap : (8 + n) % 2 ^ 16 ≡ 8 + n = omega (arith, v.room) in
    rw
      (
        last,
        e,
        le→ltb ip.total_length 28 long,
        size,
        le→ltb (8 + n) 8 (omega arith),
        le→ltb 65535 (8 + n) (omega (arith, v.room)),
        field,
        wrap,
        datagram_verifies q ip.source ip.dest v s d,
      )
      (ground (
        arith,
        u16_bytes q.source_port,
        u16_bytes q.dest_port,
        u16_bytes (stored_checksum q ip.source ip.dest),
        stored,
      ))

-- A datagram with at most 65527 bytes of data is serialized, and any IPv4 packet that carries the
-- result between the same addresses parses to the same ports and data, with the length filled in
-- and a checksum that is not zero.
pub from_packet-serialize_ipv4 :
    (q : UdpPacket) (ip : Ipv4Packet)
    → IsDatagram q
    → IsAddr ip.source
    → IsAddr ip.dest
    → 28 ≤ ip.total_length
    → serialize_ipv4 q ip.source ip.dest ≡ ok ip.payload
    → (check : ℕ) × (from_packet ip
        ≡ ok (record q { datagram_length = 8 + length q.payload; checksum = check }))
      × (check ≢ 0)
from_packet-serialize_ipv4 q ip v s d long e =
    let stored = stored_checksum_lem q ip.source ip.dest v s d in
    (
      stored_checksum q ip.source ip.dest,
      parses_back q ip v s d long (ok-injective (sym e ∙ serialize_shape q ip.source ip.dest v)),
      λ z. omega (arith, stored),
    )

-- `serialize_ipv4` never panics and fails exactly on data that the 16-bit length cannot describe.
pub serialize_ipv4_total :
    (q : UdpPacket) (source dest : Ipv4Addr)
    → ((length q.payload ≤ max_udp_payload)
        × (bytes : List ℕ) × (serialize_ipv4 q source dest ≡ ok bytes)
        × (length bytes ≡ 8 + length q.payload))
      ⊎ ((max_udp_payload < length q.payload)
          × (serialize_ipv4 q source dest ≡ err length_out_of_range))
unfolding serialize_ipv4
serialize_ipv4_total q source dest = elim (dec_le (length q.payload) max_udp_payload) [
  | yes h ↦
      let size : (8 + length q.payload) % 2 ^ 16 ≡ 8 + length q.payload = omega arith in
      inl (
        h,
        datagram_bytes q source dest,
        unfold stored_checksum in
            rw (
              le→ltb 65535 (length q.payload) (omega arith),
              le→ltb max_udp_payload (length q.payload) h,
              size,
            ),
        omega arith,
      )
  | no h ↦ inr (omega arith, ground arith)
]

-- What the parser checks of a datagram.
pub record IsSound (ip : Ipv4Packet) (q : UdpPacket) : Type 0 where
  pub size : length ip.payload ≡ 8 + length q.payload
  pub declared : q.datagram_length ≡ length ip.payload
  pub trusted :
      (q.checksum ≡ 0)
      ⊎ (internet_checksum (covered ip.source ip.dest q.datagram_length (ip.payload ∷ [])) ≡ 0)

pub data Parse (ip : Ipv4Packet) (r : Result UdpError UdpPacket) : Type 0 where
  rejected : (e : UdpError) → r ≡ err e → Parse ip r
  accepted : (q : UdpPacket) → r ≡ ok q → IsSound ip q → Parse ip r

module _ (ip : Ipv4Packet) (b0 b1 b2 b3 b4 b5 b6 b7 : ℕ) (tail : List ℕ)
    (shape : ip.payload ≡ b0 ∷ b1 ∷ b2 ∷ b3 ∷ b4 ∷ b5 ∷ b6 ∷ b7 ∷ tail) where
  abbrev wrong_length : Bool
  wrong_length =
      ltb ip.total_length 28 || (ltb (length ip.payload) 8 || ltb 65535 (length ip.payload))

  abbrev mismatch : Bool
  mismatch = b4 * 256 + b5 != length ip.payload % 2 ^ 16

  abbrev wrong_checksum : Bool
  wrong_checksum =
      internet_checksum (covered ip.source ip.dest (b4 * 256 + b5) (ip.payload ∷ [])) != 0
      && b6 * 256 + b7 != 0

  abbrev datagram : UdpPacket
  datagram = record {
    source_port = b0 * 256 + b1;
    dest_port = b2 * 256 + b3;
    datagram_length = b4 * 256 + b5;
    checksum = b6 * 256 + b7;
    payload = tail;
  }

  -- The parser as its three tests, with every read done.
  from_packet_tests : from_packet ip ≡ (
      reject_if wrong_length length_out_of_range
      >> (reject_if mismatch length_mismatch
          >> (reject_if wrong_checksum incorrect_checksum >> ok datagram)))
  unfolding from_packet
  from_packet_tests =
      let last : range {E = UdpError} ip.payload 8 (length ip.payload) ≡ ok tail =
        subst (λ (xs : List ℕ). range {E = UdpError} xs 8 (length xs) ≡ ok tail) (sym shape)
          (range_rest (b0 ∷ b1 ∷ b2 ∷ b3 ∷ b4 ∷ b5 ∷ b6 ∷ b7 ∷ []) tail 8
            (length (b0 ∷ b1 ∷ b2 ∷ b3 ∷ b4 ∷ b5 ∷ b6 ∷ b7 ∷ tail)) refl (omega arith)) in
      rw (last, shape)

  opened-Parse : Parse ip (from_packet ip)
  opened-Parse = rw from_packet_tests (elim (Bool-cases wrong_length) [
    | inl t ↦ rejected length_out_of_range (rw t)
    | inr t ↦ elim (Bool-cases mismatch) [
      | inl u ↦ rejected length_mismatch (rw (t, u))
      | inr u ↦ elim (Bool-cases wrong_checksum) [
        | inl w ↦ rejected incorrect_checksum (rw (t, u, w))
        | inr w ↦ accepted datagram (rw (t, u, w)) (record {
          size = omega (arith, ap length shape);
          declared = ground arith;
          trusted = ground arith;
        })
      ]
    ]
  ])

from_packet_short :
    (ip : Ipv4Packet) → length ip.payload < 8 → from_packet ip ≡ err length_out_of_range
unfolding from_packet
from_packet_short ip h = ground arith

-- On any IPv4 packet the parser gives an error, or a datagram whose length field is the length
-- that was received and whose checksum is absent or correct. It never panics.
pub datagram_sound : (ip : Ipv4Packet) → Parse ip (from_packet ip)
datagram_sound ip = go ip.payload refl
  where
    go : (xs : List ℕ) → ip.payload ≡ xs → Parse ip (from_packet ip)
    go (b0 ∷ b1 ∷ b2 ∷ b3 ∷ b4 ∷ b5 ∷ b6 ∷ b7 ∷ tail) e =
        opened-Parse ip b0 b1 b2 b3 b4 b5 b6 b7 tail e
    go xs e = rejected length_out_of_range (from_packet_short ip (omega (arith, ap length e)))
