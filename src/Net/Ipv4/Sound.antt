-- ===== src/Net/Ipv4/Sound.antt =====
-- What the IPv4 parser promises on any byte string: it never panics, and what it accepts is a
-- packet that prints back to the bytes it was read from.
use conc_os.Common.{
  ℕ, ◌+◌, ◌*◌, ◌/◌, ◌%◌, ◌^◌, ◌<◌, ◌≡◌, ◌≢◌, refl, List, [], ◌∷◌, ◌++◌, Bool, true, bit_and, arith,
  ◌||◌, Result, ok, err, panic, ◌!=◌, ◌==◌, length, lt→ltb, append_assoc, All-append_left, All-drop,
  subst, ap, sym, ◌∙◌, dec_le, ok-injective,
}
use conc_os.Common.Bits.{and_mask, holds_below, holds_below-get}
use conc_os.Common.Slices.{IsByte, IsBytes, bytes_u16}
use conc_os.Net.Checksum.{internet_checksum}
use conc_os.Net.Checksum.Verify.{internet_checksum_accepts, internet_checksum-IsChecksum}
use conc_os.Net.Ipv4.{
  from_packet, serialize, Ipv4Packet, Ipv4Error, length_out_of_range, protocol_from,
  protocol_number,
}
use conc_os.Net.Ipv4.Accept.{fixed, parsed}
use conc_os.Net.Ipv4.RoundTrip.{
  IsPacket, IsProtocol, header_with, header_checksum, serialize_shape, flag_bits, flags_word,
  header_sum, header_sum_bounds,
}
use conc_os.Net.Ipv4.Read.{Opened, opened, open_bytes, rejects, accepts, opened_cases, IsAccepted}
use conc_os.Common.Slices.{bytes_u16}

-- The result of a parse: an error, or a packet that stands at the front of the bytes.
pub data Parse (bytes : List ℕ) (r : Result Ipv4Error Ipv4Packet) : Type 0 where
  rejected : (e : Ipv4Error) → r ≡ err e → Parse bytes r
  accepted :
      (p : Ipv4Packet) (rest : List ℕ)
      → r ≡ ok p
      → IsPacket p
      → p.checksum < 2 ^ 16
      → bytes ≡ header_with p p.checksum (p.options ++ (p.payload ++ rest))
      → internet_checksum (header_with p p.checksum p.options ∷ []) ≡ 0
      → Parse bytes r

protocol_number-from :
    (n : ℕ) → n < 256 → (protocol_number (protocol_from n) ≡ n) × IsProtocol (protocol_from n)
unfolding protocol_number protocol_from
protocol_number-from n h = ground arith

-- The flag bits that are read from the three top bits of the flags word.
flags_read : ℕ → Bool
flags_read f =
    (bit_and f 0b100 != 0) || (flag_bits (bit_and f 0b010 != 0) (bit_and f 0b001 != 0) == f)

flags_read_table : holds_below flags_read 8 ≡ true
unfolding holds_below flags_read
flags_read_table = refl

flags_read_back :
    (f : ℕ)
    → f < 8
    → bit_and f 0b100 ≡ 0
    → flag_bits (bit_and f 0b010 != 0) (bit_and f 0b001 != 0) ≡ f
unfolding flags_read
flags_read_back f h clear =
    let row = holds_below-get flags_read 8 f h flags_read_table in ground (arith, clear)

module _ (b0 b1 b2 b3 b4 b5 b6 b7 b8 b9 b10 b11 b12 b13 b14 b15 b16 b17 b18 b19 : ℕ) where
  abbrev at : List ℕ → List ℕ
  at = fixed b0 b1 b2 b3 b4 b5 b6 b7 b8 b9 b10 b11 b12 b13 b14 b15 b16 b17 b18 b19

  abbrev read : List ℕ → List ℕ → Ipv4Packet
  read = parsed b0 b1 b2 b3 b4 b5 b6 b7 b8 b9 b10 b11 b12 b13 b14 b15 b16 b17 b18 b19

  flags_kept :
      (options payload : List ℕ)
      → b6 < 256
      → b7 < 256
      → bit_and ((b6 * 256 + b7) / 2 ^ 13) 0b100 ≡ 0
      → flags_word (read options payload) ≡ b6 * 256 + b7
  flags_kept options payload h6 h7 evil = omega (
    arith,
    flags_read_back ((b6 * 256 + b7) / 2 ^ 13) (omega arith) evil,
    and_mask 13 ((b6 * 256 + b7) % 2 ^ 13),
  )

  -- The packet that is read has a header made of the bytes that it was read from.
  header_kept :
      (options payload tail : List ℕ)
      → IsBytes (at tail)
      → bit_and ((b6 * 256 + b7) / 2 ^ 13) 0b100 ≡ 0
      → header_with (read options payload) (b10 * 256 + b11) ≡ at
  header_kept options payload tail bytes evil =
      let word2 = bytes_u16 b2 b3 (omega arith) (omega arith) in
      let word4 = bytes_u16 b4 b5 (omega arith) (omega arith) in
      let word6 = bytes_u16 b6 b7 (omega arith) (omega arith) in
      let word10 = bytes_u16 b10 b11 (omega arith) (omega arith) in
      let flags = flags_kept options payload (omega arith) (omega arith) evil in
      let protocol = protocol_number-from b9 (omega arith) in
      rw (
        flags, word2.0, word2.1, word4.0, word4.1, word6.0, word6.1, word10.0, word10.1, protocol.0,
      )

  read-IsPacket :
      (tail options payload rest : List ℕ)
      → IsBytes (at tail)
      → IsAccepted b0 b1 b2 b3 b4 b5 b6 b7 b8 b9 b10 b11 b12 b13 b14 b15 b16 b17 b18 b19 tail
          options payload rest
      → IsPacket (read options payload)
  read-IsPacket tail options payload rest bytes v = record {
    version = omega (arith, v.version, v.words);
    words = omega (arith, v.version, v.words);
    dscp = omega arith;
    lengths = v.lengths;
    small = omega arith;
    id_small = omega arith;
    offset_small = omega arith;
    ttl_small = omega arith;
    protocol_known = (protocol_number-from b9 (omega arith)).1;
    source_bytes = omega arith;
    dest_bytes = omega arith;
    option_bytes =
        All-append_left IsByte options (payload ++ rest)
          (subst IsBytes v.parts (All-drop IsByte 20 (at tail) bytes));
  }

  opened-Parse : (tail : List ℕ) → IsBytes (at tail) → Parse (at tail) (from_packet (at tail))
  opened-Parse tail bytes =
      elim (opened_cases b0 b1 b2 b3 b4 b5 b6 b7 b8 b9 b10 b11 b12 b13 b14 b15 b16 b17 b18 b19 tail
        (omega arith)) [
          | rejects e run ↦ rejected e run
          | accepts options payload rest run v ↦
              let same = header_kept options payload tail bytes v.evil in
              accepted (read options payload) rest run
                (read-IsPacket tail options payload rest bytes v) (omega arith)
                (ap at v.parts
                  ∙ sym (ap (λ (f : List ℕ → List ℕ). f (options ++ (payload ++ rest))) same))
                (ap (λ (f : List ℕ → List ℕ). internet_checksum (f options ∷ [])) same ∙ v.check)
        ]

from_packet_short :
    (bytes : List ℕ) → length bytes < 20 → from_packet bytes ≡ err length_out_of_range
unfolding from_packet
from_packet_short bytes h = rw (lt→ltb (length bytes) 20 h)

-- On any byte string the parser gives an error, or a well-formed packet that stands at the front
-- of the bytes with a header whose checksum verifies.
pub from_packet_sound : (bytes : List ℕ) → IsBytes bytes → Parse bytes (from_packet bytes)
from_packet_sound bytes v = elim (dec_le 20 (length bytes)) [
  | yes long ↦ go bytes (open_bytes bytes long) v
  | no short ↦ rejected length_out_of_range (from_packet_short bytes (omega arith))
]
  where
    go : (xs : List ℕ) → Opened xs → IsBytes xs → Parse xs (from_packet xs)
    go xs (opened b0 b1 b2 b3 b4 b5 b6 b7 b8 b9 b10 b11 b12 b13 b14 b15 b16 b17 b18 b19 tail) h =
        opened-Parse b0 b1 b2 b3 b4 b5 b6 b7 b8 b9 b10 b11 b12 b13 b14 b15 b16 b17 b18 b19 tail h

-- Of the two words that make a header verify, 0 and 2^16 - 1 are the only pair that `serialize`
-- and a sender may disagree on.
checksum_kept :
    (p : Ipv4Packet)
    → IsPacket p
    → p.checksum < 2 ^ 16
    → p.checksum ≢ 0xffff
    → internet_checksum (header_with p p.checksum p.options ∷ []) ≡ 0
    → header_checksum p ≡ p.checksum
unfolding header_checksum
checksum_kept p v small not_ones verifies =
    let bounds = header_sum_bounds p v in
    let zeroed = header_with p 0 p.options ∷ [] in
    let check = internet_checksum-IsChecksum zeroed (omega (arith, bounds)) in
    let sum = header_sum p p.checksum small in
    let filled = header_with p p.checksum p.options ∷ [] in
    let held = (internet_checksum_accepts filled (omega (arith, sum, bounds))).0 verifies in
    let below : internet_checksum zeroed ≢ 65535 = λ e. omega (arith, check.ones_only e, bounds) in
    omega (arith, sum, held, check.completes, check.small, below)

-- The parser never panics, whatever bytes it is given.
pub from_packet-ne-panic : (bytes : List ℕ) → IsBytes bytes → from_packet bytes ≢ panic
from_packet-ne-panic bytes v e = elim (from_packet_sound bytes v) [
  | rejected x run ↦ cc
  | accepted p rest run q small shape check ↦ cc
]

prints_back :
    (p : Ipv4Packet) (bytes rest : List ℕ)
    → IsPacket p
    → bytes ≡ header_with p p.checksum (p.options ++ (p.payload ++ rest))
    → header_checksum p ≡ p.checksum
    → bytes ≡ serialize p ++ rest
prints_back p bytes rest v shape kept =
    rw (serialize_shape p, append_assoc p.options p.payload rest, kept) shape

-- Parsing and then printing: a packet that the parser accepts, with any checksum but 0xffff,
-- prints to the bytes that it was read from, without what follows the packet in the buffer, and
-- its fields are consistent.
pub serialize-from_packet :
    (bytes : List ℕ) (p : Ipv4Packet)
    → IsBytes bytes
    → from_packet bytes ≡ ok p
    → p.checksum ≢ 0xffff
    → IsPacket p × (rest : List ℕ) × (bytes ≡ serialize p ++ rest)
serialize-from_packet bytes p v e not_ones = elim (from_packet_sound bytes v) [
  | rejected x run ↦ absurd (cc)
  | accepted q rest run packet small shape check ↦
      subst
        (λ (t : Ipv4Packet).
          t.checksum ≢ 0xffff → IsPacket t × (rest : List ℕ) × (bytes ≡ serialize t ++ rest))
        (ok-injective (sym run ∙ e))
        (λ h. (
          packet,
          rest,
          prints_back q bytes rest packet shape (checksum_kept q packet small h check),
        ))
        not_ones
]
