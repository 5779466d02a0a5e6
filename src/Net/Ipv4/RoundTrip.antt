-- ===== src/Net/Ipv4/RoundTrip.antt =====
-- Printing and parsing an IPv4 packet.
use conc_os.Common.{
  ℕ, ◌+◌, ◌*◌, ◌/◌, ◌%◌, ◌^◌, ◌<◌, ◌≡◌, refl, List, [], ◌∷◌, ◌++◌, Bool, true, false, bit_and,
  arith, ok, ◌!=◌, length, if◌then◌else◌, append_assoc,
}
use conc_os.Common.Bits.{and_mask}
use conc_os.Common.Slices.{IsBytes, take_front, u16_bytes}
use conc_os.Net.Checksum.{internet_checksum}
use conc_os.Net.Checksum.Verify.{
  word_sum, word_sum_bound, total, filled_accepts, internet_checksum-IsChecksum,
}
use conc_os.Net.Addr.{IsAddr}
use conc_os.Net.Ipv4.{
  from_packet, serialize, Ipv4Packet, IpProtocol, icmp, tcp, udp, unknown, protocol_from,
  protocol_number,
}
use conc_os.Net.Ipv4.Accept.{fixed, from_packet_accepts}

-- A protocol number that `unknown` may carry: the known ones have constructors of their own.
abbrev pub IsProtocol : IpProtocol → Type 0
IsProtocol (unknown n) = (n < 256) × ¬ (n ≡ 1) × ¬ (n ≡ 6) × ¬ (n ≡ 17)
IsProtocol _ = Unit

-- The packets that the header can describe.
pub record IsPacket (p : Ipv4Packet) : Type 0 where
  pub version : p.version_ihl < 80
  pub words : p.version_ihl * 4 ≡ 276 + length p.options
  pub dscp : p.dscp_ecn < 256
  pub lengths : p.total_length ≡ 20 + length p.options + length p.payload
  pub small : p.total_length < 2 ^ 16
  pub id_small : p.id < 2 ^ 16
  pub offset_small : p.frag_offset < 2 ^ 13
  pub ttl_small : p.ttl < 256
  pub protocol_known : IsProtocol p.protocol
  pub source_bytes : IsAddr p.source
  pub dest_bytes : IsAddr p.dest
  pub option_bytes : IsBytes p.options

pub protocol_from-number : (q : IpProtocol) → IsProtocol q → protocol_from (protocol_number q) ≡ q
unfolding protocol_from protocol_number
protocol_from-number icmp h = refl
protocol_from-number tcp h = refl
protocol_from-number udp h = refl
protocol_from-number (unknown n) h = ground arith

protocol_number-lt : (q : IpProtocol) → IsProtocol q → protocol_number q < 256
unfolding protocol_number
protocol_number-lt icmp h = omega arith
protocol_number-lt tcp h = omega arith
protocol_number-lt udp h = omega arith
protocol_number-lt (unknown n) h = h.0

-- The flags word, and the three bits that are read back from it.
abbrev pub flag_bits : Bool → Bool → ℕ
flag_bits dont more = (if dont then 0b010 else 0) + (if more then 0b001 else 0)

abbrev pub flags_word : Ipv4Packet → ℕ
flags_word p =
    (bit_and p.frag_offset 0x1fff + flag_bits p.dont_fragment p.more_fragments * 2 ^ 13 % 2 ^ 16)
    % 2 ^ 16

flags_word_parts :
    (p : Ipv4Packet)
    → p.frag_offset < 2 ^ 13
    → (flags_word p ≡ flag_bits p.dont_fragment p.more_fragments * 8192 + p.frag_offset)
      × (flags_word p < 32768)
flags_word_parts p h =
    (ground (arith, and_mask 13 p.frag_offset), ground (arith, and_mask 13 p.frag_offset))

-- The header with `check` in its checksum field, before the payload.
abbrev pub header_with : Ipv4Packet → ℕ → List ℕ → List ℕ
header_with p check =
    fixed p.version_ihl p.dscp_ecn (p.total_length / 256 % 256) (p.total_length % 256)
      (p.id / 256 % 256) (p.id % 256) (flags_word p / 256 % 256) (flags_word p % 256) p.ttl
      (protocol_number p.protocol) (check / 256 % 256) (check % 256) p.source.o0 p.source.o1
      p.source.o2 p.source.o3 p.dest.o0 p.dest.o1 p.dest.o2 p.dest.o3

-- The checksum that `serialize` stores.
unfoldable pub header_checksum : Ipv4Packet → ℕ
header_checksum p = internet_checksum (header_with p 0 p.options ∷ [])

pub serialize_shape :
    (p : Ipv4Packet) → serialize p ≡ header_with p (header_checksum p) (p.options ++ p.payload)
unfolding serialize header_checksum
serialize_shape p =
    rw (take_front (header_with p 0 p.options) p.payload (20 + length p.options) (omega arith))

-- A header's words sum to what they sum to with the checksum field zeroed, plus that field.
pub header_sum :
    (p : Ipv4Packet) (check : ℕ)
    → check < 2 ^ 16
    → total (header_with p check p.options ∷ []) ≡ total (header_with p 0 p.options ∷ []) + check
unfolding total word_sum
header_sum p check h = omega arith

pub header_sum_bounds :
    (p : Ipv4Packet)
    → IsPacket p
    → (0 < total (header_with p 0 p.options ∷ []))
      × (total (header_with p 0 p.options ∷ []) < 2 ^ 31)
unfolding total word_sum
header_sum_bounds p v = (
  omega arith,
  omega (
    arith,
    word_sum_bound p.options v.option_bytes,
    flags_word_parts p v.offset_small,
    protocol_number-lt p.protocol v.protocol_known,
  ),
)

header_verifies :
    (p : Ipv4Packet)
    → IsPacket p
    → internet_checksum (header_with p (header_checksum p) p.options ∷ []) ≡ 0
unfolding header_checksum
header_verifies p v =
    let bounds = header_sum_bounds p v in
    let zeroed = header_with p 0 p.options ∷ [] in
    let check = internet_checksum-IsChecksum zeroed (omega (arith, bounds)) in
    filled_accepts zeroed (header_with p (header_checksum p) p.options ∷ [])
      (header_sum p (header_checksum p) check.small) bounds.0 bounds.1

flag_table :
    (dont more : Bool)
    → (bit_and (flag_bits dont more) 0b100 ≡ 0)
      × ((bit_and (flag_bits dont more) 0b010 != 0) ≡ dont)
      × ((bit_and (flag_bits dont more) 0b001 != 0) ≡ more)
flag_table true true = (refl, refl, refl)
flag_table true false = (refl, refl, refl)
flag_table false true = (refl, refl, refl)
flag_table false false = (refl, refl, refl)

header_checksum-lt : (p : Ipv4Packet) → IsPacket p → header_checksum p < 2 ^ 16
unfolding header_checksum
header_checksum-lt p v =
    let bounds = header_sum_bounds p v in
    (internet_checksum-IsChecksum (header_with p 0 p.options ∷ []) (omega (arith, bounds))).small

-- The bytes of `p`, with any padding behind them, parse to the fields of `p`.
parsed_fields :
    (p : Ipv4Packet) (rest : List ℕ)
    → IsPacket p
    → from_packet (header_with p (header_checksum p) (p.options ++ (p.payload ++ rest)))
      ≡ ok (record p { checksum = header_checksum p })
parsed_fields p rest v =
    let flags = flags_word_parts p v.offset_small in
    let table = flag_table p.dont_fragment p.more_fragments in
    let word = u16_bytes (flags_word p) (omega (arith, flags)) in
    let high : flags_word p / 2 ^ 13 ≡ flag_bits p.dont_fragment p.more_fragments =
      omega (arith, flags) in
    let low : flags_word p % 2 ^ 13 ≡ p.frag_offset = omega (arith, flags) in
    let size = u16_bytes p.total_length v.small in
    let stored = u16_bytes (header_checksum p) (header_checksum-lt p v) in
    rw
      (from_packet_accepts _ _ _ _ _ _ _ _ _ _ _ _ _ _ _ _ _ _ _ _ p.options p.payload rest
        (rw size v.small) (omega arith) (omega arith) (rw size v.lengths) (rw (word, high) table.0)
        (header_verifies p v))
      (rw (
        word,
        high,
        table.1,
        table.2,
        size,
        protocol_from-number p.protocol v.protocol_known,
        u16_bytes p.id v.id_small,
        low,
        stored,
      ))

-- Printing a packet whose header fields are consistent and parsing the bytes gives the packet
-- back, with the checksum that was filled in. Bytes behind the packet (Ethernet padding) do not
-- change the result.
pub from_packet-serialize :
    (p : Ipv4Packet) (rest : List ℕ)
    → IsPacket p
    → from_packet (serialize p ++ rest) ≡ ok (record p { checksum = header_checksum p })
from_packet-serialize p rest v =
    rw (serialize_shape p, append_assoc p.options p.payload rest) (parsed_fields p rest v)
