-- ===== src/Net/Arp/Packet/Codec.antt =====
-- Printing and parsing ARP packets.
use conc_os.Common.{
  ℕ, ◌+◌, ◌*◌, ◌<◌, ◌≡◌, inl, inr, List, ◌∷◌, ◌++◌, Bool, ◌||◌, arith, Result, ok, err, ◌>>=◌, ◌>>◌,
  reject_if, ◌!=◌, length, le→ltb, lt→ltb, Bool-cases, ◌∙◌, sym, Option-cases, some, ok_or, subst,
}
use conc_os.Common.Slices.{bytes_u16, IsBytes}
use conc_os.Net.Addr.{Ipv4Addr, MacAddress}
use conc_os.Net.Arp.Packet.{
  ArpPacket, ArpOperation, ArpError, request, reply, length_out_of_range, incorrect_format,
  bad_operation, from_slice, serialize, operation_try_from, operation_number,
}

-- The packets that the parser lets through: Ethernet addresses for IPv4 addresses.
pub record IsEthernetIpv4 (p : ArpPacket) : Type 0 where
  pub hardware : p.hardware_type ≡ 1
  pub protocol : p.protocol_type ≡ 0x0800
  pub hardware_size : p.hardware_len ≡ 6
  pub proto_size : p.proto_len ≡ 4

abbrev canonical : ArpOperation → MacAddress → Ipv4Addr → MacAddress → Ipv4Addr → ArpPacket
canonical op sender_mac sender_addr target_mac target_addr = record {
  hardware_type = 1;
  protocol_type = 0x0800;
  hardware_len = 6;
  proto_len = 4;
  operation = op;
  sender_mac = sender_mac;
  sender_addr = sender_addr;
  target_mac = target_mac;
  target_addr = target_addr;
}

canonical_parses :
    (op : ArpOperation) (sm : MacAddress) (sa : Ipv4Addr) (tm : MacAddress) (ta : Ipv4Addr)
    (rest : List ℕ)
    → from_slice (serialize (canonical op sm sa tm ta) ++ rest) ≡ ok (canonical op sm sa tm ta)
unfolding from_slice serialize
canonical_parses request sm sa tm ta rest =
    rw (le→ltb (length (serialize (canonical request sm sa tm ta) ++ rest)) 28 (omega arith))
canonical_parses reply sm sa tm ta rest =
    rw (le→ltb (length (serialize (canonical reply sm sa tm ta) ++ rest)) 28 (omega arith))

canonical_of :
    (p : ArpPacket)
    → IsEthernetIpv4 p
    → p ≡ canonical p.operation p.sender_mac p.sender_addr p.target_mac p.target_addr
canonical_of p v = ground arith

-- An ARP packet for Ethernet and IPv4 parses back from its 28 bytes, whatever padding follows.
pub from_slice-serialize :
    (p : ArpPacket) (rest : List ℕ) → IsEthernetIpv4 p → from_slice (serialize p ++ rest) ≡ ok p
from_slice-serialize p rest v =
    subst (λ (q : ArpPacket). from_slice (serialize q ++ rest) ≡ ok q) (sym (canonical_of p v))
      (canonical_parses p.operation p.sender_mac p.sender_addr p.target_mac p.target_addr rest)

-- The result of a parse: an error, or a packet for Ethernet and IPv4 whose bytes are the first 28.
pub data Parse (bytes : List ℕ) (r : Result ArpError ArpPacket) : Type 0 where
  rejected : (e : ArpError) → r ≡ err e → Parse bytes r
  accepted :
      (p : ArpPacket) (rest : List ℕ)
      → r ≡ ok p
      → IsEthernetIpv4 p
      → bytes ≡ serialize p ++ rest
      → Parse bytes r

-- The four fields that are not free, and the operation, as read from the first eight bytes.
module _ (b0 b1 b2 b3 b4 b5 b6 b7 : ℕ) (sm : MacAddress) (sa : Ipv4Addr) (tm : MacAddress)
    (ta : Ipv4Addr) (rest : List ℕ) where
  abbrev bytes : List ℕ
  bytes =
      b0 ∷ b1 ∷ b2 ∷ b3 ∷ b4 ∷ b5 ∷ b6 ∷ b7 ∷ sm.a0 ∷ sm.a1 ∷ sm.a2 ∷ sm.a3 ∷ sm.a4 ∷ sm.a5 ∷ sa.o0
      ∷ sa.o1 ∷ sa.o2 ∷ sa.o3 ∷ tm.a0 ∷ tm.a1 ∷ tm.a2 ∷ tm.a3 ∷ tm.a4 ∷ tm.a5 ∷ ta.o0 ∷ ta.o1
      ∷ ta.o2 ∷ ta.o3 ∷ rest

  abbrev wrong_format : Bool
  wrong_format = b0 * 256 + b1 != 1 || (b2 * 256 + b3 != 0x0800 || (b4 != 6 || b5 != 4))

  abbrev read : ArpOperation → ArpPacket
  read op = record {
    hardware_type = b0 * 256 + b1;
    protocol_type = b2 * 256 + b3;
    hardware_len = b4;
    proto_len = b5;
    operation = op;
    sender_mac = sm;
    sender_addr = sa;
    target_mac = tm;
    target_addr = ta;
  }

  from_slice_tests : from_slice bytes ≡ (
      ok_or (operation_try_from (b6 * 256 + b7)) bad_operation >>= λ op.
      reject_if wrong_format incorrect_format >> ok (read op))
  unfolding from_slice
  from_slice_tests = rw (le→ltb (length bytes) 28 (omega arith))

  read_shape :
      (op : ArpOperation)
      → b0 < 256
      → b1 < 256
      → b2 < 256
      → b3 < 256
      → b6 < 256
      → b7 < 256
      → operation_try_from (b6 * 256 + b7) ≡ some op
      → bytes ≡ serialize (read op) ++ rest
  unfolding serialize operation_try_from
  read_shape op h0 h1 h2 h3 h6 h7 e =
      let number : operation_number op ≡ b6 * 256 + b7 = unfold operation_number in ground arith in
      let word0 = bytes_u16 b0 b1 h0 h1 in
      let word2 = bytes_u16 b2 b3 h2 h3 in
      let word6 = bytes_u16 b6 b7 h6 h7 in
      rw (number, word0.0, word0.1, word2.0, word2.1, word6.0, word6.1)

  opened-Parse : IsBytes bytes → Parse bytes (from_slice bytes)
  opened-Parse v = elim (Option-cases (operation_try_from (b6 * 256 + b7))) [
    | inl e ↦ rejected bad_operation (from_slice_tests ∙ rw e)
    | inr (op, e) ↦ elim (Bool-cases wrong_format) [
      | inl w ↦ rejected incorrect_format (from_slice_tests ∙ rw (e, w))
      | inr w ↦
          accepted (read op) rest (from_slice_tests ∙ rw (e, w))
            (record {
              hardware = ground arith;
              protocol = ground arith;
              hardware_size = ground arith;
              proto_size = ground arith;
            })
            (read_shape op (omega arith) (omega arith) (omega arith) (omega arith) (omega arith)
              (omega arith) e)
    ]
  ]

from_slice_short : (xs : List ℕ) → length xs < 28 → from_slice xs ≡ err length_out_of_range
unfolding from_slice
from_slice_short xs h = rw (lt→ltb (length xs) 28 h)

-- On any byte string the ARP parser gives an error, or a packet for Ethernet and IPv4 whose 28
-- bytes stand at the front of the string. It never panics.
pub from_slice_sound : (xs : List ℕ) → IsBytes xs → Parse xs (from_slice xs)
from_slice_sound
      (b0 ∷ b1 ∷ b2 ∷ b3 ∷ b4 ∷ b5 ∷ b6 ∷ b7 ∷ b8 ∷ b9 ∷ b10 ∷ b11 ∷ b12 ∷ b13 ∷ b14 ∷ b15 ∷ b16
        ∷ b17 ∷ b18 ∷ b19 ∷ b20 ∷ b21 ∷ b22 ∷ b23 ∷ b24 ∷ b25 ∷ b26 ∷ b27 ∷ rest)
      v =
    opened-Parse b0 b1 b2 b3 b4 b5 b6 b7
      (record { a0 = b8; a1 = b9; a2 = b10; a3 = b11; a4 = b12; a5 = b13 })
      (record { o0 = b14; o1 = b15; o2 = b16; o3 = b17 })
      (record { a0 = b18; a1 = b19; a2 = b20; a3 = b21; a4 = b22; a5 = b23 })
      (record { o0 = b24; o1 = b25; o2 = b26; o3 = b27 }) rest v
from_slice_sound xs v = rejected length_out_of_range (from_slice_short xs (omega arith))
