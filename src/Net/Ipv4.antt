-- ===== src/Net/Ipv4.antt =====
-- net/src/ipv4.rs: the IPv4 packet, its parser and its serializer.
mod Accept
pub mod RoundTrip
mod Read
pub mod Sound
use conc_os.Common.{
  ℕ, ◌+◌, ◌*◌, ◌/◌, ◌%◌, ◌^◌, List, [], ◌∷◌, ◌++◌, Bool, false, ◌||◌, bit_and, Result, ok, ◌>>=◌,
  ◌>>◌, reject_if, ltb, ◌==◌, ◌!=◌, if◌then◌else◌, length, take, set,
}
use conc_os.Common.Slices.{range, u8_from_be_slice, u16_from_be_slice, u16_to_be_bytes}
use conc_os.Net.Addr.{Ipv4Addr, addr_from_slice, octets}
use conc_os.Net.Checksum.{internet_checksum}

pub data IpProtocol : Type 0 where
  icmp tcp udp : IpProtocol
  unknown : ℕ → IpProtocol

-- `From<u8> for IPProtocol`
unfoldable pub protocol_from : ℕ → IpProtocol
protocol_from value =
    if value == 1
    then icmp
    else if value == 6
    then tcp
    else if value == 17
    then udp
    else unknown value

-- `From<IPProtocol> for u8`
unfoldable pub protocol_number : IpProtocol → ℕ
protocol_number icmp = 1
protocol_number tcp = 6
protocol_number udp = 17
protocol_number (unknown proto) = proto

pub data Ipv4Error : Type 0 where
  version_mismatch length_out_of_range ihl_mismatch header_length_mismatch : Ipv4Error
  total_length_mismatch evil_bit_set incorrect_checksum : Ipv4Error

pub record Ipv4Packet : Type 0 where
  pub version_ihl : ℕ
  pub dscp_ecn : ℕ
  pub total_length : ℕ
  pub id : ℕ
  pub frag_offset : ℕ
  pub dont_fragment : Bool
  pub more_fragments : Bool
  pub ttl : ℕ
  pub protocol : IpProtocol
  pub checksum : ℕ
  pub source : Ipv4Addr
  pub dest : Ipv4Addr
  pub options : List ℕ
  pub payload : List ℕ

-- `Ipv4Packet::new`
unfoldable pub new : List ℕ → Ipv4Addr → Ipv4Addr → ℕ → IpProtocol → Result Ipv4Error Ipv4Packet
new payload source dest id protocol = do
  reject_if (ltb 65535 (length payload + 20)) length_out_of_range
  ok (record {
    version_ihl = 0x45;
    dscp_ecn = 0;
    total_length = length payload + 20;
    id = id;
    frag_offset = 0;
    dont_fragment = false;
    more_fragments = false;
    ttl = 64;
    protocol = protocol;
    checksum = 0;
    source = source;
    dest = dest;
    options = [];
    payload = payload;
  })

-- `Ipv4Packet::from_packet` past the checks on the lengths: `packet` is already cut to
-- `total_length`.
unfoldable pub read_fields : ℕ → ℕ → ℕ → ℕ → List ℕ → Result Ipv4Error Ipv4Packet
unfolding protocol_from
read_fields version_ihl dscp_ecn total_length header_len packet = do
  id ← u16_from_be_slice (← range packet 4 6)
  flags_frag_offset ← u16_from_be_slice (← range packet 6 8)
  let flags = flags_frag_offset / 2 ^ 13
  reject_if (bit_and flags 0b100 != 0) evil_bit_set
  ttl ← u8_from_be_slice (← range packet 8 9)
  protocol ← u8_from_be_slice (← range packet 9 10)
  checksum ← u16_from_be_slice (← range packet 10 12)
  header ← range packet 0 header_len
  reject_if (internet_checksum (header ∷ []) != 0) incorrect_checksum
  source ← addr_from_slice (← range packet 12 16)
  dest ← addr_from_slice (← range packet 16 20)
  options ← range packet 20 header_len
  payload ← range packet header_len (length packet)
  ok (record {
    version_ihl = version_ihl;
    dscp_ecn = dscp_ecn;
    total_length = total_length % 2 ^ 16;
    id = id;
    frag_offset = bit_and flags_frag_offset 0x1fff;
    dont_fragment = bit_and flags 0b010 != 0;
    more_fragments = bit_and flags 0b001 != 0;
    ttl = ttl;
    protocol = protocol_from protocol;
    checksum = checksum;
    source = source;
    dest = dest;
    options = options;
    payload = payload;
  })

-- `Ipv4Packet::from_packet`
unfoldable pub from_packet : List ℕ → Result Ipv4Error Ipv4Packet
from_packet packet = do
  reject_if (ltb (length packet) 20) length_out_of_range
  version_ihl ← u8_from_be_slice (← range packet 0 1)
  reject_if (bit_and (version_ihl / 2 ^ 4) 0xf != 4) version_mismatch
  let ihl = bit_and version_ihl 0xf
  reject_if (ltb ihl 5) ihl_mismatch
  let header_len = ihl * 4 % 2 ^ 8
  reject_if (ltb (length packet) header_len) header_length_mismatch
  dscp_ecn ← u8_from_be_slice (← range packet 1 2)
  total_length ← u16_from_be_slice (← range packet 2 4)
  reject_if (ltb (length packet) total_length || ltb total_length header_len) total_length_mismatch
  read_fields version_ihl dscp_ecn total_length header_len (← range packet 0 total_length)

-- The vector that `serialize` builds before it fills in the checksum.
unfoldable pub unchecked : Ipv4Packet → List ℕ
unfolding protocol_number
unchecked p =
    let flags = (if p.dont_fragment then 0b010 else 0) + (if p.more_fragments then 0b001 else 0) in
    let flags_frag_offset = (bit_and p.frag_offset 0x1fff + flags * 2 ^ 13 % 2 ^ 16) % 2 ^ 16 in
    (p.version_ihl ∷ p.dscp_ecn ∷ [])
    ++ (u16_to_be_bytes p.total_length
        ++ (u16_to_be_bytes p.id
            ++ (u16_to_be_bytes flags_frag_offset
                ++ ((p.ttl ∷ protocol_number p.protocol ∷ 0 ∷ 0 ∷ [])
                    ++ (octets p.source ++ (octets p.dest ++ (p.options ++ p.payload)))))))

-- `Ipv4Packet::serialize`
unfoldable pub serialize : Ipv4Packet → List ℕ
unfolding unchecked
serialize p =
    let result = unchecked p in
    let checksum = internet_checksum (take (20 + length p.options) result ∷ []) in
    set (set result 10 (checksum / 256 % 256)) 11 (checksum % 256)
