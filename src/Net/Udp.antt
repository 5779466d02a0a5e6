-- ===== src/Net/Udp.antt =====
-- net/src/udp.rs: UDP datagrams inside IPv4 packets.
pub mod Datagram
use conc_os.Common.{
  ℕ, ◌+◌, ◌%◌, ◌^◌, ◌/◌, List, [], ◌∷◌, ◌++◌, ◌||◌, ◌&&◌, Result, ok, ◌>>=◌, ◌>>◌, reject_if, ltb,
  ◌==◌, ◌!=◌, if◌then◌else◌, length,
}
use conc_os.Common.Slices.{range, u16_from_be_slice, u16_to_be_bytes}
use conc_os.Net.Addr.{Ipv4Addr, octets}
use conc_os.Net.Checksum.{internet_checksum}
use conc_os.Net.Ipv4.{Ipv4Packet}

abbrev pub max_udp_payload : ℕ
max_udp_payload = 65527

pub data UdpError : Type 0 where
  length_out_of_range length_mismatch incorrect_checksum : UdpError

pub record UdpPacket : Type 0 where
  pub source_port : ℕ
  pub dest_port : ℕ
  pub datagram_length : ℕ
  pub checksum : ℕ
  pub payload : List ℕ

-- `UDPPacket::new`
unfoldable pub new : ℕ → ℕ → List ℕ → Result UdpError UdpPacket
new source_port dest_port payload = do
  reject_if (ltb 65535 (length payload + 8)) length_out_of_range
  ok (record {
    source_port = source_port;
    dest_port = dest_port;
    datagram_length = length payload + 8;
    checksum = 0;
    payload = payload;
  })

-- The parts that the checksum covers: the pseudo header, then `body`.
abbrev pub covered : Ipv4Addr → Ipv4Addr → ℕ → List (List ℕ) → List (List ℕ)
covered source dest datagram_len body =
    octets source ∷ octets dest ∷ (0x0 ∷ 0x11 ∷ []) ∷ u16_to_be_bytes datagram_len ∷ body

-- `UDPPacket::from_packet`
unfoldable pub from_packet : Ipv4Packet → Result UdpError UdpPacket
from_packet ip_packet = do
  reject_if
      (ltb ip_packet.total_length 28
        || (ltb (length ip_packet.payload) 8 || ltb 65535 (length ip_packet.payload)))
      length_out_of_range
  source_port ← u16_from_be_slice (← range ip_packet.payload 0 2)
  dest_port ← u16_from_be_slice (← range ip_packet.payload 2 4)
  datagram_len ← u16_from_be_slice (← range ip_packet.payload 4 6)
  reject_if (datagram_len != length ip_packet.payload % 2 ^ 16) length_mismatch
  checksum ← u16_from_be_slice (← range ip_packet.payload 6 8)
  reject_if
      (internet_checksum
            (covered ip_packet.source ip_packet.dest datagram_len (ip_packet.payload ∷ []))
          != 0
        && checksum != 0)
      incorrect_checksum
  payload ← range ip_packet.payload 8 (length ip_packet.payload)
  ok (record {
    source_port = source_port;
    dest_port = dest_port;
    datagram_length = datagram_len;
    checksum = checksum;
    payload = payload;
  })

-- The first six bytes of a datagram, which stand before its checksum.
abbrev pub ports_and_length : UdpPacket → ℕ → List ℕ
ports_and_length q total_datagram_len =
    u16_to_be_bytes q.source_port
    ++ (u16_to_be_bytes q.dest_port ++ u16_to_be_bytes total_datagram_len)

-- `UDPPacket::serialize_ipv4`
unfoldable pub serialize_ipv4 : UdpPacket → Ipv4Addr → Ipv4Addr → Result UdpError (List ℕ)
serialize_ipv4 q source_addr dest_addr = do
  reject_if (ltb 65535 (length q.payload)) length_out_of_range
  reject_if (ltb max_udp_payload (length q.payload)) length_out_of_range
  let total_datagram_len = (8 + length q.payload) % 2 ^ 16
  let result = ports_and_length q total_datagram_len
  let computed =
      internet_checksum (covered source_addr dest_addr total_datagram_len (result ∷ q.payload ∷ []))
  let checksum = if computed == 0x0000 then 0xffff else computed
  ok (result ++ (u16_to_be_bytes checksum ++ q.payload))
