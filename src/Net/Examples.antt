-- ===== src/Net/Examples.antt =====
-- The packets of the crate's own tests, as concrete inputs of the models and of the theorems.
use conc_os.Common.{
  ℕ, ◌≡◌, ◌≢◌, ◌<◌, ◌%◌, ◌^◌, ◌↔◌, refl, List, [], ◌∷◌, ◌++◌, true, false, some, ok, err, length,
  arith, All,
}
use conc_os.Common.Slices.{IsBytes}
use conc_os.Net.Addr.{MacAddress, Ipv4Addr, IsAddr}
use conc_os.Net.Checksum.{internet_checksum}
use conc_os.Net.Checksum.Verify.{
  total, IsChecksum, internet_checksum-IsChecksum, internet_checksum_accepts,
}
use conc_os.Net.Ipv4
use conc_os.Net.Ipv4.{Ipv4Packet, Ipv4Error}
use conc_os.Net.Ipv4.RoundTrip.{IsPacket, header_checksum, from_packet-serialize}
use conc_os.Net.Ipv4.Sound.{from_packet_sound, serialize-from_packet}
use conc_os.Net.Ipv4.Sound
use conc_os.Net.Udp
use conc_os.Net.Udp.{UdpPacket}
use conc_os.Net.Udp.Datagram
use conc_os.Net.Udp.Datagram.{
  IsDatagram, from_packet-serialize_ipv4, serialize_ipv4_total, datagram_sound,
}
use conc_os.Net.Arp.Packet
use conc_os.Net.Arp.Packet.{ArpPacket}
use conc_os.Net.Arp.Packet.Codec
use conc_os.Net.Arp.Packet.Codec.{IsEthernetIpv4, from_slice-serialize, from_slice_sound}
use conc_os.Net.Ethernet
use conc_os.Net.Ethernet.Dispatch
use conc_os.Net.Ethernet.Dispatch.{new_sound}
use conc_os.Net.Dhcp
use conc_os.Net.Dhcp.Options
use conc_os.Net.Dhcp.Options.{parse_options_sound}
use conc_os.Net.Dhcp.Settings
use conc_os.Net.Dhcp.Settings.{
  Setting, padding, mask, routers, server, kind, other, IsSetting, Malformed, write_settings,
}
use conc_os.Net.Dhcp.Settings.Reading.{parse_options-write}
use conc_os.Net.Arp.Cache
use conc_os.Net.Arp.Cache.{inserts, queues, removes}
use conc_os.Net.Arp.Cache.History.{Agrees, record_run, record_run-Agrees}
use conc_os.Common.{◌≤◌}
use conc_os.Common.{◌⊎◌}

abbrev source : Ipv4Addr
source = record { o0 = 192; o1 = 168; o2 = 1; o3 = 1 }

abbrev dest : Ipv4Addr
dest = record { o0 = 10; o1 = 0; o2 = 0; o3 = 1 }

-- `get_valid_packet` of net/src/ipv4.rs, and the packet that it holds.
abbrev valid_packet : List ℕ
valid_packet =
    0x45 ∷ 0x00 ∷ 0x00 ∷ 0x18 ∷ 0x12 ∷ 0x34 ∷ 0x40 ∷ 0x00 ∷ 0x40 ∷ 0x11 ∷ 0x5c ∷ 0xf7 ∷ 0xc0 ∷ 0xa8
    ∷ 0x01 ∷ 0x01 ∷ 0x0a ∷ 0x00 ∷ 0x00 ∷ 0x01 ∷ 0xde ∷ 0xad ∷ 0xbe ∷ 0xef ∷ []

abbrev packet : Ipv4Packet
packet = record {
  version_ihl = 0x45;
  dscp_ecn = 0;
  total_length = 24;
  id = 0x1234;
  frag_offset = 0;
  dont_fragment = true;
  more_fragments = false;
  ttl = 64;
  protocol = Ipv4.udp;
  checksum = 0x5cf7;
  source = source;
  dest = dest;
  options = [];
  payload = 0xde ∷ 0xad ∷ 0xbe ∷ 0xef ∷ [];
}

source-IsAddr : IsAddr source
source-IsAddr = record { b0 = omega arith; b1 = omega arith; b2 = omega arith; b3 = omega arith }

dest-IsAddr : IsAddr dest
dest-IsAddr = record { b0 = omega arith; b1 = omega arith; b2 = omega arith; b3 = omega arith }

packet-IsPacket : IsPacket packet
packet-IsPacket = record {
  version = omega arith;
  words = refl;
  dscp = omega arith;
  lengths = refl;
  small = omega arith;
  id_small = omega arith;
  offset_small = omega arith;
  ttl_small = omega arith;
  protocol_known = tt;
  source_bytes = source-IsAddr;
  dest_bytes = dest-IsAddr;
  option_bytes = tt;
}

valid_packet-IsBytes : IsBytes valid_packet
valid_packet-IsBytes = ground arith

valid_packet_parses : Ipv4.from_packet valid_packet ≡ ok packet
unfolding Ipv4.from_packet Ipv4.read_fields internet_checksum
valid_packet_parses = refl

packet_prints : Ipv4.serialize packet ≡ valid_packet
unfolding Ipv4.serialize internet_checksum
packet_prints = refl

parts_fit : total (valid_packet ∷ []) < 2 ^ 32
unfolding total
parts_fit = omega arith

internet_checksum-IsChecksum_example :
    IsChecksum (total (valid_packet ∷ [])) (internet_checksum (valid_packet ∷ []))
internet_checksum-IsChecksum_example = internet_checksum-IsChecksum (valid_packet ∷ []) parts_fit

internet_checksum_accepts_example :
    (internet_checksum (valid_packet ∷ []) ≡ 0)
    ↔ ((total (valid_packet ∷ []) % 65535 ≡ 0) × (0 < total (valid_packet ∷ [])))
internet_checksum_accepts_example = internet_checksum_accepts (valid_packet ∷ []) parts_fit

from_packet-serialize_example :
    Ipv4.from_packet (Ipv4.serialize packet ++ (0 ∷ 0 ∷ []))
    ≡ ok (record packet { checksum = header_checksum packet })
from_packet-serialize_example = from_packet-serialize packet (0 ∷ 0 ∷ []) packet-IsPacket

from_packet_sound_example : Sound.Parse valid_packet (Ipv4.from_packet valid_packet)
from_packet_sound_example = from_packet_sound valid_packet valid_packet-IsBytes

serialize-from_packet_example :
    IsPacket packet × (rest : List ℕ) × (valid_packet ≡ Ipv4.serialize packet ++ rest)
serialize-from_packet_example =
    serialize-from_packet valid_packet packet valid_packet-IsBytes valid_packet_parses
      (λ e. omega (arith, e))

-- The datagram of net/src/udp.rs, inside an IPv4 packet.
abbrev datagram : UdpPacket
datagram = record {
  source_port = 0x1234;
  dest_port = 0x5678;
  datagram_length = 12;
  checksum = 0;
  payload = 0xde ∷ 0xad ∷ 0xbe ∷ 0xef ∷ [];
}

abbrev carrier : Ipv4Packet
carrier = record packet {
  total_length = 32;
  payload = 0x12 ∷ 0x34 ∷ 0x56 ∷ 0x78 ∷ 0x00 ∷ 0x0c ∷ 0x2d ∷ 0xe2 ∷ 0xde ∷ 0xad ∷ 0xbe ∷ 0xef ∷ [];
}

datagram-IsDatagram : IsDatagram datagram
datagram-IsDatagram = record {
  source_small = omega arith;
  dest_small = omega arith;
  room = omega arith;
  payload_bytes = ground arith;
}

datagram_prints : Udp.serialize_ipv4 datagram source dest ≡ ok carrier.payload
unfolding Udp.serialize_ipv4 internet_checksum
datagram_prints = refl

from_packet-serialize_ipv4_example :
    (check : ℕ) × (Udp.from_packet carrier
      ≡ ok (record datagram { datagram_length = 12; checksum = check }))
    × (check ≢ 0)
from_packet-serialize_ipv4_example =
    from_packet-serialize_ipv4 datagram carrier datagram-IsDatagram source-IsAddr dest-IsAddr
      (omega arith) datagram_prints

datagram_sound_example : Datagram.Parse carrier (Udp.from_packet carrier)
datagram_sound_example = datagram_sound carrier

serialize_ipv4_total_example :
    ((4 ≤ Udp.max_udp_payload)
      × (bytes : List ℕ) × (Udp.serialize_ipv4 datagram source dest ≡ ok bytes)
      × (length bytes ≡ 12))
    ⊎ ((Udp.max_udp_payload < 4)
        × (Udp.serialize_ipv4 datagram source dest ≡ err Udp.length_out_of_range))
serialize_ipv4_total_example = serialize_ipv4_total datagram source dest

-- An ARP request, with Ethernet padding behind it.
abbrev sender : MacAddress
sender = record { a0 = 0x52; a1 = 0x54; a2 = 0; a3 = 0x12; a4 = 0x34; a5 = 0x56 }

abbrev arp_request : ArpPacket
arp_request = record {
  hardware_type = 1;
  protocol_type = 0x0800;
  hardware_len = 6;
  proto_len = 4;
  operation = Packet.request;
  sender_mac = sender;
  sender_addr = source;
  target_mac = record { a0 = 0; a1 = 0; a2 = 0; a3 = 0; a4 = 0; a5 = 0 };
  target_addr = dest;
}

abbrev arp_bytes : List ℕ
arp_bytes =
    0 ∷ 1 ∷ 8 ∷ 0 ∷ 6 ∷ 4 ∷ 0 ∷ 1 ∷ 0x52 ∷ 0x54 ∷ 0 ∷ 0x12 ∷ 0x34 ∷ 0x56 ∷ 192 ∷ 168 ∷ 1 ∷ 1 ∷ 0 ∷ 0
    ∷ 0 ∷ 0 ∷ 0 ∷ 0 ∷ 10 ∷ 0 ∷ 0 ∷ 1 ∷ []

arp_request_prints : Packet.serialize arp_request ≡ arp_bytes
unfolding Packet.serialize
arp_request_prints = refl

arp_request-IsEthernetIpv4 : IsEthernetIpv4 arp_request
arp_request-IsEthernetIpv4 = record {
  hardware = refl;
  protocol = refl;
  hardware_size = refl;
  proto_size = refl;
}

from_slice-serialize_example :
    Packet.from_slice (Packet.serialize arp_request ++ (0 ∷ 0 ∷ [])) ≡ ok arp_request
from_slice-serialize_example =
    from_slice-serialize arp_request (0 ∷ 0 ∷ []) arp_request-IsEthernetIpv4

arp_bytes-IsBytes : IsBytes arp_bytes
arp_bytes-IsBytes = ground arith

from_slice_sound_example : Codec.Parse arp_bytes (Packet.from_slice arp_bytes)
from_slice_sound_example = from_slice_sound arp_bytes arp_bytes-IsBytes

-- The request as a broadcast frame.
abbrev frame : List ℕ
frame =
    255 ∷ 255 ∷ 255 ∷ 255 ∷ 255 ∷ 255 ∷ 0x52 ∷ 0x54 ∷ 0 ∷ 0x12 ∷ 0x34 ∷ 0x56 ∷ 0x08 ∷ 0x06
    ∷ arp_bytes

frame-IsBytes : IsBytes frame
frame-IsBytes = ground arith

frame_parses : Ethernet.new frame ≡ ok (Ethernet.arp arp_request)
unfolding Ethernet.new Packet.from_slice
frame_parses = refl

new_sound_example : Dispatch.Outcome frame (Ethernet.new frame)
new_sound_example = new_sound frame frame-IsBytes

-- Two frames wait on an address, which is then resolved.
abbrev calls : List Cache.Call
calls = queues dest (1 ∷ []) ∷ queues dest (2 ∷ []) ∷ inserts dest sender ∷ removes source ∷ []

record_run-Agrees_example : let (c, past) = record_run Cache.new [] calls in Agrees c past
record_run-Agrees_example = record_run-Agrees calls

-- The options of an offer, with one that is not read here.
abbrev offer_settings : List Setting
offer_settings =
    kind Dhcp.offer
    ∷ mask (record { o0 = 255; o1 = 255; o2 = 255; o3 = 0 })
    ∷ padding
    ∷ routers dest []
    ∷ other 51 (0 ∷ 0 ∷ 1 ∷ 44 ∷ [])
    ∷ server source
    ∷ []

offer_settings-IsSetting : All IsSetting offer_settings
offer_settings-IsSetting = ground arith

parse_options-write_example :
    (Dhcp.parse_options (write_settings offer_settings ++ (255 ∷ 7 ∷ []))
      ≡ ok (record {
        message_type = some Dhcp.offer;
        subnet_mask = some (record { o0 = 255; o1 = 255; o2 = 255; o3 = 0 });
        router = some dest;
        server_id = some source;
      }))
    × ((tag : ℕ) (value : List ℕ)
        → Malformed tag value
        → Dhcp.parse_options (write_settings offer_settings ++ (Settings.tlv tag value ++ (7 ∷ [])))
          ≡ err Dhcp.invalid_tlv)
parse_options-write_example = parse_options-write offer_settings (7 ∷ []) offer_settings-IsSetting

parse_options_sound_example :
    Options.Parse (1 ∷ 4 ∷ 255 ∷ []) Dhcp.no_options (Dhcp.parse_options (1 ∷ 4 ∷ 255 ∷ []))
parse_options_sound_example = parse_options_sound (1 ∷ 4 ∷ 255 ∷ [])
