-- ===== src/Net/Arp/Packet.antt =====
-- `ArpPacket` of net/src/arp.rs: its 28 bytes and its parser.
pub mod Codec
use conc_os.Common.{
  ℕ, ◌+◌, ◌*◌, ◌<◌, List, [], ◌∷◌, ◌++◌, ◌||◌, Option, none, some, Result, ok, ◌>>=◌, ◌>>◌, ok_or,
  reject_if, ltb, ◌==◌, ◌!=◌, if◌then◌else◌, length,
}
use conc_os.Common.Slices.{range, u8_from_be_slice, u16_from_be_slice, u16_to_be_bytes}
use conc_os.Net.Addr.{MacAddress, Ipv4Addr, mac_bytes, octets, mac_from_slice, addr_from_slice}

pub data ArpOperation : Type 0 where
  request reply : ArpOperation

-- `TryFrom<u16> for ArpOperation`, whose error carries nothing
unfoldable pub operation_try_from : ℕ → Option ArpOperation
operation_try_from value =
    if value == 1 then some request else if value == 2 then some reply else none

-- `operation as u16`
unfoldable pub operation_number : ArpOperation → ℕ
operation_number request = 1
operation_number reply = 2

pub data ArpError : Type 0 where
  length_out_of_range incorrect_format bad_operation : ArpError

pub record ArpPacket : Type 0 where
  pub hardware_type : ℕ
  pub protocol_type : ℕ
  pub hardware_len : ℕ
  pub proto_len : ℕ
  pub operation : ArpOperation
  pub sender_mac : MacAddress
  pub sender_addr : Ipv4Addr
  pub target_mac : MacAddress
  pub target_addr : Ipv4Addr

-- `ArpPacket::serialize`: the fields are copied to consecutive ranges of the array.
unfoldable pub serialize : ArpPacket → List ℕ
unfolding operation_number
serialize p =
    u16_to_be_bytes p.hardware_type
    ++ (u16_to_be_bytes p.protocol_type
        ++ (p.hardware_len
            ∷ p.proto_len
            ∷ (u16_to_be_bytes (operation_number p.operation)
                ++ (mac_bytes p.sender_mac
                    ++ (octets p.sender_addr
                        ++ (mac_bytes p.target_mac ++ octets p.target_addr))))))

-- `ArpPacket::from_slice`
unfoldable pub from_slice : List ℕ → Result ArpError ArpPacket
unfolding operation_try_from
from_slice packet_data = do
  reject_if (ltb (length packet_data) 28) length_out_of_range
  hardware_type ← u16_from_be_slice (← range packet_data 0 2)
  protocol_type ← u16_from_be_slice (← range packet_data 2 4)
  hardware_len ← u8_from_be_slice (← range packet_data 4 5)
  proto_len ← u8_from_be_slice (← range packet_data 5 6)
  opcode ← u16_from_be_slice (← range packet_data 6 8)
  operation ← ok_or (operation_try_from opcode) bad_operation
  reject_if
      (hardware_type != 1 || (protocol_type != 0x0800 || (hardware_len != 6 || proto_len != 4)))
      incorrect_format
  sender_mac ← mac_from_slice (← range packet_data 8 14)
  sender_addr ← addr_from_slice (← range packet_data 14 18)
  target_mac ← mac_from_slice (← range packet_data 18 24)
  target_addr ← addr_from_slice (← range packet_data 24 28)
  ok (record {
    hardware_type = hardware_type;
    protocol_type = protocol_type;
    hardware_len = hardware_len;
    proto_len = proto_len;
    operation = operation;
    sender_mac = sender_mac;
    sender_addr = sender_addr;
    target_mac = target_mac;
    target_addr = target_addr;
  })
