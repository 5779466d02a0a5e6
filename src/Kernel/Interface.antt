-- ===== src/Kernel/Interface.antt =====
-- kernel/src/network/handler.rs: `NetworkInterface`, its handlers and what they send. Its messages
-- on the screen are left out.
pub mod Sending
pub mod Traffic
pub mod Echo
pub mod Configure
pub mod Exchange
pub mod Receive
pub mod Resolve
use conc_os.Common.{
  ℕ, ◌+◌, ◌*◌, ◌/◌, ◌%◌, ◌^◌, List, [], ◌∷◌, ◌++◌, Bool, true, false, not, ◌&&◌, ◌||◌, Option, none,
  some, Result, ok, err, panic, ◌==◌, ◌!=◌, if◌then◌else◌, length, bit_and, set,
}
use conc_os.Net.Addr.{
  MacAddress, Ipv4Addr, mac_eq, addr_eq, broadcast, zero_mac, broadcast_addr, unspecified,
}
use conc_os.Net.Checksum.{internet_checksum}
use conc_os.Net.Ipv4
use conc_os.Net.Ipv4.{Ipv4Packet, Ipv4Error, IpProtocol}
use conc_os.Net.Udp
use conc_os.Net.Udp.{UdpPacket, UdpError}
use conc_os.Net.Arp.Packet
use conc_os.Net.Arp.Packet.{ArpPacket, ArpOperation, operation_number}
use conc_os.Net.Arp.Cache
use conc_os.Net.Arp.Cache.{Queued, request_needed, already_pending, dropped}
use conc_os.Net.Ethernet
use conc_os.Net.Ethernet.{EthernetFrame, ipv4_type, arp_type}
use conc_os.Net.Dhcp
use conc_os.Net.Dhcp.{DhcpBinding}
use conc_os.Kernel.Host.{
  DhcpState, idle, selecting, requesting, exchange_id, NetworkInterface, Env, Host, M, ◌>>=◌, ◌>>◌,
  return, done, crash, self, set_arp, set_dhcp, at, write, send_frame, from_rand,
}

-- The error of the random number device is not told apart further.
pub data DhcpError : Type 0 where
  rng_error already_started : DhcpError
  udp_error : UdpError → DhcpError
  ipv4_error : Ipv4Error → DhcpError

-- `u32::from` and `Ipv4Addr::from`
abbrev pub addr_number : Ipv4Addr → ℕ
addr_number a = ((a.o0 * 256 + a.o1) * 256 + a.o2) * 256 + a.o3

abbrev pub addr_from_number : ℕ → Ipv4Addr
addr_from_number n = record {
  o0 = n / 2 ^ 24 % 256;
  o1 = n / 2 ^ 16 % 256;
  o2 = n / 2 ^ 8 % 256;
  o3 = n % 256;
}

abbrev pub network : Ipv4Addr → Ipv4Addr → Ipv4Addr
network addr mask = addr_from_number (bit_and (addr_number addr) (addr_number mask))

-- The next hop that `send_ipv4` chooses; `none` where it returns.
abbrev hop_from : Option Ipv4Addr → Option Ipv4Addr → Option Ipv4Addr → Ipv4Addr → Option Ipv4Addr
hop_from (some my_ip) (some mask) gateway dst =
    if addr_eq (network dst mask) (network my_ip mask) then some dst else gateway
hop_from _ _ gateway dst = none

unfoldable pub next_hop : NetworkInterface → Ipv4Addr → Option Ipv4Addr
next_hop i dst = hop_from i.ipv4 i.subnet_mask i.gateway dst

-- An ARP packet for Ethernet and IPv4.
abbrev pub arp_message : ArpOperation → MacAddress → Ipv4Addr → MacAddress → Ipv4Addr → ArpPacket
arp_message operation sender_mac sender_addr target_mac target_addr = record {
  hardware_type = 1;
  protocol_type = 0x0800;
  hardware_len = 6;
  proto_len = 4;
  operation = operation;
  sender_mac = sender_mac;
  sender_addr = sender_addr;
  target_mac = target_mac;
  target_addr = target_addr;
}

-- `self.ipv4.is_some_and(|addr| other == addr)`
abbrev pub is_own : Option Ipv4Addr → Ipv4Addr → Bool
is_own none other = false
is_own (some addr) other = addr_eq other addr

abbrev is_request : ArpOperation → Bool
is_request Packet.request = true
is_request Packet.reply = false

abbrev is_none : {A : Type 0} → Option A → Bool
is_none none = true
is_none (some _) = false

-- `read_reply`; a panic of the parser is one of the caller.
abbrev pub read_reply : Result Dhcp.DhcpError DhcpBinding → M (Option DhcpBinding)
read_reply (ok binding) = return (some binding)
read_reply (err e) = return none
read_reply panic = crash

-- The tests of `handle_ipv4` on a packet: `for_us`, and whether it is a fragment.
unfoldable pub for_us : NetworkInterface → Ipv4Addr → Bool
for_us i dest =
    addr_eq dest broadcast_addr
    || (is_own i.ipv4 dest || (is_none i.ipv4 && not (is_none (exchange_id i.dhcp))))

abbrev pub is_fragment : Ipv4Packet → Bool
is_fragment p = p.more_fragments || p.frag_offset != 0

module _ (env : Env) where
  abbrev send_request_from : MacAddress → Option Ipv4Addr → Ipv4Addr → M (Unit {0})
  unfolding send_frame Packet.serialize
  send_request_from mac none target = crash
  send_request_from mac (some ip) target =
      send_frame env broadcast arp_type
        (Packet.serialize (arp_message Packet.request mac ip zero_mac target))

  -- `NetworkInterface::send_arp_request`
  unfoldable pub send_arp_request : Ipv4Addr → M (Unit {0})
  unfolding send_request_from
  send_arp_request target = do i ← self; send_request_from i.mac i.ipv4 target

  -- The end of `send_ipv4`, by what the cache says of the next hop.
  abbrev after_queue : Ipv4Addr → Queued → M (Unit {0})
  unfolding send_arp_request
  after_queue hop request_needed = send_arp_request hop
  after_queue hop already_pending = done
  after_queue hop dropped = done

  unfoldable pub resolve : Option MacAddress → Ipv4Addr → List ℕ → M (Unit {0})
  unfolding send_frame Cache.queue_pending after_queue
  resolve (some mac) hop frame = send_frame env mac ipv4_type frame
  resolve none hop frame = do
    i ← self
    set_arp (Cache.queue_pending i.arp hop frame).0
    after_queue hop (Cache.queue_pending i.arp hop frame).1

  unfoldable pub send_via : Option Ipv4Addr → List ℕ → M (Unit {0})
  unfolding resolve Cache.lookup
  send_via none frame = done
  send_via (some hop) frame = do i ← self; resolve (Cache.lookup i.arp hop) hop frame

  -- `NetworkInterface::send_ipv4`
  unfoldable pub send_ipv4 : Ipv4Addr → Ipv4Packet → M (Unit {0})
  unfolding send_via next_hop Ipv4.serialize
  send_ipv4 dst packet = do i ← self; send_via (next_hop i dst) (Ipv4.serialize packet)

  -- The loop of `handle_arp` over the frames that waited.
  unfoldable pub flush : MacAddress → List (List ℕ) → M (Unit {0})
  unfolding send_frame
  flush mac [] = done
  flush mac (frame ∷ frames) = do send_frame env mac ipv4_type frame; flush mac frames

  -- The two halves of `handle_arp`.
  unfoldable pub learn : ArpPacket → M (Unit {0})
  unfolding flush Cache.insert
  learn p = do
    i ← self
    if mac_eq p.sender_mac i.mac then done else (do
      set_arp (Cache.insert i.arp p.sender_addr p.sender_mac).0
      flush p.sender_mac (Cache.insert i.arp p.sender_addr p.sender_mac).1)

  abbrev reply_from : MacAddress → Option Ipv4Addr → ArpPacket → M (Unit {0})
  unfolding send_frame Packet.serialize
  reply_from mac none p = crash
  reply_from mac (some ip) p =
      send_frame env p.sender_mac arp_type
        (Packet.serialize (arp_message Packet.reply mac ip p.sender_mac p.sender_addr))

  unfoldable pub answer : ArpPacket → M (Unit {0})
  unfolding reply_from
  answer p = do
    i ← self
    if is_request p.operation && is_own i.ipv4 p.target_addr
        then reply_from i.mac i.ipv4 p
        else done

  -- `NetworkInterface::handle_arp`
  unfoldable pub handle_arp : ArpPacket → M (Unit {0})
  unfolding learn answer
  handle_arp p = do learn p; answer p

  -- The echo reply of `handle_icmp`, from the address that the interface has.
  abbrev send_reply : Result Ipv4Error Ipv4Packet → M (Unit {0})
  unfolding send_ipv4
  send_reply (ok reply) = send_ipv4 reply.dest reply
  send_reply (err e) = done
  send_reply panic = crash

  abbrev echo : Option Ipv4Addr → Ipv4Packet → M (Unit {0})
  unfolding send_reply internet_checksum Ipv4.new
  echo none p = done
  echo (some src) p = do
    data0 ← write p.payload 0 0
    data1 ← write data0 2 0
    data2 ← write data1 3 0
    let checksum = internet_checksum (data2 ∷ [])
    data3 ← write data2 2 (checksum / 256 % 256)
    data4 ← write data3 3 (checksum % 256)
    send_reply (Ipv4.new data4 src p.source p.id Ipv4.icmp)

  -- `NetworkInterface::handle_icmp`, past its checksum
  unfoldable pub icmp_request : List ℕ → Ipv4Packet → M (Unit {0})
  unfolding echo
  icmp_request payload p = do
    kind ← at payload 0
    if kind == 8
        then (do code ← at payload 1; i ← self; if code == 0 then echo i.ipv4 p else done)
        else done

  unfoldable pub handle_icmp : Ipv4Packet → M (Unit {0})
  unfolding internet_checksum icmp_request
  handle_icmp p = if internet_checksum (p.payload ∷ []) != 0 then done else icmp_request p.payload p

  -- `NetworkInterface::send_dhcp`, by the steps that can fail
  abbrev send_dhcp_packet : Result Ipv4Error Ipv4Packet → M (Option DhcpError)
  unfolding send_frame Ipv4.serialize
  send_dhcp_packet (ok packet) = do
    send_frame env broadcast ipv4_type (Ipv4.serialize packet)
    return none
  send_dhcp_packet (err e) = return (some (ipv4_error e))
  send_dhcp_packet panic = crash

  abbrev send_dhcp_bytes : Result UdpError (List ℕ) → ℕ → M (Option DhcpError)
  unfolding send_dhcp_packet Ipv4.new
  send_dhcp_bytes (ok ip_data) id =
      send_dhcp_packet (Ipv4.new ip_data unspecified broadcast_addr id Ipv4.udp)
  send_dhcp_bytes (err e) id = return (some (udp_error e))
  send_dhcp_bytes panic id = crash

  abbrev send_dhcp_datagram : Result UdpError UdpPacket → ℕ → M (Option DhcpError)
  unfolding send_dhcp_bytes Udp.serialize_ipv4
  send_dhcp_datagram (ok datagram) id =
      send_dhcp_bytes (Udp.serialize_ipv4 datagram unspecified broadcast_addr) id
  send_dhcp_datagram (err e) id = return (some (udp_error e))
  send_dhcp_datagram panic id = crash

  abbrev send_dhcp_with : Option ℕ → List ℕ → M (Option DhcpError)
  unfolding send_dhcp_datagram Udp.new
  send_dhcp_with none msg = return (some rng_error)
  send_dhcp_with (some id) msg =
      send_dhcp_datagram (Udp.new Dhcp.client_port Dhcp.server_port msg) id

  -- `none` is `Ok(())`
  unfoldable pub send_dhcp : List ℕ → M (Option DhcpError)
  unfolding send_dhcp_with from_rand
  send_dhcp msg = do id ← from_rand env (2 ^ 16); send_dhcp_with id msg

  -- `NetworkInterface::init_dhcp`
  abbrev started : ℕ → Option DhcpError → M (Option DhcpError)
  started xid none = do set_dhcp (selecting xid); return none
  started xid (some e) = return (some e)

  abbrev init_with : Option ℕ → MacAddress → M (Option DhcpError)
  unfolding send_dhcp Dhcp.build_discover
  init_with none mac = return (some rng_error)
  init_with (some xid) mac = do result ← send_dhcp (Dhcp.build_discover mac xid); started xid result

  abbrev init_from : DhcpState → MacAddress → M (Option DhcpError)
  unfolding init_with from_rand
  init_from idle mac = do xid ← from_rand env (2 ^ 32); init_with xid mac
  init_from _ mac = return (some already_started)

  unfoldable pub init_dhcp : M (Option DhcpError)
  unfolding init_from
  init_dhcp = do i ← self; init_from i.dhcp i.mac

  -- `NetworkInterface::handle_dhcp`, by the state
  abbrev requested : ℕ → DhcpBinding → Option DhcpError → M (Unit {0})
  requested xid offer none = set_dhcp (requesting xid offer)
  requested xid offer (some e) = done

  abbrev accept_offer : ℕ → MacAddress → Option DhcpBinding → M (Unit {0})
  unfolding send_dhcp Dhcp.build_request
  accept_offer xid mac none = done
  accept_offer xid mac (some offer) = do
    result ← send_dhcp (Dhcp.build_request mac xid offer)
    requested xid offer result

  abbrev pub bind_interface : DhcpBinding → M (Unit {0})
  bind_interface ack h = some (
    tt,
    record h {
      interface = record h.interface {
        ipv4 = some ack.client_addr;
        subnet_mask = some ack.subnet_mask;
        gateway = some ack.gateway;
        dhcp = idle;
      };
    },
  )

  abbrev accept_ack : DhcpBinding → Option DhcpBinding → M (Unit {0})
  accept_ack offer none = done
  accept_ack offer (some ack) =
      if not (addr_eq ack.server_id offer.server_id) then done else bind_interface ack

  unfoldable pub dhcp_step : DhcpState → MacAddress → List ℕ → M (Unit {0})
  unfolding accept_offer Dhcp.from_offer Dhcp.from_ack
  dhcp_step idle mac msg = done
  dhcp_step (selecting xid) mac msg = do
    offer ← read_reply (Dhcp.from_offer msg xid mac)
    accept_offer xid mac offer
  dhcp_step (requesting xid offer) mac msg = do
    ack ← read_reply (Dhcp.from_ack msg xid mac)
    accept_ack offer ack

  unfoldable pub handle_dhcp : UdpPacket → M (Unit {0})
  unfolding dhcp_step
  handle_dhcp datagram = do i ← self; dhcp_step i.dhcp i.mac datagram.payload

  -- `NetworkInterface::handle_udp`
  unfoldable pub handle_udp : UdpPacket → M (Unit {0})
  unfolding handle_dhcp
  handle_udp datagram =
      if datagram.dest_port == Dhcp.client_port && datagram.source_port == Dhcp.server_port
      then handle_dhcp datagram
      else done

  abbrev receive_udp : Result UdpError UdpPacket → M (Unit {0})
  unfolding handle_udp
  receive_udp (ok datagram) = handle_udp datagram
  receive_udp (err e) = done
  receive_udp panic = crash

  unfoldable pub dispatch : IpProtocol → Ipv4Packet → M (Unit {0})
  unfolding handle_icmp receive_udp Udp.from_packet
  dispatch Ipv4.icmp p = handle_icmp p
  dispatch Ipv4.tcp p = done
  dispatch Ipv4.udp p = receive_udp (Udp.from_packet p)
  dispatch (Ipv4.unknown n) p = done

  -- `NetworkInterface::handle_ipv4`
  unfoldable pub handle_ipv4 : Ipv4Packet → M (Unit {0})
  unfolding dispatch for_us
  handle_ipv4 p = do
    i ← self
    if is_fragment p then done else if not (for_us i p.dest) then done else dispatch p.protocol p

  unfoldable pub handle_frame : EthernetFrame → M (Unit {0})
  unfolding handle_arp handle_ipv4
  handle_frame (Ethernet.arp p) = handle_arp p
  handle_frame (Ethernet.ipv4 p) = handle_ipv4 p
  handle_frame (Ethernet.unknown ethertype items) = done

  -- `NetworkInterface::handle_packet`
  unfoldable pub handle_packet : EthernetFrame → MacAddress → M (Unit {0})
  unfolding handle_frame
  handle_packet frame dst = do
    i ← self
    if not (mac_eq dst i.mac) && not (mac_eq dst broadcast) then done else handle_frame frame
