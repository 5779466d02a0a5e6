-- ===== src/Net/Ethernet.antt =====
-- `EthernetFrame` of net/src/ethernet.rs: the dispatch on the ethertype.
pub mod Dispatch
use conc_os.Common.{
  ℕ, ◌+◌, ◌*◌, List, Result, ok, ◌>>=◌, ◌>>◌, reject_if, map_err, ltb, ◌==◌, if◌then◌else◌, length,
}
use conc_os.Common.Slices.{range, index}
use conc_os.Net.Arp.Packet.{ArpPacket, ArpError, from_slice}
use conc_os.Net.Ipv4.{Ipv4Packet, Ipv4Error, from_packet}

-- `EtherType as u16`
pub data EtherType : Type 0 where
  ipv4_type arp_type : EtherType

unfoldable pub ethertype_number : EtherType → ℕ
ethertype_number ipv4_type = 0x0800
ethertype_number arp_type = 0x0806

pub data EthernetFrame : Type 0 where
  arp : ArpPacket → EthernetFrame
  ipv4 : Ipv4Packet → EthernetFrame
  unknown : ℕ → List ℕ → EthernetFrame

pub data EthernetError : Type 0 where
  ipv4_err : Ipv4Error → EthernetError
  arp_error : ArpError → EthernetError
  too_short : EthernetError

-- `EthernetFrame::new`
unfoldable pub new : List ℕ → Result EthernetError EthernetFrame
new packet = do
  reject_if (ltb (length packet) 14) too_short
  high ← index packet 12
  low ← index packet 13
  let ethertype = high * 256 + low
  if ethertype == 0x0806
      then (do
        body ← range packet 14 (length packet)
        p ← map_err arp_error (from_slice body)
        ok (arp p))
      else if ethertype == 0x0800
      then (do
        body ← range packet 14 (length packet)
        p ← map_err ipv4_err (from_packet body)
        ok (ipv4 p))
      else ok (unknown ethertype packet)
