-- ===== src/Kernel/Interface/Receive.antt =====
-- Receiving a parsed frame: every handler ends, and the configuration changes only by DHCP.
use conc_os.Common.{
  ℕ, ◌≤◌, ◌≡◌, ◌≢◌, refl, List, Result, ok, err, panic, Bool-cases, inl, inr, length, not, ◌&&◌,
}
use conc_os.Common.Slices.{IsBytes}
use conc_os.Net.Addr.{MacAddress, mac_eq, broadcast}
use conc_os.Net.Ipv4
use conc_os.Net.Ipv4.{Ipv4Packet, IpProtocol}
use conc_os.Net.Udp
use conc_os.Net.Udp.{UdpPacket, UdpError}
use conc_os.Net.Udp.Datagram
use conc_os.Net.Udp.Datagram.{datagram_sound}
use conc_os.Net.Ethernet
use conc_os.Net.Ethernet.{EthernetFrame}
use conc_os.Kernel.Host.{Env, Host, done}
use conc_os.Kernel.Runs.{Ends, ends, Keeps-refl}
use conc_os.Kernel.Interface.Traffic.{handle_arp-Keeps}
use conc_os.Kernel.Interface.Echo.{handle_icmp-Keeps}
use conc_os.Kernel.Interface.Configure.{Changes, kept, kept-Changes, handle_udp-Change}
use conc_os.Kernel.Interface.{
  handle_packet, handle_frame, handle_ipv4, dispatch, receive_udp, handle_icmp, handle_arp,
  is_fragment, for_us,
}
use conc_os.Common.{true}

-- A frame that can have been parsed from bytes.
abbrev pub IsFrame : EthernetFrame → Type 0
IsFrame (Ethernet.arp p) = Unit
IsFrame (Ethernet.ipv4 p) = IsBytes p.payload × (length p.payload ≤ 65535)
IsFrame (Ethernet.unknown ethertype items) = Unit

udp_total : (p : Ipv4Packet) → Udp.from_packet p ≢ panic
udp_total p = elim (datagram_sound p) [
  | Datagram.rejected e r ↦ λ z. cc
  | Datagram.accepted q r v ↦ λ z. cc
]

module _ (env : Env) (takes : (frame : List ℕ) → env.takes frame ≡ true) where
  done-Change : (h : Host) → Ends (done h) (Changes h)
  done-Change h = ends tt h refl (kept (Keeps-refl h))

  receive_udp-Change :
      (r : Result UdpError UdpPacket) (h : Host)
      → r ≢ panic
      → Ends (receive_udp env r h) (Changes h)
  unfolding receive_udp
  receive_udp-Change (ok q) h fine = handle_udp-Change env takes q h
  receive_udp-Change (err e) h fine = done-Change h
  receive_udp-Change panic h fine = absurd (fine refl)

  dispatch-Change :
      (protocol : IpProtocol) (p : Ipv4Packet) (h : Host)
      → IsBytes p.payload
      → length p.payload ≤ 65535
      → Ends (dispatch env protocol p h) (Changes h)
  unfolding dispatch
  dispatch-Change Ipv4.icmp p h v small =
      kept-Changes (handle_icmp env p h) h (handle_icmp-Keeps env takes p h v small)
  dispatch-Change Ipv4.tcp p h v small = done-Change h
  dispatch-Change Ipv4.udp p h v small = receive_udp-Change (Udp.from_packet p) h (udp_total p)
  dispatch-Change (Ipv4.unknown n) p h v small = done-Change h

  handle_ipv4-Change :
      (p : Ipv4Packet) (h : Host)
      → IsBytes p.payload
      → length p.payload ≤ 65535
      → Ends (handle_ipv4 env p h) (Changes h)
  unfolding handle_ipv4
  handle_ipv4-Change p h v small = elim (Bool-cases (is_fragment p)) [
    | inl part ↦ rw part (done-Change h)
    | inr whole ↦ elim (Bool-cases (for_us h.interface p.dest)) [
      | inl ours ↦ rw (whole, ours) (dispatch-Change p.protocol p h v small)
      | inr other ↦ rw (whole, other) (done-Change h)
    ]
  ]

  handle_frame-Change :
      (frame : EthernetFrame) (h : Host)
      → IsFrame frame
      → Ends (handle_frame env frame h) (Changes h)
  unfolding handle_frame
  handle_frame-Change (Ethernet.arp p) h v =
      kept-Changes (handle_arp env p h) h (handle_arp-Keeps env takes p h)
  handle_frame-Change (Ethernet.ipv4 p) h v = handle_ipv4-Change p h v.0 v.1
  handle_frame-Change (Ethernet.unknown ethertype items) h v = done-Change h

  pub handle_packet-Change :
      (frame : EthernetFrame) (dst : MacAddress) (h : Host)
      → IsFrame frame
      → Ends (handle_packet env frame dst h) (Changes h)
  unfolding handle_packet
  handle_packet-Change frame dst h v =
      elim (Bool-cases (not (mac_eq dst h.interface.mac) && not (mac_eq dst broadcast))) [
        | inl other ↦ rw other (done-Change h)
        | inr ours ↦ rw ours (handle_frame-Change frame h v)
      ]
