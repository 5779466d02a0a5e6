-- ===== src/Kernel/Interface/Configure.antt =====
-- The DHCP exchange of `NetworkInterface`: how its configuration can change.
use conc_os.Common.{
  ℕ, ◌+◌, ◌^◌, ◌≡◌, ◌≢◌, refl, List, Option, none, some, Result, ok, err, panic, true, Bool-cases,
  inl, inr, length, ◌==◌, ◌&&◌, reject_if-total, ltb,
}
use conc_os.Net.Addr.{
  MacAddress, Ipv4Addr, addr_eq, addr_eq_sound, unspecified, broadcast_addr, broadcast,
}
use conc_os.Net.Ipv4
use conc_os.Net.Ipv4.{Ipv4Packet, Ipv4Error}
use conc_os.Net.Udp
use conc_os.Net.Udp.{UdpPacket, UdpError}
use conc_os.Net.Udp.Datagram.{serialize_ipv4_total}
use conc_os.Net.Ethernet.{ipv4_type}
use conc_os.Net.Dhcp
use conc_os.Net.Dhcp.{DhcpBinding, DhcpMessageType}
use conc_os.Net.Dhcp.Total.{from_message_total}
use conc_os.Net.Arp.Cache.Invariant.{IsCache}
use conc_os.Kernel.Host.{
  Env, Host, DhcpState, idle, selecting, requesting, return, send_frame, from_rand,
}
use conc_os.Kernel.Runs.{
  Ends, ends, Ends-map, Ends-bind, Ends-step, Keeps, Keeps-refl, Keeps-bind, KeepsAll,
  send_frame-Keeps, from_rand-Keeps,
}
use conc_os.Kernel.Interface.Echo.{new_total}
use conc_os.Kernel.Interface
use conc_os.Kernel.Interface.{
  send_dhcp, send_dhcp_with, send_dhcp_datagram, send_dhcp_bytes, send_dhcp_packet, dhcp_step,
  handle_dhcp, handle_udp, read_reply, accept_offer, bind_interface, DhcpError, requested,
  accept_ack,
}

return-Keeps : {A : Type 0} (a : A) (h : Host) → Ends (return a h) (KeepsAll h)
return-Keeps a h = ends a h refl (Keeps-refl h)

serialize_total :
    (q : UdpPacket) (source dest : Ipv4Addr) → Udp.serialize_ipv4 q source dest ≢ panic
serialize_total q source dest = elim (serialize_ipv4_total q source dest) [
  | inl (small, bytes, run, size) ↦ λ z. cc
  | inr (large, run) ↦ λ z. cc
]

udp_new_total : (source dest : ℕ) (payload : List ℕ) → Udp.new source dest payload ≢ panic
unfolding Udp.new
udp_new_total source dest payload =
    reject_if-total (ltb 65535 (length payload + 8)) Udp.length_out_of_range _ (λ z. cc)

module _ (env : Env) (takes : (frame : List ℕ) → env.takes frame ≡ true) where
  packet-Keeps :
      (r : Result Ipv4Error Ipv4Packet) (h : Host)
      → r ≢ panic
      → Ends (send_dhcp_packet env r h) (KeepsAll h)
  unfolding send_dhcp_packet
  packet-Keeps (ok p) h fine =
      Keeps-bind (send_frame env broadcast ipv4_type (Ipv4.serialize p)) _ h
        (send_frame-Keeps env broadcast ipv4_type (Ipv4.serialize p) h takes)
        (λ a h' kept. return-Keeps none h')
  packet-Keeps (err e) h fine = return-Keeps (some (Interface.ipv4_error e)) h
  packet-Keeps panic h fine = absurd (fine refl)

  bytes-Keeps :
      (r : Result UdpError (List ℕ)) (id : ℕ) (h : Host)
      → r ≢ panic
      → Ends (send_dhcp_bytes env r id h) (KeepsAll h)
  unfolding send_dhcp_bytes
  bytes-Keeps (ok xs) id h fine =
      packet-Keeps (Ipv4.new xs unspecified broadcast_addr id Ipv4.udp) h
        (new_total xs unspecified broadcast_addr id Ipv4.udp)
  bytes-Keeps (err e) id h fine = return-Keeps (some (Interface.udp_error e)) h
  bytes-Keeps panic id h fine = absurd (fine refl)

  datagram-Keeps :
      (r : Result UdpError UdpPacket) (id : ℕ) (h : Host)
      → r ≢ panic
      → Ends (send_dhcp_datagram env r id h) (KeepsAll h)
  unfolding send_dhcp_datagram
  datagram-Keeps (ok q) id h fine =
      bytes-Keeps (Udp.serialize_ipv4 q unspecified broadcast_addr) id h
        (serialize_total q unspecified broadcast_addr)
  datagram-Keeps (err e) id h fine = return-Keeps (some (Interface.udp_error e)) h
  datagram-Keeps panic id h fine = absurd (fine refl)

  with-Keeps :
      (id : Option ℕ) (msg : List ℕ) (h : Host) → Ends (send_dhcp_with env id msg h) (KeepsAll h)
  unfolding send_dhcp_with
  with-Keeps none msg h = return-Keeps (some Interface.rng_error) h
  with-Keeps (some id) msg h =
      datagram-Keeps (Udp.new Dhcp.client_port Dhcp.server_port msg) id h
        (udp_new_total Dhcp.client_port Dhcp.server_port msg)

  pub send_dhcp-Keeps : (msg : List ℕ) (h : Host) → Ends (send_dhcp env msg h) (KeepsAll h)
  unfolding send_dhcp
  send_dhcp-Keeps msg h =
      Keeps-bind (from_rand env (2 ^ 16)) (λ id. send_dhcp_with env id msg) h
        (from_rand-Keeps env (2 ^ 16) h) (λ id h' kept. with-Keeps id msg h')

-- What one received message can do to the configuration. Its addresses change only by an
-- acknowledgement of the exchange in flight, from the server whose offer was taken.
pub data Change (h h' : Host) : Type 0 where
  kept : Keeps h h' → Change h h'
  offered :
      (msg : List ℕ) (xid : ℕ) (offer : DhcpBinding)
      → h.interface.dhcp ≡ selecting xid
      → Dhcp.from_offer msg xid h.interface.mac ≡ ok offer
      → h'.interface.mac ≡ h.interface.mac
      → h'.interface.ipv4 ≡ h.interface.ipv4
      → h'.interface.gateway ≡ h.interface.gateway
      → h'.interface.subnet_mask ≡ h.interface.subnet_mask
      → (IsCache h.interface.arp → IsCache h'.interface.arp)
      → h'.interface.dhcp ≡ requesting xid offer
      → Change h h'
  bound :
      (msg : List ℕ) (xid : ℕ) (offer ack : DhcpBinding)
      → h.interface.dhcp ≡ requesting xid offer
      → Dhcp.from_ack msg xid h.interface.mac ≡ ok ack
      → ack.server_id ≡ offer.server_id
      → h'.interface.mac ≡ h.interface.mac
      → h'.interface.ipv4 ≡ some ack.client_addr
      → h'.interface.gateway ≡ some ack.gateway
      → h'.interface.subnet_mask ≡ some ack.subnet_mask
      → h'.interface.arp ≡ h.interface.arp
      → h'.interface.dhcp ≡ idle
      → Change h h'

abbrev pub Changes : {A : Type 0} → Host → A → Host → Type 0
Changes h a h' = Change h h'

pub kept-Changes :
    {A : Type 0} (r : Option (A × Host)) (h : Host) → Ends r (KeepsAll h) → Ends r (Changes h)
kept-Changes r h e = Ends-map e (λ a h' k. kept k)

-- What a reply is read as.
data Reading (r : Result Dhcp.DhcpError DhcpBinding) (h : Host) : Type 0 where
  nothing : read_reply r h ≡ some (none, h) → Reading r h
  something : (b : DhcpBinding) → r ≡ ok b → read_reply r h ≡ some (some b, h) → Reading r h

reading : (r : Result Dhcp.DhcpError DhcpBinding) (h : Host) → r ≢ panic → Reading r h
reading (ok b) h fine = something b refl refl
reading (err e) h fine = nothing refl
reading panic h fine = absurd (fine refl)

from_offer_total : (msg : List ℕ) (xid : ℕ) (mac : MacAddress) → Dhcp.from_offer msg xid mac ≢ panic
unfolding Dhcp.from_offer
from_offer_total msg xid mac = from_message_total msg xid mac Dhcp.offer

from_ack_total : (msg : List ℕ) (xid : ℕ) (mac : MacAddress) → Dhcp.from_ack msg xid mac ≢ panic
unfolding Dhcp.from_ack
from_ack_total msg xid mac = from_message_total msg xid mac Dhcp.ack

module _ (env : Env) (takes : (frame : List ℕ) → env.takes frame ≡ true) where
  accept_offer-Change :
      (msg : List ℕ) (xid : ℕ) (offer : DhcpBinding) (h : Host)
      → h.interface.dhcp ≡ selecting xid
      → Dhcp.from_offer msg xid h.interface.mac ≡ ok offer
      → Ends (accept_offer env xid h.interface.mac (some offer) h) (Changes h)
  unfolding accept_offer
  accept_offer-Change msg xid offer h e run =
      Ends-bind (send_dhcp env (Dhcp.build_request h.interface.mac xid offer)) _ h
        (send_dhcp-Keeps env takes (Dhcp.build_request h.interface.mac xid offer) h)
        (λ result h' k. finish result h' k)
    where
      finish :
          (result : Option DhcpError) (h' : Host)
          → Keeps h h'
          → Ends (requested env xid offer result h') (Changes h)
      finish none h' k = ends tt _ refl (
          offered msg xid offer e run k.same_mac k.same_ipv4 k.same_gateway k.same_mask k.cache
            refl)
      finish (some x) h' k = ends tt h' refl (kept k)

  no_offer-Change :
      (xid : ℕ) (h : Host) → Ends (accept_offer env xid h.interface.mac none h) (Changes h)
  unfolding accept_offer
  no_offer-Change xid h = ends tt h refl (kept (Keeps-refl h))

  accept_ack-Change :
      (msg : List ℕ) (xid : ℕ) (offer ack : DhcpBinding) (h : Host)
      → h.interface.dhcp ≡ requesting xid offer
      → Dhcp.from_ack msg xid h.interface.mac ≡ ok ack
      → Ends (accept_ack env offer (some ack) h) (Changes h)
  accept_ack-Change msg xid offer ack h e run =
      elim (Bool-cases (addr_eq ack.server_id offer.server_id)) [
        | inr other ↦ rw other (ends tt h refl (kept (Keeps-refl h)))
        | inl same ↦ rw same (
            ends tt _ refl (
              bound msg xid offer ack e run (addr_eq_sound ack.server_id offer.server_id same) refl
                refl refl refl refl refl))
      ]

  dhcp_step-Change :
      (s : DhcpState) (msg : List ℕ) (h : Host)
      → h.interface.dhcp ≡ s
      → Ends (dhcp_step env s h.interface.mac msg h) (Changes h)
  unfolding dhcp_step
  dhcp_step-Change idle msg h e = ends tt h refl (kept (Keeps-refl h))
  dhcp_step-Change (selecting xid) msg h e =
      let mac = h.interface.mac in
      let reply = Dhcp.from_offer msg xid mac in
      elim (reading reply h (from_offer_total msg xid mac)) [
        | nothing r ↦
            Ends-step (read_reply reply) (accept_offer env xid mac) h none h r
              (no_offer-Change xid h)
        | something b run r ↦
            Ends-step (read_reply reply) (accept_offer env xid mac) h (some b) h r
              (accept_offer-Change msg xid b h e run)
      ]
  dhcp_step-Change (requesting xid offer) msg h e =
      let mac = h.interface.mac in
      let reply = Dhcp.from_ack msg xid mac in
      elim (reading reply h (from_ack_total msg xid mac)) [
        | nothing r ↦
            Ends-step (read_reply reply) (accept_ack env offer) h none h r
              (ends tt h refl (kept (Keeps-refl h)))
        | something b run r ↦
            Ends-step (read_reply reply) (accept_ack env offer) h (some b) h r
              (accept_ack-Change msg xid offer b h e run)
      ]

  pub handle_udp-Change : (q : UdpPacket) (h : Host) → Ends (handle_udp env q h) (Changes h)
  unfolding handle_udp handle_dhcp
  handle_udp-Change q h =
      elim (Bool-cases (q.dest_port == Dhcp.client_port && q.source_port == Dhcp.server_port)) [
        | inl ours ↦ rw ours (dhcp_step-Change h.interface.dhcp q.payload h refl)
        | inr other ↦ rw other (ends tt h refl (kept (Keeps-refl h)))
      ]
