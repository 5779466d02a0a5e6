-- ===== src/Kernel/Interface/Exchange.antt =====
-- The DHCP exchange of `NetworkInterface` with a server that answers: it ends with an address.
use conc_os.Common.{
  if◌then◌else◌, not, subst, append_assoc, ap, ℕ, suc, ◌+◌, ◌%◌, ◌^◌, ◌≤◌, ◌≡◌, refl, sym, ◌∙◌,
  List, [], ◌∷◌, ◌++◌, none, some, ok, true, false, inl, inr, length, le→ltb, arith,
}
use conc_os.Net.Addr.{MacAddress, addr_eq, addr_eq_refl, unspecified, broadcast_addr, broadcast}
use conc_os.Net.Ipv4
use conc_os.Net.Ipv4.{Ipv4Packet, Ipv4Error}
use conc_os.Net.Udp
use conc_os.Net.Udp.{UdpPacket, UdpError, max_udp_payload}
use conc_os.Net.Udp.Datagram.{serialize_ipv4_total}
use conc_os.Net.Ethernet.{ipv4_type}
use conc_os.Net.Dhcp
use conc_os.Net.Dhcp.{DhcpBinding}
use conc_os.Net.Dhcp.Replies.{Fields, IsLayout, message}
use conc_os.Net.Dhcp.Accepted.{IsReply, from_message-IsReply}
use conc_os.Kernel.Host.{
  done, ◌>>◌, Env, Host, ◌>>=◌, DhcpState, idle, selecting, requesting, send_frame, from_rand,
  ethernet_frame,
}
use conc_os.Kernel.Runs.{>>=_lem}
use conc_os.Kernel.Interface.{
  send_dhcp, send_dhcp_with, send_dhcp_datagram, send_dhcp_bytes, send_dhcp_packet, dhcp_step,
  init_dhcp, handle_dhcp, handle_udp, read_reply, accept_offer, bind_interface, accept_ack,
}
use conc_os.Common.{ap}
use conc_os.Kernel.Interface.{init_from}
use conc_os.Kernel.Interface.{init_with}
use conc_os.Kernel.Interface.{started}

-- A frame from a client without an address to every host, with a UDP datagram from the client's to
-- the server's port that carries `msg`.
pub record IsClientFrame (mac : MacAddress) (msg frame : List ℕ) : Type 0 where
  pub datagram : UdpPacket
  pub packet : Ipv4Packet
  pub from_client : datagram.source_port ≡ 68
  pub to_server : datagram.dest_port ≡ 67
  pub carries : datagram.payload ≡ msg
  pub source : packet.source ≡ unspecified
  pub dest : packet.dest ≡ broadcast_addr
  pub protocol : packet.protocol ≡ Ipv4.udp
  pub payload : Udp.serialize_ipv4 datagram unspecified broadcast_addr ≡ ok packet.payload
  pub framed : frame ≡ ethernet_frame broadcast mac ipv4_type (Ipv4.serialize packet)

-- The datagram in which a server sends a DHCP message.
pub record IsServed (q : UdpPacket) (f : Fields) : Type 0 where
  pub from_server : q.source_port ≡ 67
  pub to_client : q.dest_port ≡ 68
  pub payload : q.payload ≡ message f
  pub layout : IsLayout f

discover_length : (mac : MacAddress) (xid : ℕ) → length (Dhcp.build_discover mac xid) ≡ 300
unfolding Dhcp.build_discover
discover_length mac xid = refl

request_length :
    (mac : MacAddress) (xid : ℕ) (b : DhcpBinding) → length (Dhcp.build_request mac xid b) ≡ 300
unfolding Dhcp.build_request
request_length mac xid b = refl

abbrev pub sending : Host → List ℕ → Host
sending h frame = record h { sent = h.sent ++ (frame ∷ []); draws = suc h.draws }

-- What `UDPPacket::new` and `Ipv4Packet::new` build for a message.
abbrev client_datagram : List ℕ → UdpPacket
client_datagram msg = record {
  source_port = 68;
  dest_port = 67;
  datagram_length = length msg + 8;
  checksum = 0;
  payload = msg;
}

abbrev client_packet : List ℕ → ℕ → Ipv4Packet
client_packet bytes id = record {
  version_ihl = 0x45;
  dscp_ecn = 0;
  total_length = length bytes + 20;
  id = id;
  frag_offset = 0;
  dont_fragment = false;
  more_fragments = false;
  ttl = 64;
  protocol = Ipv4.udp;
  checksum = 0;
  source = unspecified;
  dest = broadcast_addr;
  options = [];
  payload = bytes;
}

client_packet-new :
    (bytes : List ℕ) (id : ℕ)
    → length bytes ≤ 308
    → Ipv4.new bytes unspecified broadcast_addr id Ipv4.udp ≡ ok (client_packet bytes id)
unfolding Ipv4.new
client_packet-new bytes id small = rw (le→ltb 65535 (length bytes + 20) (omega arith))

abbrev pub drawn : Host → Host
drawn h = record h { draws = suc h.draws }

abbrev pub at_state : Host → DhcpState → Host
at_state h s = record h { interface = record h.interface { dhcp = s } }

module _ (env : Env) (takes : (frame : List ℕ) → env.takes frame ≡ true) where
  abbrev framed : List ℕ → ℕ → Host → List ℕ
  framed bytes id h =
      ethernet_frame broadcast h.interface.mac ipv4_type (Ipv4.serialize (client_packet bytes id))

  frame_sent :
      (payload : List ℕ) (h : Host)
      → send_frame env broadcast ipv4_type payload h
        ≡ some (
          tt,
          record h {
            sent = h.sent ++ (ethernet_frame broadcast h.interface.mac ipv4_type payload ∷ []);
          },
        )
  unfolding send_frame
  frame_sent payload h = rw (takes (ethernet_frame broadcast h.interface.mac ipv4_type payload))

  bytes_sent :
      (bytes : List ℕ) (id : ℕ) (h : Host)
      → length bytes ≤ 308
      → send_dhcp_bytes env (ok bytes) id h
        ≡ some (
          none,
          record h {
            sent =
                h.sent
                ++ (ethernet_frame broadcast h.interface.mac ipv4_type
                      (Ipv4.serialize (client_packet bytes id))
                    ∷ []);
          },
        )
  unfolding send_dhcp_bytes send_dhcp_packet
  bytes_sent bytes id h small =
      ap (λ r. send_dhcp_packet env r h) (client_packet-new bytes id small)
      ∙ >>=_lem (send_frame env broadcast ipv4_type (Ipv4.serialize (client_packet bytes id))) _ h
          tt _ (frame_sent (Ipv4.serialize (client_packet bytes id)) h)

  with_sent :
      (msg bytes : List ℕ) (id : ℕ) (h : Host)
      → length msg ≤ 300
      → Udp.serialize_ipv4 (client_datagram msg) unspecified broadcast_addr ≡ ok bytes
      → send_dhcp_with env (some id) msg h ≡ send_dhcp_bytes env (ok bytes) id h
  unfolding send_dhcp_with send_dhcp_datagram Udp.new
  with_sent msg bytes id h small run = rw (le→ltb 65535 (length msg + 8) (omega arith), run)

  send_dhcp_sends :
      (msg : List ℕ) (h : Host) (v : ℕ)
      → length msg ≤ 300
      → env.rand h.draws ≡ some v
      → (frame : List ℕ) × IsClientFrame h.interface.mac msg frame
        × (send_dhcp env msg h ≡ some (none, sending h frame))
  unfolding send_dhcp from_rand
  send_dhcp_sends msg h v small drawn =
      elim (serialize_ipv4_total (client_datagram msg) unspecified broadcast_addr) [
        | inl (fits, bytes, run, size) ↦
            let id = v % 2 ^ 16 in
            let h' : Host = record h { draws = suc h.draws } in
            (
              ethernet_frame broadcast h.interface.mac ipv4_type
                  (Ipv4.serialize (client_packet bytes id)),
              record {
                datagram = client_datagram msg;
                packet = client_packet bytes id;
                from_client = refl;
                to_server = refl;
                carries = refl;
                source = refl;
                dest = refl;
                protocol = refl;
                payload = run;
                framed = refl;
              },
              rw drawn (with_sent msg bytes id h' small run ∙ bytes_sent bytes id h' (omega arith)),
            )
        | inr (large, run) ↦ absurd (omega arith)
      ]

  from_rand_lem :
      (bound v : ℕ) (h : Host)
      → env.rand h.draws ≡ some v
      → from_rand env bound h ≡ some (some (v % bound), drawn h)
  unfolding from_rand
  from_rand_lem bound v h e = rw e

  -- A datagram of the server's reaches the state machine.
  served_lem :
      (q : UdpPacket) (f : Fields) (h : Host)
      → IsServed q f
      → handle_udp env q h ≡ dhcp_step env h.interface.dhcp h.interface.mac (message f) h
  unfolding handle_udp handle_dhcp
  served_lem q f h served = rw (served.to_client, served.from_server, served.payload)

  -- `init_dhcp` draws the exchange's number and sends a discover.
  init_dhcp_lem :
      (h : Host) (v w : ℕ)
      → h.interface.dhcp ≡ idle
      → env.rand h.draws ≡ some v
      → env.rand (suc h.draws) ≡ some w
      → (frame : List ℕ) × IsClientFrame h.interface.mac
          (Dhcp.build_discover h.interface.mac (v % 2 ^ 32))
          frame
        × (init_dhcp env h
            ≡ some (none, at_state (sending (drawn h) frame) (selecting (v % 2 ^ 32))))
  unfolding init_dhcp init_from init_with from_rand
  init_dhcp_lem h v w e first second =
      let msg = Dhcp.build_discover h.interface.mac (v % 2 ^ 32) in
      let (frame, is, run) =
        send_dhcp_sends msg (drawn h) w
          (omega (arith, discover_length h.interface.mac (v % 2 ^ 32))) second in
      (
        frame,
        is,
        ap (λ s. init_from env s h.interface.mac h) e
            ∙ >>=_lem (from_rand env (2 ^ 32)) (λ x. init_with env x h.interface.mac) h
                (some (v % 2 ^ 32)) (drawn h) (from_rand_lem (2 ^ 32) v h first)
            ∙ >>=_lem (send_dhcp env msg) (λ x. started env (v % 2 ^ 32) x) (drawn h) none
                (sending (drawn h) frame) run,
      )

  -- An offer is answered by a request.
  offer_lem :
      (q : UdpPacket) (f : Fields) (h : Host) (xid v : ℕ) (offer : DhcpBinding)
      → h.interface.dhcp ≡ selecting xid
      → IsServed q f
      → IsReply f xid h.interface.mac Dhcp.offer offer
      → env.rand h.draws ≡ some v
      → (frame : List ℕ) × IsClientFrame h.interface.mac
          (Dhcp.build_request h.interface.mac xid offer)
          frame
        × (handle_udp env q h ≡ some (tt, at_state (sending h frame) (requesting xid offer)))
  unfolding dhcp_step accept_offer Dhcp.from_offer
  offer_lem q f h xid v offer e served reply first =
      let msg = Dhcp.build_request h.interface.mac xid offer in
      let (frame, is, run) =
        send_dhcp_sends msg h v (omega (arith, request_length h.interface.mac xid offer)) first in
      let read = from_message-IsReply f xid h.interface.mac Dhcp.offer offer served.layout reply in
      (
        frame,
        is,
        served_lem q f h served
            ∙ ap (λ s. dhcp_step env s h.interface.mac (message f) h) e
            ∙ ap (λ r. (read_reply r >>= accept_offer env xid h.interface.mac) h) read
            ∙ >>=_lem (send_dhcp env msg) _ h none (sending h frame) run,
      )

  -- The acknowledgement binds the interface.
  ack_lem :
      (q : UdpPacket) (f : Fields) (h : Host) (xid : ℕ) (offer ack : DhcpBinding)
      → h.interface.dhcp ≡ requesting xid offer
      → IsServed q f
      → IsReply f xid h.interface.mac Dhcp.ack ack
      → ack.server_id ≡ offer.server_id
      → handle_udp env q h ≡ bind_interface env ack h
  unfolding dhcp_step Dhcp.from_ack
  ack_lem q f h xid offer ack e served reply same =
      let read = from_message-IsReply f xid h.interface.mac Dhcp.ack ack served.layout reply in
      served_lem q f h served
      ∙ ap (λ s. dhcp_step env s h.interface.mac (message f) h) e
      ∙ ap (λ r. (read_reply r >>= accept_ack env offer) h) read
      ∙ ap (λ b. (if not b then done else bind_interface env ack) h)
          (subst (λ a. addr_eq a offer.server_id ≡ true) (sym same) (addr_eq_refl offer.server_id))

-- An idle interface that starts the exchange and then receives, in datagrams of the server's, an
-- offer for its exchange and the acknowledgement of the same server, configures itself: it sends the
-- discover and the request for that offer as broadcasts and nothing else, draws three random
-- numbers, has the address, mask and gateway of the acknowledgement, is idle again, and keeps its
-- own MAC address and its cache. The driver is assumed to take every frame and the generator to
-- deliver.
pub dhcp_exchange_configures :
    (env : Env) (rand : ℕ → ℕ) (h : Host) (q1 q2 : UdpPacket) (f1 f2 : Fields)
    (offer ack : DhcpBinding)
    → ((frame : List ℕ) → env.takes frame ≡ true)
    → ((n : ℕ) → env.rand n ≡ some (rand n))
    → h.interface.dhcp ≡ idle
    → IsServed q1 f1
    → IsReply f1 (rand h.draws % 2 ^ 32) h.interface.mac Dhcp.offer offer
    → IsServed q2 f2
    → IsReply f2 (rand h.draws % 2 ^ 32) h.interface.mac Dhcp.ack ack
    → ack.server_id ≡ offer.server_id
    → (discover request : List ℕ) × IsClientFrame h.interface.mac
        (Dhcp.build_discover h.interface.mac (rand h.draws % 2 ^ 32))
        discover
      × IsClientFrame h.interface.mac
          (Dhcp.build_request h.interface.mac (rand h.draws % 2 ^ 32) offer)
          request
      × ((init_dhcp env >>= λ e. handle_udp env q1 >> handle_udp env q2) h
          ≡ some (
            tt,
            record {
              interface = record h.interface {
                ipv4 = some ack.client_addr;
                subnet_mask = some ack.subnet_mask;
                gateway = some ack.gateway;
                dhcp = idle;
              };
              sent = h.sent ++ (discover ∷ request ∷ []);
              draws = suc (suc (suc h.draws));
            },
          ))
dhcp_exchange_configures env rand h q1 q2 f1 f2 offer ack takes draws e served1 reply1 served2
      reply2 same =
    let xid = rand h.draws % 2 ^ 32 in
    let (discover, sent1, run1) =
      init_dhcp_lem env takes h (rand h.draws) (rand (suc h.draws)) e (draws h.draws)
        (draws (suc h.draws)) in
    let h1 : Host = at_state (sending (drawn h) discover) (selecting xid) in
    let (request, sent2, run2) =
      offer_lem env takes q1 f1 h1 xid (rand h1.draws) offer refl served1 reply1 (draws h1.draws) in
    let h2 : Host = at_state (sending h1 request) (requesting xid offer) in
    (
      discover,
      request,
      sent1,
      sent2,
      >>=_lem (init_dhcp env) (λ x. handle_udp env q1 >> handle_udp env q2) h none h1 run1
          ∙ >>=_lem (handle_udp env q1) (λ x. handle_udp env q2) h1 tt h2 run2
          ∙ ack_lem env takes q2 f2 h2 xid offer ack refl served2 reply2 same
          ∙ ap
              (λ sent. some (
                tt,
                record {
                  interface = record h.interface {
                    ipv4 = some ack.client_addr;
                    subnet_mask = some ack.subnet_mask;
                    gateway = some ack.gateway;
                    dhcp = idle;
                  };
                  sent = sent;
                  draws = suc (suc (suc h.draws));
                },
              ))
              (append_assoc h.sent (discover ∷ []) (request ∷ [])),
    )
