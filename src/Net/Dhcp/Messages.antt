-- ===== src/Net/Dhcp/Messages.antt =====
-- The replies of a DHCP server to one client, as concrete inputs (net/src/dhcp.rs).
use conc_os.Common.{ap, ◌≡◌, refl, [], ◌∷◌, ◌++◌, replicate, some, ok, arith}
use conc_os.Net.Addr.{MacAddress, Ipv4Addr, mac_bytes}
use conc_os.Net.Dhcp.{DhcpBinding, Parsed, parse_options, ack, offer, magic_cookie}
use conc_os.Net.Dhcp.Replies.{Fields, IsLayout}
use conc_os.Net.Dhcp.Accepted.{IsReply}

abbrev pub client : MacAddress
client = record { a0 = 0x52; a1 = 0x54; a2 = 0; a3 = 0x12; a4 = 0x34; a5 = 0x56 }

abbrev pub server : Ipv4Addr
server = record { o0 = 10; o1 = 0; o2 = 2; o3 = 2 }

abbrev pub mask : Ipv4Addr
mask = record { o0 = 255; o1 = 255; o2 = 255; o3 = 0 }

abbrev pub lease : DhcpBinding
lease = record {
  client_addr = record { o0 = 10; o1 = 0; o2 = 2; o3 = 15 };
  subnet_mask = mask;
  gateway = server;
  server_id = server;
}

abbrev pub said : Parsed
said = record {
  message_type = some offer;
  subnet_mask = some mask;
  router = some server;
  server_id = some server;
}

abbrev pub offered : Fields
offered = record {
  op = 2;
  htype = 1;
  hlen = 6;
  hops = 0;
  id = 0x12 ∷ 0x34 ∷ 0x56 ∷ 0x78 ∷ [];
  middle = replicate 8 0;
  yiaddr = 10 ∷ 0 ∷ 2 ∷ 15 ∷ [];
  servers = replicate 8 0;
  chaddr = mac_bytes client ++ replicate 10 0;
  names = replicate 192 0;
  cookie = magic_cookie;
  options =
      53 ∷ 1 ∷ 2 ∷ 54 ∷ 4 ∷ 10 ∷ 0 ∷ 2 ∷ 2 ∷ 1 ∷ 4 ∷ 255 ∷ 255 ∷ 255 ∷ 0 ∷ 3 ∷ 4 ∷ 10 ∷ 0 ∷ 2 ∷ 2
      ∷ 255 ∷ [];
}

pub offered-IsLayout : IsLayout offered
offered-IsLayout = record {
  id_size = refl;
  middle_size = refl;
  yiaddr_size = refl;
  servers_size = refl;
  chaddr_size = refl;
  names_size = refl;
  cookie_size = refl;
}

pub offered_options : parse_options offered.options ≡ ok said
unfolding parse_options
offered_options = refl

pub offered-IsReply : IsReply offered 0x12345678 client offer lease
offered-IsReply = record {
  reply_op = refl;
  ethernet = refl;
  mac_len = refl;
  cookie = refl;
  exchange = refl;
  client = refl;
  parsed = said;
  options = offered_options;
  kind = refl;
  mask = refl;
  router = refl;
  server = refl;
  address = refl;
  given = λ z. omega (arith, ap Ipv4Addr.o0 z);
}

-- The acknowledgement of the same server.
abbrev pub acknowledged : Fields
acknowledged = record offered {
  options =
      53 ∷ 1 ∷ 5 ∷ 54 ∷ 4 ∷ 10 ∷ 0 ∷ 2 ∷ 2 ∷ 1 ∷ 4 ∷ 255 ∷ 255 ∷ 255 ∷ 0 ∷ 3 ∷ 4 ∷ 10 ∷ 0 ∷ 2 ∷ 2
      ∷ 255 ∷ [];
}

pub acknowledged-IsLayout : IsLayout acknowledged
acknowledged-IsLayout = record {
  id_size = refl;
  middle_size = refl;
  yiaddr_size = refl;
  servers_size = refl;
  chaddr_size = refl;
  names_size = refl;
  cookie_size = refl;
}

acknowledged_options :
    parse_options acknowledged.options ≡ ok (record said { message_type = some ack })
unfolding parse_options
acknowledged_options = refl

pub acknowledged-IsReply : IsReply acknowledged 0x12345678 client ack lease
acknowledged-IsReply = record {
  reply_op = refl;
  ethernet = refl;
  mac_len = refl;
  cookie = refl;
  exchange = refl;
  client = refl;
  parsed = record said { message_type = some ack };
  options = acknowledged_options;
  kind = refl;
  mask = refl;
  router = refl;
  server = refl;
  address = refl;
  given = offered-IsReply.given;
}
