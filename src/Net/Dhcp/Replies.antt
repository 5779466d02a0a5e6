-- ===== src/Net/Dhcp/Replies.antt =====
-- The fields of a reply, and the tests that `DHCPBinding::from_message` makes on them
-- (net/src/dhcp.rs).
use conc_os.Common.{
  ap, ℕ, ◌+◌, ◌≡◌, refl, List, [], ◌∷◌, ◌++◌, Result, ok, arith, ◌>>=◌, ◌>>◌, reject_if, length,
  length-append, append_assoc, not, ◌||◌, ◌!=◌, le→ltb, replicate,
}
use conc_os.Common.Slices.{range, range_part, range_rest, bytes_eq, u32_from_be_slice}
use conc_os.Net.Addr.{MacAddress, mac_bytes}
use conc_os.Net.Dhcp.{
  DhcpError, DhcpMessageType, DhcpBinding, parse_options, from_message, is_type, bind_address,
  magic_cookie, not_a_reply, xid_mismatch, bad_magic_cookie, client_mac_mismatch,
  wrong_message_type,
}

-- A message by its fields: what stands before and after the offered address, the hardware address
-- field, and the server and file names.
pub record Fields : Type 0 where
  pub op : ℕ
  pub htype : ℕ
  pub hlen : ℕ
  pub hops : ℕ
  pub id : List ℕ
  pub middle : List ℕ
  pub yiaddr : List ℕ
  pub servers : List ℕ
  pub chaddr : List ℕ
  pub names : List ℕ
  pub cookie : List ℕ
  pub options : List ℕ

-- The sizes of the fields in RFC 2131.
pub record IsLayout (f : Fields) : Type 0 where
  pub id_size : length f.id ≡ 4
  pub middle_size : length f.middle ≡ 8
  pub yiaddr_size : length f.yiaddr ≡ 4
  pub servers_size : length f.servers ≡ 8
  pub chaddr_size : length f.chaddr ≡ 16
  pub names_size : length f.names ≡ 192
  pub cookie_size : length f.cookie ≡ 4

abbrev pub message : Fields → List ℕ
message f =
    f.op
    ∷ f.htype
    ∷ f.hlen
    ∷ f.hops
    ∷ (f.id
        ++ (f.middle
            ++ (f.yiaddr ++ (f.servers ++ (f.chaddr ++ (f.names ++ (f.cookie ++ f.options)))))))

-- The tests in their order, on the fields.
unfoldable pub read_reply : Fields → ℕ → MacAddress → DhcpMessageType → Result DhcpError DhcpBinding
unfolding parse_options is_type
read_reply f xid mac expected = do
  reject_if (f.op != 2 || (f.htype != 1 || f.hlen != 6)) not_a_reply
  reject_if (not (bytes_eq f.cookie magic_cookie)) bad_magic_cookie
  word ← u32_from_be_slice f.id
  reject_if (word != xid) xid_mismatch
  reject_if (not (bytes_eq f.chaddr (mac_bytes mac ++ replicate 10 0))) client_mac_mismatch
  parsed ← parse_options f.options
  reject_if (not (is_type parsed.message_type expected)) wrong_message_type
  bind_address parsed.subnet_mask parsed.router parsed.server_id f.yiaddr

module _ (f : Fields) (v : IsLayout f) where
  abbrev start : List ℕ
  start = f.op ∷ f.htype ∷ f.hlen ∷ f.hops ∷ []

  id_range : range {E = DhcpError} (message f) 4 8 ≡ ok f.id
  id_range = range_part start f.id _ 4 8 refl (omega (arith, v.id_size))

  yiaddr_range : range {E = DhcpError} (message f) 16 20 ≡ ok f.yiaddr
  yiaddr_range = simp append_assoc at (
      range_part {E = DhcpError} (start ++ (f.id ++ f.middle)) f.yiaddr
        (f.servers ++ (f.chaddr ++ (f.names ++ (f.cookie ++ f.options)))) 16 20
        (omega (arith, length-append f.id f.middle, v.id_size, v.middle_size))
        (omega (arith, v.yiaddr_size)))

  chaddr_range : range {E = DhcpError} (message f) 28 44 ≡ ok f.chaddr
  chaddr_range = simp append_assoc at (
      range_part {E = DhcpError} (start ++ (f.id ++ (f.middle ++ (f.yiaddr ++ f.servers)))) f.chaddr
        (f.names ++ (f.cookie ++ f.options)) 28 44
        (omega (
          arith,
          length-append f.id (f.middle ++ (f.yiaddr ++ f.servers)),
          length-append f.middle (f.yiaddr ++ f.servers),
          length-append f.yiaddr f.servers,
          v.id_size,
          v.middle_size,
          v.yiaddr_size,
          v.servers_size,
        ))
        (omega (arith, v.chaddr_size)))

  abbrev header : List ℕ
  header = f.id ++ (f.middle ++ (f.yiaddr ++ (f.servers ++ (f.chaddr ++ f.names))))

  header_size : length header ≡ 232
  header_size = omega (
    arith,
    length-append f.id (f.middle ++ (f.yiaddr ++ (f.servers ++ (f.chaddr ++ f.names)))),
    length-append f.middle (f.yiaddr ++ (f.servers ++ (f.chaddr ++ f.names))),
    length-append f.yiaddr (f.servers ++ (f.chaddr ++ f.names)),
    length-append f.servers (f.chaddr ++ f.names),
    length-append f.chaddr f.names,
    v.id_size,
    v.middle_size,
    v.yiaddr_size,
    v.servers_size,
    v.chaddr_size,
    v.names_size,
  )

  whole : message f ≡ start ++ (header ++ (f.cookie ++ f.options))
  whole = simp append_assoc

  pub message_size : length (message f) ≡ 240 + length f.options
  message_size = omega (
    arith,
    ap length whole,
    length-append header (f.cookie ++ f.options),
    length-append f.cookie f.options,
    header_size,
    v.cookie_size,
  )

  cookie_range : range {E = DhcpError} (message f) 236 240 ≡ ok f.cookie
  cookie_range = simp append_assoc at (
      range_part {E = DhcpError} (start ++ header) f.cookie f.options 236 240
        (omega (arith, header_size)) (omega (arith, v.cookie_size)))

  options_range : range {E = DhcpError} (message f) 240 (length (message f)) ≡ ok f.options
  options_range = simp append_assoc at (
      range_rest {E = DhcpError} (start ++ (header ++ f.cookie)) f.options 240 (length (message f))
        (omega (arith, length-append header f.cookie, header_size, v.cookie_size))
        (omega (arith, message_size)))

  pub from_message-message :
      (xid : ℕ) (mac : MacAddress) (expected : DhcpMessageType)
      → from_message (message f) xid mac expected ≡ read_reply f xid mac expected
  unfolding from_message read_reply
  from_message-message xid mac expected = rw (
    options_range,
    le→ltb (length (message f)) 240 (omega (arith, message_size)),
    cookie_range,
    id_range,
    chaddr_range,
    yiaddr_range,
  )
