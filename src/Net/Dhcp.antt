-- ===== src/Net/Dhcp.antt =====
-- net/src/dhcp.rs: the messages that a DHCP client sends, and the replies that it reads.
pub mod Options
pub mod Settings
pub mod Replies
mod Cut
pub mod Accepted
pub mod Total
pub mod Messages
mod Examples
use conc_os.Common.{
  ℕ, zero, suc, ◌+◌, ◌*◌, ◌%◌, List, [], ◌∷◌, ◌++◌, Bool, true, false, ◌||◌, not, Option, none,
  some, Result, ok, err, panic, ◌>>=◌, ◌>>◌, reject_if, ok_or, ltb, ◌==◌, ◌!=◌, if◌then◌else◌,
  length, take, drop, replicate, get_elem?,
}
use conc_os.Common.Slices.{
  range, index, get_range?, u32_from_be_slice, u32_to_be_bytes, u16_to_be_bytes,
}
use conc_os.Net.Addr.{
  MacAddress, Ipv4Addr, mac_bytes, octets, addr_from_slice, addr_eq, unspecified,
}
use conc_os.Common.Slices.{bytes_eq}

abbrev pub client_port : ℕ
client_port = 68

abbrev pub server_port : ℕ
server_port = 67

abbrev pub fixed_len : ℕ
fixed_len = 240

abbrev pub message_len : ℕ
message_len = 300

abbrev pub magic_cookie : List ℕ
magic_cookie = 0x63 ∷ 0x82 ∷ 0x53 ∷ 0x63 ∷ []

abbrev pub op_boot_request : ℕ
op_boot_request = 1

abbrev pub op_boot_reply : ℕ
op_boot_reply = 2

abbrev pub htype_ethernet : ℕ
htype_ethernet = 1

abbrev pub hlen_ethernet : ℕ
hlen_ethernet = 6

abbrev pub flag_broadcast : ℕ
flag_broadcast = 0x8000

abbrev pub opt_pad : ℕ
opt_pad = 0

abbrev pub opt_subnet_mask : ℕ
opt_subnet_mask = 1

abbrev pub opt_router : ℕ
opt_router = 3

abbrev pub opt_requested_addr : ℕ
opt_requested_addr = 50

abbrev pub opt_message_type : ℕ
opt_message_type = 53

abbrev pub opt_server_id : ℕ
opt_server_id = 54

abbrev pub opt_parameter_request_list : ℕ
opt_parameter_request_list = 55

abbrev pub opt_end : ℕ
opt_end = 255

abbrev pub parameter_request : List ℕ
parameter_request = opt_parameter_request_list ∷ 2 ∷ opt_subnet_mask ∷ opt_router ∷ []

pub data DhcpError : Type 0 where
  too_short not_a_reply bad_magic_cookie xid_mismatch client_mac_mismatch : DhcpError
  invalid_tlv wrong_message_type missing_data : DhcpError

pub data DhcpMessageType : Type 0 where
  discover offer request decline ack nak release inform : DhcpMessageType

-- `DHCPMessageType as u8`
unfoldable pub type_number : DhcpMessageType → ℕ
type_number discover = 1
type_number offer = 2
type_number request = 3
type_number decline = 4
type_number ack = 5
type_number nak = 6
type_number release = 7
type_number inform = 8

-- `TryFrom<u8> for DHCPMessageType`, whose error carries nothing
unfoldable pub type_try_from : ℕ → Option DhcpMessageType
type_try_from value =
    if value == 1
    then some discover
    else if value == 2
    then some offer
    else if value == 3
    then some request
    else if value == 4
    then some decline
    else if value == 5
    then some ack
    else if value == 6
    then some nak
    else if value == 7
    then some release
    else if value == 8
    then some inform
    else none

pub record DhcpBinding : Type 0 where
  pub client_addr : Ipv4Addr
  pub subnet_mask : Ipv4Addr
  pub gateway : Ipv4Addr
  pub server_id : Ipv4Addr

pub record Parsed : Type 0 where
  pub message_type : Option DhcpMessageType
  pub subnet_mask : Option Ipv4Addr
  pub router : Option Ipv4Addr
  pub server_id : Option Ipv4Addr

-- `Options::default()`
abbrev pub no_options : Parsed
no_options = record { message_type = none; subnet_mask = none; router = none; server_id = none }

-- `msg[at..at + bytes.len()].copy_from_slice(bytes)`, used only where the range is inside `msg`
abbrev copy_at : List ℕ → ℕ → List ℕ → List ℕ
copy_at msg at bytes = take at msg ++ (bytes ++ drop (at + length bytes) msg)

-- `build_message`
unfoldable pub build_message : MacAddress → ℕ → List ℕ → List ℕ
build_message client_mac xid options =
    let msg0 = replicate message_len 0 in
    let msg1 = copy_at msg0 0 (op_boot_request ∷ []) in
    let msg2 = copy_at msg1 1 (htype_ethernet ∷ []) in
    let msg3 = copy_at msg2 2 (hlen_ethernet ∷ []) in
    let msg4 = copy_at msg3 4 (u32_to_be_bytes xid) in
    let msg5 = copy_at msg4 10 (u16_to_be_bytes flag_broadcast) in
    let msg6 = copy_at msg5 28 (mac_bytes client_mac) in
    let msg7 = copy_at msg6 236 magic_cookie in copy_at msg7 fixed_len options

-- The options of `build_discover` and of `build_request`.
abbrev pub discover_options : List ℕ
discover_options = opt_message_type ∷ 1 ∷ 1 ∷ (parameter_request ++ (opt_end ∷ []))

abbrev pub request_options : DhcpBinding → List ℕ
request_options b =
    (opt_message_type ∷ 1 ∷ 3 ∷ [])
    ++ ((opt_requested_addr ∷ 4 ∷ octets b.client_addr)
        ++ ((opt_server_id ∷ 4 ∷ octets b.server_id) ++ (parameter_request ++ (opt_end ∷ []))))

unfoldable pub build_discover : MacAddress → ℕ → List ℕ
unfolding build_message
build_discover client_mac xid = build_message client_mac xid discover_options

unfoldable pub build_request : MacAddress → ℕ → DhcpBinding → List ℕ
unfolding build_message
build_request client_mac xid b = build_message client_mac xid (request_options b)

-- `parse_addr`
unfoldable pub parse_addr : List ℕ → Result DhcpError Ipv4Addr
parse_addr (a ∷ b ∷ c ∷ d ∷ []) = ok (record { o0 = a; o1 = b; o2 = c; o3 = d })
parse_addr _ = err invalid_tlv

-- `value.first().filter(|_| value.len() == 1).and_then(|ty| try_from(*ty).ok())`
unfoldable pub parse_type : List ℕ → Option DhcpMessageType
unfolding type_try_from
parse_type (ty ∷ []) = type_try_from ty
parse_type _ = none

-- The `match tag` of `parse_options`.
unfoldable pub read_option : ℕ → List ℕ → Parsed → Result DhcpError Parsed
unfolding parse_addr parse_type
read_option tag value parsed =
    if tag == opt_subnet_mask
    then (do a ← parse_addr value; ok (record parsed { subnet_mask = some a }))
    else if tag == opt_router
    then (do
      reject_if (length value == 0 || length value % 4 != 0) invalid_tlv
      first ← range value 0 4
      a ← parse_addr first
      ok (record parsed { router = some a }))
    else if tag == opt_server_id
    then (do a ← parse_addr value; ok (record parsed { server_id = some a }))
    else if tag == opt_message_type
    then (do t ← ok_or (parse_type value) invalid_tlv; ok (record parsed { message_type = some t }))
    else ok parsed

-- The loop of `parse_options`. The list is `options[cur..]`, so `cur + 1` is index 1 of it. Running
-- out of fuel is a panic, which `parse_options` is proved not to reach.
unfoldable pub options_loop : ℕ → List ℕ → Parsed → Result DhcpError Parsed
options_loop fuel [] parsed = err invalid_tlv
options_loop zero (tag ∷ rest) parsed = panic
options_loop (suc fuel) (tag ∷ rest) parsed =
    let skip = options_loop fuel rest parsed in
    let read = (do
      len ← ok_or (get_elem? (tag ∷ rest) 1) invalid_tlv
      value ← ok_or (get_range? (tag ∷ rest) 2 (2 + len)) invalid_tlv
      parsed' ← read_option tag value parsed
      options_loop fuel (drop (2 + len) (tag ∷ rest)) parsed') in
    if tag == opt_pad then skip else if tag == opt_end then ok parsed else read

-- `parse_options`. Each round takes a byte at least.
unfoldable pub parse_options : List ℕ → Result DhcpError Parsed
unfolding options_loop read_option
parse_options options = options_loop (length options) options no_options

-- `message_type == Some(expected)`, where a message type is compared by its number
unfoldable pub is_type : Option DhcpMessageType → DhcpMessageType → Bool
unfolding type_number
is_type none expected = false
is_type (some t) expected = type_number t == type_number expected

-- `let (Some(..), Some(..), Some(..)) = .. else { return Err(MissingData) }` and what follows it.
abbrev pub bind_address :
    Option Ipv4Addr → Option Ipv4Addr → Option Ipv4Addr → List ℕ → Result DhcpError DhcpBinding
bind_address (some mask) (some router) (some server) yiaddr = do
  a ← addr_from_slice yiaddr
  reject_if (addr_eq a unspecified) missing_data
  ok (record { client_addr = a; subnet_mask = mask; gateway = router; server_id = server })
bind_address _ _ _ yiaddr = err missing_data

-- `DHCPBinding::from_message`
unfoldable pub from_message :
    List ℕ → ℕ → MacAddress → DhcpMessageType → Result DhcpError DhcpBinding
unfolding parse_options is_type
from_message msg xid client_mac expected = do
  reject_if (ltb (length msg) fixed_len) too_short
  op ← index msg 0
  htype ← index msg 1
  hlen ← index msg 2
  reject_if (op != op_boot_reply || (htype != htype_ethernet || hlen != hlen_ethernet)) not_a_reply
  cookie ← range msg 236 240
  reject_if (not (bytes_eq cookie magic_cookie)) bad_magic_cookie
  id_bytes ← range msg 4 8
  id ← u32_from_be_slice id_bytes
  reject_if (id != xid) xid_mismatch
  chaddr ← range msg 28 44
  reject_if (not (bytes_eq chaddr (mac_bytes client_mac ++ replicate 10 0))) client_mac_mismatch
  rest ← range msg fixed_len (length msg)
  parsed ← parse_options rest
  yiaddr ← range msg 16 20
  reject_if (not (is_type parsed.message_type expected)) wrong_message_type
  bind_address parsed.subnet_mask parsed.router parsed.server_id yiaddr

-- `DHCPBinding::from_offer`, `DHCPBinding::from_ack`
unfoldable pub from_offer : List ℕ → ℕ → MacAddress → Result DhcpError DhcpBinding
unfolding from_message
from_offer msg xid client_mac = from_message msg xid client_mac offer

unfoldable pub from_ack : List ℕ → ℕ → MacAddress → Result DhcpError DhcpBinding
unfolding from_message
from_ack msg xid client_mac = from_message msg xid client_mac ack
