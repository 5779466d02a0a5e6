-- ===== src/Net/Dhcp/Accepted.antt =====
-- The replies that `DHCPBinding::from_message` accepts (net/src/dhcp.rs).
use conc_os.Common.{
  sym, length, lt→ltb, ◌<◌, dec_le, List, refl, ==_iff, ◌∙◌, panic, [], ◌∷◌, Option, none, ap,
  ok-injective, reject_if-ok, err, ◌>>=◌, ◌>>◌, reject_if, not, ◌||◌, Result, Bool, ℕ, ◌≡◌, ◌≢◌,
  ◌++◌, some, ok, arith, ◌!=◌, replicate, true, false, Bool-cases, inl, inr,
}
use conc_os.Common.Slices.{bytes_eq, bytes_eq_sound, bytes_eq_refl, u32_from_be_slice}
use conc_os.Net.Addr.{
  MacAddress, Ipv4Addr, mac_bytes, octets, addr_eq, addr_eq_sound, addr_eq_refl, unspecified,
}
use conc_os.Net.Dhcp
use conc_os.Net.Dhcp.{
  type_try_from, type_number, too_short, Parsed, DhcpError, DhcpMessageType, DhcpBinding,
  parse_options, from_message, is_type, magic_cookie, bind_address, missing_data, DhcpError,
  not_a_reply, xid_mismatch, bad_magic_cookie, client_mac_mismatch, wrong_message_type,
}
use conc_os.Net.Dhcp.Cut.{cut}
use conc_os.Net.Dhcp.Replies.{Fields, IsLayout, message, read_reply, from_message-message}
use conc_os.Common.{subst}
use conc_os.Common.Slices.{bytes_eq}

-- A reply from which a client configures itself: it answers this exchange and this client, its
-- options have the expected message type and everything the binding takes from them, and the
-- address is one.
pub record IsReply (f : Fields) (xid : ℕ) (mac : MacAddress) (expected : DhcpMessageType)
    (b : DhcpBinding) : Type 0 where
  pub reply_op : f.op ≡ 2
  pub ethernet : f.htype ≡ 1
  pub mac_len : f.hlen ≡ 6
  pub cookie : f.cookie ≡ magic_cookie
  pub exchange : u32_from_be_slice {E = DhcpError} f.id ≡ ok xid
  pub client : f.chaddr ≡ mac_bytes mac ++ replicate 10 0
  pub parsed : Parsed
  pub options : parse_options f.options ≡ ok parsed
  pub kind : parsed.message_type ≡ some expected
  pub mask : parsed.subnet_mask ≡ some b.subnet_mask
  pub router : parsed.router ≡ some b.gateway
  pub server : parsed.server_id ≡ some b.server_id
  pub address : f.yiaddr ≡ octets b.client_addr
  pub given : b.client_addr ≢ unspecified

addr_eq-ne : (a b : Ipv4Addr) → a ≢ b → addr_eq a b ≡ false
addr_eq-ne a b h = elim (Bool-cases (addr_eq a b)) [
  | inl t ↦ absurd (h (addr_eq_sound a b t))
  | inr t ↦ t
]

is_type_refl : (t : DhcpMessageType) → is_type (some t) t ≡ true
unfolding is_type
is_type_refl t = ground arith

ne_refl : (n : ℕ) → (n != n) ≡ false
ne_refl n = ground arith

addr_ne : (a b : Ipv4Addr) → addr_eq a b ≡ false → a ≢ b
addr_ne a b h z =
    let same = subst (λ (x : Ipv4Addr). addr_eq x b ≡ false) z h in cc (same, addr_eq_refl b)

-- What a binding takes from the options and from the offered address.
bound :
    (mask router server : Option Ipv4Addr) (yiaddr : List ℕ) (b : DhcpBinding)
    → bind_address mask router server yiaddr ≡ ok b
    → (mask ≡ some b.subnet_mask)
      × (router ≡ some b.gateway)
      × (server ≡ some b.server_id)
      × (yiaddr ≡ octets b.client_addr)
      × (b.client_addr ≢ unspecified)
bound (some mask) (some router) (some server) (a0 ∷ a1 ∷ a2 ∷ a3 ∷ []) b h =
    let a : Ipv4Addr = record { o0 = a0; o1 = a1; o2 = a2; o3 = a3 } in
    let passed =
      reject_if-ok (addr_eq a unspecified) missing_data
        (ok (record { client_addr = a; subnet_mask = mask; gateway = router; server_id = server }))
        b h in
    let e = ok-injective (passed.1) in
    (
      ap (λ (x : DhcpBinding). some x.subnet_mask) e,
      ap (λ (x : DhcpBinding). some x.gateway) e,
      ap (λ (x : DhcpBinding). some x.server_id) e,
      ap (λ (x : DhcpBinding). octets x.client_addr) e,
      subst (λ (x : DhcpBinding). x.client_addr ≢ unspecified) e (addr_ne a unspecified passed.0),
    )
bound mask router server yiaddr b h = cc

-- The chain of `from_message` over its tests and the results of its parts.
module _ {A B : Type 0} (e1 e2 e3 e4 e5 : DhcpError) (t3 : ℕ → Bool) (t5 : A → Bool)
    (k : A → Result DhcpError B) where
  abbrev chain : Bool → Bool → Result DhcpError ℕ → Bool → Result DhcpError A → Result DhcpError B
  chain t1 t2 r t4 q = do
    reject_if t1 e1
    reject_if t2 e2
    word ← r
    reject_if (t3 word) e3
    reject_if t4 e4
    parsed ← q
    reject_if (t5 parsed) e5
    k parsed

  abbrev Passed : Bool → Bool → Result DhcpError ℕ → Bool → Result DhcpError A → B → Type 0
  Passed t1 t2 r t4 q b =
      (word : ℕ) × (parsed : A) × (t1 ≡ false)
      × (t2 ≡ false)
      × (r ≡ ok word)
      × (t3 word ≡ false)
      × (t4 ≡ false)
      × (q ≡ ok parsed)
      × (t5 parsed ≡ false)
      × (k parsed ≡ ok b)

  chain-Passed :
      (t1 t2 : Bool) (r : Result DhcpError ℕ) (t4 : Bool) (q : Result DhcpError A) (b : B)
      → chain t1 t2 r t4 q ≡ ok b
      → Passed t1 t2 r t4 q b
  chain-Passed false false (ok word) false (ok parsed) b h =
      let s3 = reject_if-ok (t3 word) e3 (reject_if (t5 parsed) e5 >> k parsed) b h in
      let s5 = reject_if-ok (t5 parsed) e5 (k parsed) b s3.1 in
      (word, parsed, refl, refl, refl, s3.0, refl, refl, s5.0, s5.1)
  chain-Passed true t2 r t4 q b h = cc
  chain-Passed false true r t4 q b h = cc
  chain-Passed false false (err e) t4 q b h = cc
  chain-Passed false false panic t4 q b h = cc
  chain-Passed false false (ok word) true q b h =
      absurd (cc ((reject_if-ok (t3 word) e3 (err e4) b h).1))
  chain-Passed false false (ok word) false (err e) b h =
      absurd (cc ((reject_if-ok (t3 word) e3 (err e) b h).1))
  chain-Passed false false (ok word) false panic b h =
      absurd (cc ((reject_if-ok (t3 word) e3 panic b h).1))

-- What each test says.
head_tests :
    (op htype hlen : ℕ)
    → (op != 2 || (htype != 1 || hlen != 6)) ≡ false
    → (op ≡ 2) × (htype ≡ 1) × (hlen ≡ 6)
head_tests op htype hlen h = ground arith

not-false : (b : Bool) → not b ≡ false → b ≡ true
not-false b h = ground arith

eq_of_ne : (m n : ℕ) → (m != n) ≡ false → m ≡ n
eq_of_ne m n h = ground arith

type_try_from-type_number : (t : DhcpMessageType) → type_try_from (type_number t) ≡ some t
unfolding type_try_from type_number
type_try_from-type_number Dhcp.discover = refl
type_try_from-type_number _ = refl

same_type : (s t : DhcpMessageType) → type_number s ≡ type_number t → s ≡ t
same_type s t h = cc (type_try_from-type_number s, type_try_from-type_number t, ap type_try_from h)

is_type_sound : (s : Option DhcpMessageType) (t : DhcpMessageType) → is_type s t ≡ true → s ≡ some t
unfolding is_type
is_type_sound none t h = cc
is_type_sound (some s) t h = ap some (same_type s t ((==_iff (type_number s) (type_number t)).0 h))

pub from_message_short :
    (msg : List ℕ) (xid : ℕ) (mac : MacAddress) (expected : DhcpMessageType)
    → length msg < 240
    → from_message msg xid mac expected ≡ err too_short
unfolding from_message
from_message_short msg xid mac expected h = rw (lt→ltb (length msg) 240 h)

module _ (f : Fields) (xid : ℕ) (mac : MacAddress) (expected : DhcpMessageType)
    (b : DhcpBinding) where
  reply_read : IsReply f xid mac expected b → read_reply f xid mac expected ≡ ok b
  unfolding read_reply
  reply_read r = rw (
    r.reply_op,
    r.ethernet,
    r.mac_len,
    r.cookie,
    r.exchange,
    ne_refl xid,
    r.client,
    r.options,
    r.kind,
    r.mask,
    r.router,
    r.server,
    r.address,
    is_type_refl expected,
    addr_eq-ne b.client_addr unspecified r.given,
    bytes_eq_refl (mac_bytes mac ++ replicate 10 0),
  )

  accepted-IsReply : read_reply f xid mac expected ≡ ok b → IsReply f xid mac expected b
  unfolding read_reply
  accepted-IsReply h =
      let p =
        chain-Passed not_a_reply bad_magic_cookie xid_mismatch client_mac_mismatch
          wrong_message_type (λ word. word != xid)
          (λ (q : Parsed). not (is_type q.message_type expected))
          (λ (q : Parsed). bind_address q.subnet_mask q.router q.server_id f.yiaddr)
          (f.op != 2 || (f.htype != 1 || f.hlen != 6)) (not (bytes_eq f.cookie magic_cookie))
          (u32_from_be_slice f.id) (not (bytes_eq f.chaddr (mac_bytes mac ++ replicate 10 0)))
          (parse_options f.options) b h in
      let made = bound p.1.subnet_mask p.1.router p.1.server_id f.yiaddr b p.9 in
      let first = head_tests f.op f.htype f.hlen p.2 in
      record {
        reply_op = first.0;
        ethernet = first.1;
        mac_len = first.2;
        cookie = bytes_eq_sound f.cookie magic_cookie (not-false _ p.3);
        exchange = p.4 ∙ ap ok (eq_of_ne p.0 xid p.5);
        client = bytes_eq_sound f.chaddr (mac_bytes mac ++ replicate 10 0) (not-false _ p.6);
        parsed = p.1;
        options = p.7;
        kind = is_type_sound p.1.message_type expected (not-false _ p.8);
        mask = made.0;
        router = made.1;
        server = made.2;
        address = made.3;
        given = made.4;
      }

-- A reply of the fields' sizes that answers this exchange and this client, with the expected
-- message type, the three options and an address in it, is accepted, and gives the binding that
-- its fields and its options name.
pub from_message-IsReply :
    (f : Fields) (xid : ℕ) (mac : MacAddress) (expected : DhcpMessageType) (b : DhcpBinding)
    → IsLayout f
    → IsReply f xid mac expected b
    → from_message (message f) xid mac expected ≡ ok b
from_message-IsReply f xid mac expected b v r =
    rw (from_message-message f v xid mac expected, reply_read f xid mac expected b r)

-- Whatever `from_message` accepts is a reply: its bytes are the fields of a message, of their sizes,
-- that answers this exchange and this client with the expected message type, the three options and
-- an address, and the binding is what those say.
pub from_message_accepts :
    (msg : List ℕ) (xid : ℕ) (mac : MacAddress) (expected : DhcpMessageType) (b : DhcpBinding)
    → from_message msg xid mac expected ≡ ok b
    → (f : Fields) × IsLayout f × (msg ≡ message f) × IsReply f xid mac expected b
from_message_accepts msg xid mac expected b h = elim (dec_le 240 (length msg)) [
  | yes long ↦
      let (f, v, shape) = cut msg long in
      let run : from_message (message f) xid mac expected ≡ ok b = rw (sym shape) h in
      (
        f,
        v,
        shape,
        accepted-IsReply f xid mac expected b
            (sym (from_message-message f v xid mac expected) ∙ run),
      )
  | no small ↦ absurd (cc (from_message_short msg xid mac expected (omega arith), h))
]
