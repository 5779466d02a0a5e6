-- ===== src/Net/Dhcp/Total.antt =====
-- `DHCPBinding::from_message` never panics (net/src/dhcp.rs).
use conc_os.Common.{
  ℕ, ◌≡◌, ◌≢◌, sym, List, [], ◌∷◌, ◌++◌, ◌||◌, ◌!=◌, not, Option, some, panic, reject_if-total,
  bind-total, arith, length, dec_le, replicate, ◌∙◌,
}
use conc_os.Common.Slices.{u32_from_be_slice, bytes_eq}
use conc_os.Net.Addr.{MacAddress, Ipv4Addr, mac_bytes, addr_eq, unspecified}
use conc_os.Net.Dhcp.{
  DhcpError, DhcpMessageType, parse_options, from_message, is_type, bind_address, missing_data,
  magic_cookie, not_a_reply, xid_mismatch, bad_magic_cookie, client_mac_mismatch,
  wrong_message_type,
}
use conc_os.Net.Dhcp.Options.{parse_options_sound, rejected, accepted}
use conc_os.Net.Dhcp.Replies.{Fields, IsLayout, read_reply, from_message-message}
use conc_os.Net.Dhcp.Cut.{cut}
use conc_os.Net.Dhcp.Accepted.{from_message_short}

word_total : (xs : List ℕ) → length xs ≡ 4 → u32_from_be_slice {E = DhcpError} xs ≢ panic
word_total (a ∷ b ∷ c ∷ d ∷ []) h = λ z. cc
word_total xs h = absurd (omega arith)

options_total : (xs : List ℕ) → parse_options xs ≢ panic
options_total xs = elim (parse_options_sound xs) [
  | rejected r ↦ λ z. cc
  | accepted items junk p v shape said r ↦ λ z. cc
]

bind_address_total :
    (mask router server : Option Ipv4Addr) (yiaddr : List ℕ)
    → length yiaddr ≡ 4
    → bind_address mask router server yiaddr ≢ panic
bind_address_total (some mask) (some router) (some server) (a0 ∷ a1 ∷ a2 ∷ a3 ∷ []) h =
    reject_if-total (addr_eq (record { o0 = a0; o1 = a1; o2 = a2; o3 = a3 }) unspecified)
      missing_data _ (λ z. cc)
bind_address_total (some mask) (some router) (some server) yiaddr h = absurd (omega arith)
bind_address_total mask router server yiaddr h = λ z. cc

read_reply_total :
    (f : Fields) (xid : ℕ) (mac : MacAddress) (expected : DhcpMessageType)
    → IsLayout f
    → read_reply f xid mac expected ≢ panic
unfolding read_reply
read_reply_total f xid mac expected v =
    reject_if-total (f.op != 2 || (f.htype != 1 || f.hlen != 6)) not_a_reply _ (
      reject_if-total (not (bytes_eq f.cookie magic_cookie)) bad_magic_cookie _ (
        bind-total (u32_from_be_slice f.id) _ (word_total f.id v.id_size) (λ word.
          reject_if-total (word != xid) xid_mismatch _ (
            reject_if-total (not (bytes_eq f.chaddr (mac_bytes mac ++ replicate 10 0)))
              client_mac_mismatch _
              (bind-total (parse_options f.options) _ (options_total f.options) (λ parsed.
                reject_if-total (not (is_type parsed.message_type expected)) wrong_message_type _ (
                  bind_address_total parsed.subnet_mask parsed.router parsed.server_id f.yiaddr
                    v.yiaddr_size)))))))

-- On any bytes, `from_message` gives a binding or an error, and never panics.
pub from_message_total :
    (msg : List ℕ) (xid : ℕ) (mac : MacAddress) (expected : DhcpMessageType)
    → from_message msg xid mac expected ≢ panic
from_message_total msg xid mac expected = elim (dec_le 240 (length msg)) [
  | yes long ↦
      let (f, v, shape) = cut msg long in
      λ z.
        read_reply_total f xid mac expected v
          (sym (from_message-message f v xid mac expected) ∙ rw (sym shape) z)
  | no small ↦ λ z. cc (from_message_short msg xid mac expected (omega arith))
]
