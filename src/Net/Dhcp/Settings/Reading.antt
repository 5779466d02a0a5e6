-- ===== src/Net/Dhcp/Settings/Reading.antt =====
-- `parse_options` (net/src/dhcp.rs) on options that are written by their meaning.
use conc_os.Common.{
  ℕ, zero, suc, ◌+◌, ◌%◌, ◌≤◌, ◌<◌, ◌≡◌, ◌≢◌, ◌⊎◌, refl, ◌∙◌, ap, List, [], ◌∷◌, ◌++◌, none, some,
  Result, ok, err, ◌>>=◌, All, length, length-append, append_assoc, ◌==◌, ◌!=◌, ◌||◌, ne→==, true,
  false, arith,
}
use conc_os.Net.Addr.{Ipv4Addr, octets}
use conc_os.Net.Dhcp.{
  Parsed, DhcpError, DhcpMessageType, discover, offer, request, decline, ack, nak, release, inform,
  invalid_tlv, no_options, type_try_from, parse_type, parse_addr, read_option, options_loop,
  parse_options,
}
use conc_os.Net.Dhcp.Options.{loop_pad, loop_tlv, loop_end}
use conc_os.Net.Dhcp.Settings.{
  Setting, padding, mask, routers, server, kind, other, code_of, all_octets, tlv, write_setting,
  write_settings, IsSetting, says_from, says, Malformed, bad_mask, bad_routers, bad_server,
  bad_size, bad_kind,
}

parse_addr_size : (value : List ℕ) → length value ≢ 4 → parse_addr value ≡ err invalid_tlv
unfolding parse_addr
parse_addr_size [] h = refl
parse_addr_size (a ∷ []) h = refl
parse_addr_size (a ∷ b ∷ []) h = refl
parse_addr_size (a ∷ b ∷ c ∷ []) h = refl
parse_addr_size (a ∷ b ∷ c ∷ d ∷ []) h = absurd (h refl)
parse_addr_size (a ∷ b ∷ c ∷ d ∷ e ∷ xs) h = refl

parse_type_code : (t : DhcpMessageType) → parse_type (code_of t ∷ []) ≡ some t
unfolding parse_type type_try_from
parse_type_code discover = refl
parse_type_code offer = refl
parse_type_code request = refl
parse_type_code decline = refl
parse_type_code ack = refl
parse_type_code nak = refl
parse_type_code release = refl
parse_type_code inform = refl

parse_type_size : (value : List ℕ) → length value ≢ 1 → parse_type value ≡ none
unfolding parse_type
parse_type_size [] h = refl
parse_type_size (a ∷ []) h = absurd (h refl)
parse_type_size (a ∷ b ∷ xs) h = refl

parse_type_range : (n : ℕ) → (n ≡ 0) ⊎ (8 < n) → parse_type (n ∷ []) ≡ none
unfolding parse_type type_try_from
parse_type_range n h = ground arith

length-all_octets : (addrs : List Ipv4Addr) → length (all_octets addrs) % 4 ≡ 0
length-all_octets [] = refl
length-all_octets (a ∷ addrs) = omega (arith, length-all_octets addrs)

-- What the `match` on the tag does with each option.
read_routers :
    (a : Ipv4Addr) (more : List Ipv4Addr) (parsed : Parsed)
    → read_option 3 (all_octets (a ∷ more)) parsed ≡ ok (record parsed { router = some a })
unfolding read_option parse_addr
read_routers a more parsed =
    let xs = all_octets (a ∷ more) in
    let size : 4 ≤ length xs = omega arith in
    let whole : (length xs == 0 || length xs % 4 != 0) ≡ false =
      ground (arith, length-all_octets (a ∷ more)) in
    rw whole refl

read_other :
    (tag : ℕ) (value : List ℕ) (parsed : Parsed)
    → tag ≢ 1
    → tag ≢ 3
    → tag ≢ 53
    → tag ≢ 54
    → read_option tag value parsed ≡ ok parsed
unfolding read_option
read_other tag value parsed e f g h =
    rw (ne→== tag 1 e, ne→== tag 3 f, ne→== tag 54 h, ne→== tag 53 g) refl

read_kind :
    (t : DhcpMessageType) (parsed : Parsed)
    → read_option 53 (code_of t ∷ []) parsed ≡ ok (record parsed { message_type = some t })
unfolding read_option
read_kind t parsed = rw (parse_type_code t) refl

read_mask :
    (a : Ipv4Addr) (parsed : Parsed)
    → read_option 1 (octets a) parsed ≡ ok (record parsed { subnet_mask = some a })
unfolding read_option parse_addr
read_mask a parsed = refl

read_server :
    (a : Ipv4Addr) (parsed : Parsed)
    → read_option 54 (octets a) parsed ≡ ok (record parsed { server_id = some a })
unfolding read_option parse_addr
read_server a parsed = refl

read_option-Malformed :
    (tag : ℕ) (value : List ℕ) (parsed : Parsed)
    → Malformed tag value
    → read_option tag value parsed ≡ err invalid_tlv
unfolding read_option
read_option-Malformed tag value parsed (bad_mask e h) = rw (e, parse_addr_size value h) refl
read_option-Malformed tag value parsed (bad_server e h) = rw (e, parse_addr_size value h) refl
read_option-Malformed tag value parsed (bad_size e h) = rw (e, parse_type_size value h) refl
read_option-Malformed tag value parsed (bad_kind n e f h) = rw (e, f, parse_type_range n h) refl
read_option-Malformed tag value parsed (bad_routers e h) =
    let bad : (length value == 0 || length value % 4 != 0) ≡ true = ground arith in rw (e, bad) refl

write_setting_pos : (s : Setting) → 1 ≤ length (write_setting s)
write_setting_pos padding = omega arith
write_setting_pos (mask a) = omega arith
write_setting_pos (routers a more) = omega arith
write_setting_pos (server a) = omega arith
write_setting_pos (kind t) = omega arith
write_setting_pos (other tag value) = omega arith

-- One round of the loop, on a tag with its value.
loop_option :
    (fuel tag : ℕ) (value rest bytes : List ℕ) (old new : Parsed)
    → tag ≢ 0
    → tag ≢ 255
    → read_option tag value old ≡ ok new
    → options_loop (suc fuel) ((tlv tag value ++ rest) ++ bytes) old
      ≡ options_loop fuel (rest ++ bytes) new
loop_option fuel tag value rest bytes old new t u read =
    rw (append_assoc value rest bytes, loop_tlv fuel tag value (rest ++ bytes) old t u, read)

-- One round of the loop, on an option that is written by its meaning.
module _ (fuel : ℕ) (rest bytes : List ℕ) (old : Parsed) where
  abbrev Round : Setting → Type 0
  Round s =
      options_loop (suc fuel) ((write_setting s ++ rest) ++ bytes) old
      ≡ options_loop fuel (rest ++ bytes) (says_from old (s ∷ []))

  round_mask : (a : Ipv4Addr) → Round (mask a)
  round_mask a =
      loop_option fuel 1 (octets a) rest bytes old (record old { subnet_mask = some a })
        (omega arith) (omega arith) (read_mask a old)

  round_routers : (a : Ipv4Addr) (more : List Ipv4Addr) → Round (routers a more)
  round_routers a more =
      loop_option fuel 3 (all_octets (a ∷ more)) rest bytes old (record old { router = some a })
        (omega arith) (omega arith) (read_routers a more old)

  round_server : (a : Ipv4Addr) → Round (server a)
  round_server a =
      loop_option fuel 54 (octets a) rest bytes old (record old { server_id = some a })
        (omega arith) (omega arith) (read_server a old)

  round_kind : (t : DhcpMessageType) → Round (kind t)
  round_kind t =
      loop_option fuel 53 (code_of t ∷ []) rest bytes old (record old { message_type = some t })
        (omega arith) (omega arith) (read_kind t old)

  round_other : (tag : ℕ) (value : List ℕ) → IsSetting (other tag value) → Round (other tag value)
  round_other tag value (z, u, e, f, g, i) =
      loop_option fuel tag value rest bytes old old z u (read_other tag value old e f g i)

  loop_setting : (s : Setting) → IsSetting s → Round s
  loop_setting padding v = loop_pad fuel (rest ++ bytes) old
  loop_setting (mask a) v = round_mask a
  loop_setting (routers a more) v = round_routers a more
  loop_setting (server a) v = round_server a
  loop_setting (kind t) v = round_kind t
  loop_setting (other tag value) v = round_other tag value v

-- `after` is what the loop makes of the bytes that follow the options.
module _ (bytes : List ℕ) (after : Parsed → Result DhcpError Parsed)
    (ends : (fuel : ℕ) (q : Parsed)
      → length bytes ≤ fuel
      → options_loop fuel bytes q ≡ after q) where
  loop_settings :
      (fuel : ℕ) (settings : List Setting) (old : Parsed)
      → All IsSetting settings
      → length (write_settings settings) + length bytes ≤ fuel
      → options_loop fuel (write_settings settings ++ bytes) old ≡ after (says_from old settings)
  loop_settings fuel [] old v h = ends fuel old (omega arith)
  loop_settings zero (s ∷ settings) old v h = absurd (
      omega (arith, write_setting_pos s, length-append (write_setting s) (write_settings settings)))
  loop_settings (suc fuel) (s ∷ settings) old v h =
      loop_setting fuel (write_settings settings) bytes old s v.0
      ∙ loop_settings fuel settings (says_from old (s ∷ [])) v.1 (
          omega
            (arith, write_setting_pos s, length-append (write_setting s) (write_settings settings)))

Malformed-tag : {tag : ℕ} {value : List ℕ} → Malformed tag value → (tag ≢ 0) × (tag ≢ 255)
Malformed-tag (bad_mask e h) = ((λ z. omega arith), (λ z. omega arith))
Malformed-tag (bad_routers e h) = ((λ z. omega arith), (λ z. omega arith))
Malformed-tag (bad_server e h) = ((λ z. omega arith), (λ z. omega arith))
Malformed-tag (bad_size e h) = ((λ z. omega arith), (λ z. omega arith))
Malformed-tag (bad_kind n e f h) = ((λ z. omega arith), (λ z. omega arith))

loop_closed :
    (junk : List ℕ) (fuel : ℕ) (q : Parsed)
    → length (255 ∷ junk) ≤ fuel
    → options_loop fuel (255 ∷ junk) q ≡ ok q
loop_closed junk zero q h = absurd (omega arith)
loop_closed junk (suc fuel) q h = loop_end fuel junk q

loop-Malformed :
    (tag : ℕ) (value junk : List ℕ)
    → Malformed tag value
    → (fuel : ℕ) (q : Parsed) → length (tag ∷ length value ∷ (value ++ junk)) ≤ fuel
    → options_loop fuel (tag ∷ length value ∷ (value ++ junk)) q ≡ err invalid_tlv
loop-Malformed tag value junk bad zero q h = absurd (omega arith)
loop-Malformed tag value junk bad (suc fuel) q h =
    let (t, u) = Malformed-tag bad in
    loop_tlv fuel tag value junk q t u
    ∙ ap (λ r. r >>= options_loop fuel junk) (read_option-Malformed tag value q bad)

-- Options written as RFC 2132 writes them and closed by an End option are read as what they say,
-- whatever follows: of each kind the last one counts, of several routers in an option the first, and
-- padding and options with other tags say nothing. Followed instead by an option whose value does
-- not fit its tag, which is a mask or a server's identifier that is not four bytes, routers that are
-- none or not a whole number of addresses, or a message type that is not one byte from 1 to 8, they
-- are refused as malformed.
pub parse_options-write :
    (settings : List Setting) (junk : List ℕ)
    → All IsSetting settings
    → (parse_options (write_settings settings ++ (255 ∷ junk)) ≡ ok (says settings))
      × ((tag : ℕ) (value : List ℕ)
          → Malformed tag value
          → parse_options (write_settings settings ++ (tlv tag value ++ junk)) ≡ err invalid_tlv)
unfolding parse_options
parse_options-write settings junk v = (
  loop_settings (255 ∷ junk) ok (loop_closed junk)
      (length (write_settings settings ++ (255 ∷ junk))) settings no_options v
      (omega (arith, length-append (write_settings settings) (255 ∷ junk))),
  (λ tag value bad.
      loop_settings (tlv tag value ++ junk) (λ q. err invalid_tlv)
        (loop-Malformed tag value junk bad)
        (length (write_settings settings ++ (tlv tag value ++ junk))) settings no_options v
        (omega (arith, length-append (write_settings settings) (tlv tag value ++ junk)))),
)
