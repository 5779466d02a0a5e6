-- ===== src/Net/Dhcp/Options.antt =====
-- The options of a DHCP message (net/src/dhcp.rs): their grammar, and the loop that reads them.
use conc_os.Common.{
  true, false, ◌||◌, ◌!=◌, ◌%◌, take-append-drop, length-take, ne→==, if◌then◌else◌, ◌>>◌, ◌==◌,
  some, none, Option, ℕ, zero, suc, ◌+◌, ◌<◌, ◌≤◌, ◌≡◌, ◌≢◌, refl, List, [], ◌∷◌, ◌++◌, Result, ok,
  err, length, arith, ap, drop, ◌>>=◌, All,
}
use conc_os.Common.Slices.{get_range?_part, get_range?_short, range, take?-eq-take, drop_front}
use conc_os.Net.Dhcp.{Parsed, DhcpError, no_options, read_option, options_loop, parse_options}
use conc_os.Net.Dhcp.{parse_addr}
use conc_os.Net.Dhcp.{invalid_tlv}
use conc_os.Common.{append_assoc}
use conc_os.Common.{◌⊎◌}
use conc_os.Net.Dhcp.{Ipv4Addr}
use conc_os.Common.{Option}
use conc_os.Common.{Bool}
use conc_os.Common.{inr}
use conc_os.Common.{inl}
use conc_os.Net.Dhcp.{DhcpMessageType}
use conc_os.Common.{ne→==}
use conc_os.Common.{ok_or}
use conc_os.Net.Dhcp.{parse_type}
use conc_os.Common.{reject_if}
use conc_os.Common.{take}
use conc_os.Common.{Bool-cases}
use conc_os.Common.{dec_le}
use conc_os.Common.{subst}
use conc_os.Common.{length-drop}
use conc_os.Common.{ℕ_discrete}
use conc_os.Common.{ap₂}

-- An option as RFC 2131 has it: padding, or a tag with the bytes of its value.

pub data Item : Type 0 where
  pad : Item
  tlv : ℕ → List ℕ → Item

abbrev pub encode_item : Item → List ℕ
encode_item pad = 0 ∷ []
encode_item (tlv tag value) = tag ∷ length value ∷ value

abbrev pub encode : List Item → List ℕ
encode [] = []
encode (x ∷ xs) = encode_item x ++ encode xs

abbrev pub IsItem : Item → Type 0
IsItem pad = Unit
IsItem (tlv tag value) = (tag ≢ 0) × (tag ≢ 255)

-- What a list of options says, each read in turn.
abbrev pub interpret : List Item → Parsed → Result DhcpError Parsed
unfolding read_option
interpret [] parsed = ok parsed
interpret (pad ∷ xs) parsed = interpret xs parsed
interpret (tlv tag value ∷ xs) parsed = read_option tag value parsed >>= interpret xs

pub loop_pad :
    (fuel : ℕ) (rest : List ℕ) (parsed : Parsed)
    → options_loop (suc fuel) (0 ∷ rest) parsed ≡ options_loop fuel rest parsed
unfolding options_loop
loop_pad fuel rest parsed = refl

pub loop_tlv :
    (fuel tag : ℕ) (value rest : List ℕ) (parsed : Parsed)
    → tag ≢ 0
    → tag ≢ 255
    → options_loop (suc fuel) (tag ∷ length value ∷ (value ++ rest)) parsed
      ≡ (read_option tag value parsed >>= options_loop fuel rest)
unfolding options_loop
loop_tlv fuel tag value rest parsed h k =
    let after : drop (2 + length value) (tag ∷ length value ∷ (value ++ rest)) ≡ rest =
      drop_front (tag ∷ length value ∷ value) rest (2 + length value) (omega arith) in
    rw (
      get_range?_part (tag ∷ length value ∷ []) value rest 2 (2 + length value) refl refl,
      after,
      ne→== tag 0 h,
      ne→== tag 255 k,
    )

pub loop_end :
    (fuel : ℕ) (junk : List ℕ) (parsed : Parsed)
    → options_loop (suc fuel) (255 ∷ junk) parsed ≡ ok parsed
unfolding options_loop
loop_end fuel junk parsed = refl

-- What one option says: nothing wrong, or that it is malformed.
pub data Read (r : Result DhcpError Parsed) : Type 0 where
  fine : (p : Parsed) → r ≡ ok p → Read r
  wrong : r ≡ err invalid_tlv → Read r

parse_addr_read :
    (value : List ℕ)
    → (parse_addr value ≡ err invalid_tlv) ⊎ ((a : Ipv4Addr) × (parse_addr value ≡ ok a))
unfolding parse_addr
parse_addr_read (a ∷ b ∷ c ∷ d ∷ []) = inr (_, refl)
parse_addr_read [] = inl refl
parse_addr_read (a ∷ []) = inl refl
parse_addr_read (a ∷ b ∷ []) = inl refl
parse_addr_read (a ∷ b ∷ c ∷ []) = inl refl
parse_addr_read (a ∷ b ∷ c ∷ d ∷ e ∷ xs) = inl refl

module _ where
  if-Read : (b : Bool) {x y : Result DhcpError Parsed} → Read x → Read y → Read (if b then x else y)
  if-Read true hx hy = hx
  if-Read false hx hy = hy

  addr-Read : (value : List ℕ) (f : Ipv4Addr → Parsed) → Read (parse_addr value >>= λ a. ok (f a))
  addr-Read value f = elim (parse_addr_read value) [
    | inl e ↦ wrong (rw e)
    | inr h ↦ fine (f h.0) (rw (h.1))
  ]

  type-Read :
      (o : Option DhcpMessageType) (f : DhcpMessageType → Parsed)
      → Read (ok_or o invalid_tlv >>= λ t. ok (f t))
  type-Read none f = wrong refl
  type-Read (some t) f = fine (f t) refl

  router-Read :
      (value : List ℕ) (f : Ipv4Addr → Parsed)
      → Read (do
        reject_if (length value == 0 || length value % 4 != 0) invalid_tlv
        first ← range value 0 4
        a ← parse_addr first
        ok (f a))
  router-Read value f = elim (Bool-cases (length value == 0 || length value % 4 != 0)) [
    | inl t ↦ wrong (rw t)
    | inr t ↦
        let large : 4 ≤ length value = ground arith in
        rw (t, take?-eq-take 4 value large) (addr-Read (take 4 value) f)
  ]

read_option-Read :
    (tag : ℕ) (value : List ℕ) (parsed : Parsed) → Read (read_option tag value parsed)
unfolding read_option
read_option-Read tag value parsed = if-Read (tag == 1) (addr-Read value _) (
    if-Read (tag == 3) (router-Read value _) (
      if-Read (tag == 54) (addr-Read value _)
        (if-Read (tag == 53) (type-Read (parse_type value) _) (fine parsed refl))))

-- What the options field is read as: the options it holds, up to an End option, or malformed.
pub data Parse (options : List ℕ) (parsed : Parsed) (r : Result DhcpError Parsed) : Type 0 where
  rejected : r ≡ err invalid_tlv → Parse options parsed r
  accepted :
      (items : List Item) (junk : List ℕ) (p : Parsed)
      → All IsItem items
      → options ≡ encode items ++ (255 ∷ junk)
      → interpret items parsed ≡ ok p
      → r ≡ ok p
      → Parse options parsed r

accept_tlv :
    (fuel tag : ℕ) (value rest : List ℕ) (parsed : Parsed)
    → ((q : Parsed) → Parse rest q (options_loop fuel rest q))
    → tag ≢ 0
    → tag ≢ 255
    → Parse
        (tag ∷ length value ∷ (value ++ rest))
        parsed
        (options_loop (suc fuel) (tag ∷ length value ∷ (value ++ rest)) parsed)
unfolding interpret
accept_tlv fuel tag value rest parsed later t u =
    let step = loop_tlv fuel tag value rest parsed t u in
    elim (read_option-Read tag value parsed) [
      | wrong e ↦ rejected (rw (step, e))
      | fine q e ↦ elim (later q) [
        | rejected r ↦ rejected (rw (step, e, r))
        | accepted items junk p v shape said r ↦
            let bytes = append_assoc value (encode items) (255 ∷ junk) in
            accepted (tlv tag value ∷ items) junk p ((t, u), v) (rw (bytes, shape)) (rw (e, said))
              (rw (step, e, r))
      ]
    ]

loop_truncated :
    (fuel tag len : ℕ) (back : List ℕ) (parsed : Parsed)
    → tag ≢ 0
    → tag ≢ 255
    → length back < len
    → options_loop (suc fuel) (tag ∷ len ∷ back) parsed ≡ err invalid_tlv
unfolding options_loop
loop_truncated fuel tag len back parsed t u h =
    rw (get_range?_short (tag ∷ len ∷ []) back 2 len refl h, ne→== tag 0 t, ne→== tag 255 u)

loop_dangling :
    (fuel tag : ℕ) (parsed : Parsed)
    → tag ≢ 0
    → tag ≢ 255
    → options_loop (suc fuel) (tag ∷ []) parsed ≡ err invalid_tlv
unfolding options_loop
loop_dangling fuel tag parsed t u = rw (ne→== tag 0 t, ne→== tag 255 u)

loop_empty : (fuel : ℕ) (parsed : Parsed) → options_loop fuel [] parsed ≡ err invalid_tlv
unfolding options_loop
loop_empty fuel parsed = refl

module _ (fuel : ℕ)
    (later : (xs : List ℕ) (q : Parsed) → length xs ≤ fuel → Parse xs q (options_loop fuel xs q))
    (parsed : Parsed) where
  loop_tagged :
      (tag : ℕ) (rest : List ℕ)
      → length rest ≤ fuel
      → tag ≢ 0
      → tag ≢ 255
      → Parse (tag ∷ rest) parsed (options_loop (suc fuel) (tag ∷ rest) parsed)
  loop_tagged tag [] h t u = rejected (loop_dangling fuel tag parsed t u)
  loop_tagged tag (len ∷ back) h t u = elim (dec_le len (length back)) [
    | no k ↦ rejected (loop_truncated fuel tag len back parsed t u (omega arith))
    | yes k ↦
        let rest : (q : Parsed) → Parse (drop len back) q (options_loop fuel (drop len back) q) =
          λ q. later (drop len back) q (omega (arith, length-drop len back)) in
        subst (λ s. Parse (tag ∷ s) parsed (options_loop (suc fuel) (tag ∷ s) parsed))
          (ap₂ ◌∷◌ (length-take len back k) (take-append-drop len back))
          (accept_tlv fuel tag (take len back) (drop len back) parsed rest t u)
  ]

  loop_padded :
      (rest : List ℕ)
      → length rest ≤ fuel
      → Parse (0 ∷ rest) parsed (options_loop (suc fuel) (0 ∷ rest) parsed)
  unfolding interpret
  loop_padded rest h = elim (later rest parsed h) [
    | rejected r ↦ rejected (rw (loop_pad fuel rest parsed, r))
    | accepted items junk p v shape said r ↦
        accepted (pad ∷ items) junk p (tt, v) (ap (◌∷◌ 0) shape) said
          (rw (loop_pad fuel rest parsed, r))
  ]

  loop_ended :
      (junk : List ℕ) → Parse (255 ∷ junk) parsed (options_loop (suc fuel) (255 ∷ junk) parsed)
  unfolding interpret
  loop_ended junk = accepted [] junk parsed tt refl refl (loop_end fuel junk parsed)

loop_sound :
    (fuel : ℕ) (options : List ℕ) (parsed : Parsed)
    → length options ≤ fuel
    → Parse options parsed (options_loop fuel options parsed)
loop_sound fuel [] parsed h = rejected (loop_empty fuel parsed)
loop_sound zero (tag ∷ rest) parsed h = absurd (omega arith)
loop_sound (suc fuel) (tag ∷ rest) parsed h =
    let later : (xs : List ℕ) (q : Parsed)
        → length xs ≤ fuel
        → Parse xs q (options_loop fuel xs q) =
      loop_sound fuel in
    elim (ℕ_discrete tag 0) [
      | yes z ↦ rw z (loop_padded fuel later parsed rest (omega arith))
      | no t ↦ elim (ℕ_discrete tag 255) [
        | yes z ↦ rw z (loop_ended fuel later parsed rest)
        | no u ↦ loop_tagged fuel later parsed tag rest (omega arith) t u
      ]
    ]

-- Any options field is read to the end: it never panics, nor runs out of fuel. It is either
-- malformed, or a run of options, an End option and anything after it, and what was read is then
-- what those options say.
pub parse_options_sound : (options : List ℕ) → Parse options no_options (parse_options options)
unfolding parse_options
parse_options_sound options = loop_sound (length options) options no_options (omega arith)
