-- ===== src/Common/Slices.antt =====
-- Indexing and slicing as Rust does it, `kernel`'s and `net`'s byte slices being lists of numbers:
-- out of range is a panic, or `None` from `get`. Also net/src/utils.rs.
use mathlib.Core.Bool.{Bool, true, false, ◌&&◌}
use Prim.Native.Nat.{ℕ, zero, suc, ◌+◌, ◌-◌, ◌*◌, ◌/◌, ◌%◌, ◌^◌, ◌≤◌, ◌<◌}
use mathlib.Core.Path.{◌≡◌, refl, ap}
use mathlib.Core.List.{List, [], ◌∷◌, ◌++◌, append-nil}
use mathlib.Core.Option.{Option, none, some}
use mathlib.Core.Option
use native.Mathlib.Omega.{arith}
use conc_os.Common.Tests.{ltb, le→ltb, if◌then◌else◌}
use conc_os.Common.Lists.{
  length, take, drop, length-append, length-take, length-drop, take-append-drop, take-append_length,
  drop-append_length, get_elem?, All,
}
use conc_os.Common.Results.{Result, ok, panic, or_panic}
use mathlib.Core.Path.{ap₂}
use conc_os.Common.Tests.{◌==◌}

abbrev pub IsByte : ℕ → Type 0
IsByte b = b < 256

abbrev pub IsBytes : List ℕ → Type 0
IsBytes = All IsByte

module _ {ℓ} {A : Type ℓ} where
  abbrev pub take? : ℕ → List A → Option (List A)
  take? zero xs = some []
  take? (suc n) [] = none
  take? (suc n) (x ∷ xs) = Option.map (◌∷◌ x) (take? n xs)

  abbrev pub drop? : ℕ → List A → Option (List A)
  drop? zero xs = some xs
  drop? (suc n) [] = none
  drop? (suc n) (x ∷ xs) = drop? n xs

  -- `xs.get(a..b)`
  abbrev pub get_range? : List A → ℕ → ℕ → Option (List A)
  get_range? xs a b =
      if ltb b a then none else elim (drop? a xs) [ none ↦ none | some ys ↦ take? (b - a) ys ]

  -- `xs[a..b]`
  abbrev pub range {κ} : {E : Type κ} → List A → ℕ → ℕ → Result E (List A)
  range xs a b = or_panic (get_range? xs a b)

  -- `xs[i]`
  abbrev pub index {κ} : {E : Type κ} → List A → ℕ → Result E A
  index xs i = or_panic (get_elem? xs i)

-- `from_be_slice`: the wrong length is a panic.
abbrev pub u8_from_be_slice {κ} : {E : Type κ} → List ℕ → Result E ℕ
u8_from_be_slice (a ∷ []) = ok a
u8_from_be_slice _ = panic

abbrev pub u16_from_be_slice {κ} : {E : Type κ} → List ℕ → Result E ℕ
u16_from_be_slice (a ∷ b ∷ []) = ok (a * 256 + b)
u16_from_be_slice _ = panic

abbrev pub u32_from_be_slice {κ} : {E : Type κ} → List ℕ → Result E ℕ
u32_from_be_slice (a ∷ b ∷ c ∷ d ∷ []) = ok (((a * 256 + b) * 256 + c) * 256 + d)
u32_from_be_slice _ = panic

-- `to_be_bytes` of a `u16` and of a `u32`.
abbrev pub u16_to_be_bytes : ℕ → List ℕ
u16_to_be_bytes v = (v / 256 % 256) ∷ (v % 256) ∷ []

abbrev pub u32_to_be_bytes : ℕ → List ℕ
u32_to_be_bytes v = (v / 2 ^ 24 % 256) ∷ (v / 2 ^ 16 % 256) ∷ (v / 2 ^ 8 % 256) ∷ (v % 256) ∷ []

module _ {ℓ} {A : Type ℓ} where
  pub drop?-eq-drop : (n : ℕ) (xs : List A) → n ≤ length xs → drop? n xs ≡ some (drop n xs)
  drop?-eq-drop zero xs h = refl
  drop?-eq-drop (suc n) [] h = absurd (omega arith)
  drop?-eq-drop (suc n) (x ∷ xs) h = drop?-eq-drop n xs (omega arith)

  pub take?-eq-take : (n : ℕ) (xs : List A) → n ≤ length xs → take? n xs ≡ some (take n xs)
  take?-eq-take zero xs h = refl
  take?-eq-take (suc n) [] h = absurd (omega arith)
  take?-eq-take (suc n) (x ∷ xs) h = ap (Option.map (◌∷◌ x)) (take?-eq-take n xs (omega arith))

  -- A slice whose ends are those of a part of the list.
  pub get_range?_part :
      (front part back : List A) (i j : ℕ)
      → i ≡ length front
      → j ≡ i + length part
      → get_range? (front ++ (part ++ back)) i j ≡ some part
  get_range?_part front part back i j hi hj =
      let total = length-append front (part ++ back) in
      let after = length-append part back in
      let found : drop? i (front ++ (part ++ back)) ≡ some (part ++ back) = rw (
        hi,
        drop?-eq-drop (length front) (front ++ (part ++ back)) (omega (arith, total)),
        drop-append_length front (part ++ back),
      ) in
      let count : j - i ≡ length part = omega (arith) in
      rw (
        found,
        count,
        take?-eq-take (length part) (part ++ back) (omega (arith, after)),
        take-append_length part back,
        le→ltb j i (omega arith),
      )

  take?_short : (n : ℕ) (xs : List A) → length xs < n → take? n xs ≡ none
  take?_short zero xs h = absurd (omega arith)
  take?_short (suc n) [] h = refl
  take?_short (suc n) (x ∷ xs) h = ap (Option.map (◌∷◌ x)) (take?_short n xs (omega arith))

  -- A slice whose end is out of range.
  pub get_range?_short :
      (front back : List A) (i n : ℕ)
      → i ≡ length front
      → length back < n
      → get_range? (front ++ back) i (i + n) ≡ none
  get_range?_short front back i n hi h =
      let found : drop? i (front ++ back) ≡ some back = rw (
        hi,
        drop?-eq-drop (length front) (front ++ back) (omega (arith, length-append front back)),
        drop-append_length front back,
      ) in
      let count : i + n - i ≡ n = omega arith in
      rw (found, count, take?_short n back h, le→ltb (i + n) i (omega arith))

  pub range_part {κ} :
      {E : Type κ} (front part back : List A) (i j : ℕ)
      → i ≡ length front
      → j ≡ i + length part
      → range {E = E} (front ++ (part ++ back)) i j ≡ ok part
  range_part front part back i j hi hj = rw (get_range?_part front part back i j hi hj)

  -- A slice up to the end of the list.
  pub range_rest {κ} :
      {E : Type κ} (front back : List A) (i j : ℕ)
      → i ≡ length front
      → j ≡ i + length back
      → range {E = E} (front ++ back) i j ≡ ok back
  range_rest {E = E} front back i j hi hj =
      rw (append-nil back) at (range_part {E = E} front back [] i j hi hj)

  pub take_front : (front back : List A) (n : ℕ) → n ≡ length front → take n (front ++ back) ≡ front
  take_front front back n h = rw h (take-append_length front back)

  pub drop_front : (front back : List A) (n : ℕ) → n ≡ length front → drop n (front ++ back) ≡ back
  drop_front front back n h = rw h (drop-append_length front back)

-- A list of at least `a + b` elements in three parts.
pub split_at {ℓ} :
    {A : Type ℓ} (a b : ℕ) (xs : List A)
    → a + b ≤ length xs
    → (xs ≡ take a xs ++ (take b (drop a xs) ++ drop b (drop a xs)))
      × (length (take a xs) ≡ a)
      × (length (take b (drop a xs)) ≡ b)
split_at a b xs h = (
  rw (take-append-drop b (drop a xs), take-append-drop a xs),
  length-take a xs (omega arith),
  length-take b (drop a xs) (omega (arith, length-drop a xs)),
)

-- The two bytes of a 16-bit word give it back.
pub u16_bytes : (v : ℕ) → v < 2 ^ 16 → v / 256 % 256 * 256 + v % 256 ≡ v
u16_bytes v h = omega arith

-- And a word made of two bytes gives them back.
pub bytes_u16 :
    (hi lo : ℕ)
    → hi < 256
    → lo < 256
    → ((hi * 256 + lo) / 256 % 256 ≡ hi) × ((hi * 256 + lo) % 256 ≡ lo)
bytes_u16 hi lo h k = omega arith

-- The `==` of two slices of bytes.
abbrev pub bytes_eq : List ℕ → List ℕ → Bool
bytes_eq [] [] = true
bytes_eq (x ∷ xs) (y ∷ ys) = x == y && bytes_eq xs ys
bytes_eq _ _ = false

pub bytes_eq_sound : (xs ys : List ℕ) → bytes_eq xs ys ≡ true → xs ≡ ys
bytes_eq_sound [] [] h = refl
bytes_eq_sound [] (y ∷ ys) h = absurd (ground arith)
bytes_eq_sound (x ∷ xs) [] h = absurd (ground arith)
bytes_eq_sound (x ∷ xs) (y ∷ ys) h =
    let parts : (x ≡ y) × (bytes_eq xs ys ≡ true) = ground arith in
    ap₂ ◌∷◌ parts.0 (bytes_eq_sound xs ys parts.1)

pub bytes_eq_refl : (xs : List ℕ) → bytes_eq xs xs ≡ true
bytes_eq_refl [] = refl
bytes_eq_refl (x ∷ xs) = let rest = bytes_eq_refl xs in ground arith
