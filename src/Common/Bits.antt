-- ===== src/Common/Bits.antt =====
-- The bit operations of the source as arithmetic: `|` of disjoint fields, `&` with a low mask,
-- and tables over a byte.
use Prim.Native.Nat.{
  ℕ, zero, suc, ◌+◌, ◌-◌, ◌*◌, ◌/◌, ◌%◌, ◌^◌, ◌≤◌, ◌<◌, min, max, bit_and, bit_or, digits,
  bit_and-bitwise, bit_or-bitwise, bit_xor, bit_xor-bitwise, differ,
}
use mathlib.Core.Path.{◌≡◌, refl, sym, ap}
use mathlib.Core.Bool.{Bool, true, ◌&&◌}
use native.Mathlib.Nat.{pow-suc, one-le-pow}
use native.Mathlib.Omega.{arith}

-- Any two amounts of fuel that cover the first number give the same digits.
module _ (rest : ℕ → ℕ) (op : ℕ → ℕ → ℕ) where
  enough_digits :
      (fuel more left right : ℕ)
      → left ≤ fuel
      → fuel ≤ more
      → digits rest op more left right ≡ digits rest op fuel left right
  enough_digits zero zero zero right p q = refl
  enough_digits zero (suc more) zero right p q = refl
  enough_digits (suc fuel) (suc more) zero right p q = refl
  enough_digits (suc fuel) (suc more) (suc left) right p q =
      rw (enough_digits fuel more (suc left / 2) (right / 2) (omega arith) (omega arith))
  enough_digits _ _ left right p q = absurd (omega arith)

pub or_digit :
    (left right : ℕ)
    → bit_or left right ≡ bit_or (left / 2) (right / 2) * 2 + max (left % 2) (right % 2)
or_digit zero right = omega (arith, bit_or-bitwise 0 right, bit_or-bitwise 0 (right / 2))
or_digit (suc left) right = omega (
  arith,
  bit_or-bitwise (suc left) right,
  bit_or-bitwise (suc left / 2) (right / 2),
  enough_digits (λ y. y) max (suc left / 2) left (suc left / 2) (right / 2) (omega arith)
      (omega arith),
)

pub and_digit :
    (left right : ℕ)
    → bit_and left right ≡ bit_and (left / 2) (right / 2) * 2 + min (left % 2) (right % 2)
and_digit zero right = omega (arith, bit_and-bitwise 0 right, bit_and-bitwise 0 (right / 2))
and_digit (suc left) right = omega (
  arith,
  bit_and-bitwise (suc left) right,
  bit_and-bitwise (suc left / 2) (right / 2),
  enough_digits (λ y. 0) min (suc left / 2) left (suc left / 2) (right / 2) (omega arith)
      (omega arith),
)

pub xor_digit :
    (left right : ℕ)
    → bit_xor left right ≡ bit_xor (left / 2) (right / 2) * 2 + differ (left % 2) (right % 2)
xor_digit zero right = ground (arith, bit_xor-bitwise 0 right, bit_xor-bitwise 0 (right / 2))
xor_digit (suc left) right = omega (
  arith,
  bit_xor-bitwise (suc left) right,
  bit_xor-bitwise (suc left / 2) (right / 2),
  enough_digits (λ y. y) differ (suc left / 2) left (suc left / 2) (right / 2) (omega arith)
      (omega arith),
)

differ_bit : (a b : ℕ) → a < 2 → b < 2 → (differ a b < 2) × (differ a b ≡ 0 → a ≡ b)
differ_bit zero b h k = (k, λ e. sym e)
differ_bit (suc zero) zero h k = (omega arith, λ e. e)
differ_bit (suc zero) (suc zero) h k = (omega arith, λ e. refl)
differ_bit (suc zero) (suc (suc b)) h k = absurd (omega arith)
differ_bit (suc (suc a)) b h k = absurd (omega arith)

-- `^` of numbers of `k` bits has `k` bits, and is zero only for equal numbers.
pub xor_word :
    (k left right : ℕ)
    → left < 2 ^ k
    → right < 2 ^ k
    → (bit_xor left right < 2 ^ k) × (bit_xor left right ≡ 0 → left ≡ right)
xor_word zero zero zero p q = (omega arith, λ e. refl)
xor_word zero (suc left) right p q = absurd (omega arith)
xor_word zero zero (suc right) p q = absurd (omega arith)
xor_word (suc k) left right p q =
    let half =
      xor_word k (left / 2) (right / 2) (omega (arith, pow-suc 2 k)) (omega (arith, pow-suc 2 k)) in
    let bit = differ_bit (left % 2) (right % 2) (omega arith) (omega arith) in
    (
      omega (arith, pow-suc 2 k, half.0, bit.0, xor_digit left right),
      λ e.
          let upper = half.1 (omega (arith, e, xor_digit left right)) in
          let lower = bit.1 (omega (arith, e, xor_digit left right)) in omega (arith, upper, lower),
    )

differ_cancel : (a b c : ℕ) → a < 2 → b < 2 → c < 2 → differ a c ≡ differ b c → a ≡ b
differ_cancel zero zero c h k l e = refl
differ_cancel zero (suc zero) zero h k l e = e
differ_cancel zero (suc zero) (suc zero) h k l e = sym e
differ_cancel (suc zero) zero zero h k l e = e
differ_cancel (suc zero) zero (suc zero) h k l e = sym e
differ_cancel (suc zero) (suc zero) c h k l e = refl
differ_cancel a b c h k l e = absurd (omega arith)

differ_comm : (a b : ℕ) → a < 2 → b < 2 → differ a b ≡ differ b a
differ_comm zero zero h k = refl
differ_comm zero (suc b) h k = refl
differ_comm (suc a) zero h k = refl
differ_comm (suc zero) (suc zero) h k = refl
differ_comm a b h k = absurd (omega arith)

pub xor_comm : (k a b : ℕ) → a < 2 ^ k → b < 2 ^ k → bit_xor a b ≡ bit_xor b a
xor_comm zero a b h l = let p : a ≡ 0 = omega arith in let q : b ≡ 0 = omega arith in rw (p, q)
xor_comm (suc k) a b h l = omega (
  arith,
  xor_digit a b,
  xor_digit b a,
  differ_comm (a % 2) (b % 2) (omega arith) (omega arith),
  xor_comm k (a / 2) (b / 2) (omega (arith, pow-suc 2 k)) (omega (arith, pow-suc 2 k)),
)

-- `^` with a fixed word loses nothing of the other one.
pub xor_cancel :
    (k a b c : ℕ) → a < 2 ^ k → b < 2 ^ k → c < 2 ^ k → bit_xor a c ≡ bit_xor b c → a ≡ b
xor_cancel zero a b c h l m e = omega arith
xor_cancel (suc k) a b c h l m e =
    let low = (differ_bit (a % 2) (c % 2) (omega arith) (omega arith)).0 in
    let low' = (differ_bit (b % 2) (c % 2) (omega arith) (omega arith)).0 in
    let upper =
      xor_cancel k (a / 2) (b / 2) (c / 2) (omega (arith, pow-suc 2 k)) (omega (arith, pow-suc 2 k))
        (omega (arith, pow-suc 2 k)) (omega (arith, e, low, low', xor_digit a c, xor_digit b c)) in
    let lower =
      differ_cancel (a % 2) (b % 2) (c % 2) (omega arith) (omega arith) (omega arith)
        (omega (arith, e, low, low', xor_digit a c, xor_digit b c)) in
    omega (arith, upper, lower)

pub zero_right : (n left : ℕ) → left ≤ n → (bit_or left 0 ≡ left) × (bit_and left 0 ≡ 0)
zero_right n zero h = (refl, refl)
zero_right zero (suc left) h = absurd (omega arith)
zero_right (suc n) (suc left) h =
    let half = zero_right n (suc left / 2) (omega arith) in
    (omega (arith, or_digit (suc left) 0, half), omega (arith, and_digit (suc left) 0, half))

double_shift : (q k : ℕ) → q * 2 ^ suc k ≡ q * 2 ^ k * 2
double_shift q k = omega (arith, ap (λ (t : ℕ). q * t) (pow-suc 2 k))

-- `(high << k) | low` is a sum when `low` fits `k` bits.
pub or_fields : (k high low : ℕ) → low < 2 ^ k → bit_or (high * 2 ^ k) low ≡ high * 2 ^ k + low
or_fields zero high low fits = ground (arith, zero_right high high)
or_fields (suc k) high low fits =
    let halves = or_fields k high (low / 2) (omega (arith, pow-suc 2 k)) in
    ground (arith, halves, double_shift high k, or_digit (high * 2 ^ suc k) low)

low_field : (k high low : ℕ) → low < 2 ^ k → bit_and (high * 2 ^ k + low) (2 ^ k - 1) ≡ low
low_field zero high low fits = ground (arith, zero_right (high * 2 ^ 0 + low) (high * 2 ^ 0 + low))
low_field (suc k) high low fits =
    let halves = low_field k high (low / 2) (omega (arith, pow-suc 2 k)) in
    let word = high * 2 ^ suc k + low in
    ground (arith, halves, double_shift high k, pow-suc 2 k, and_digit word (2 ^ suc k - 1))

-- A mask of `k` low bits is the remainder by `2 ^ k`.
pub and_mask : (k left : ℕ) → bit_and left (2 ^ k - 1) ≡ left % 2 ^ k
and_mask k left = ground (arith, one-le-pow k 2, low_field k (left / 2 ^ k) (left % 2 ^ k))

-- A test that every number under a bound passes, run by evaluation.
unfoldable pub holds_below : (ℕ → Bool) → ℕ → Bool
holds_below test zero = true
holds_below test (suc bound) = holds_below test bound && test bound

module _ (test : ℕ → Bool) where
  pub holds_below-get : (bound v : ℕ) → v < bound → holds_below test bound ≡ true → test v ≡ true
  unfolding holds_below
  holds_below-get zero v small passed = absurd (omega arith)
  holds_below-get (suc bound) v small passed = ground (arith, holds_below-get bound v)
