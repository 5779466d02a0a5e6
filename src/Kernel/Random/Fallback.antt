-- ===== src/Kernel/Random/Fallback.antt =====
-- The fallback generator never reaches its fixed point zero.
use conc_os.Common.Bits.{xor_word, or_digit, zero_right}
use conc_os.Kernel.Random.{xorshift, next}
use conc_os.Common.{
  zero, suc, max, refl, ◌+◌, ℕ_discrete, ==_iff, ne→==, ℕ, ◌*◌, ◌/◌, ◌%◌, ◌^◌, ◌<◌, ◌≡◌, arith,
}
use conc_os.Common.{bit_or}
use conc_os.Common.{◌≢◌}
use conc_os.Common.{bit_xor}

-- A word other than zero differs from each of its shifts.
left13 : (x : ℕ) → x < 2 ^ 64 → x ≡ x * 2 ^ 13 % 2 ^ 64 → x ≡ 0
left13 x h e = omega arith

left17 : (x : ℕ) → x < 2 ^ 64 → x ≡ x * 2 ^ 17 % 2 ^ 64 → x ≡ 0
left17 x h e = omega arith

right7 : (x : ℕ) → x ≡ x / 2 ^ 7 → x ≡ 0
right7 x e = omega arith

-- Two words that differ have a `^` that is a word and not zero.
mixed : (x y : ℕ) → x < 2 ^ 64 → y < 2 ^ 64 → x ≢ y → (bit_xor x y < 2 ^ 64) × (bit_xor x y ≢ 0)
mixed x y h k ne = let (small, zero_only) = xor_word 64 x y h k in (small, λ e. ne (zero_only e))

xorshift_lem : (x : ℕ) → x < 2 ^ 64 → x ≢ 0 → (xorshift x < 2 ^ 64) × (xorshift x ≢ 0)
unfolding xorshift
xorshift_lem x h ne =
    let y = bit_xor x (x * 2 ^ 13 % 2 ^ 64) in
    let z = bit_xor y (y / 2 ^ 7) in
    let (hy, ney) = mixed x (x * 2 ^ 13 % 2 ^ 64) h (omega arith) (λ e. ne (left13 x h e)) in
    let (hz, nez) = mixed y (y / 2 ^ 7) hy (omega (arith, hy)) (λ e. ney (right7 y e)) in
    mixed z (z * 2 ^ 17 % 2 ^ 64) hz (omega arith) (λ e. nez (left17 z hz e))

max_one : (n : ℕ) → n < 2 → max n 1 ≡ 1
max_one zero h = refl
max_one (suc zero) h = refl
max_one (suc (suc n)) h = absurd (omega arith)

or_one : (stamp : ℕ) → bit_or stamp 1 ≡ stamp / 2 * 2 + 1
or_one stamp =
    ground (
      arith,
      or_digit stamp 1,
      zero_right (stamp / 2) (stamp / 2),
      max_one (stamp % 2) (omega arith),
    )

-- Whatever the time stamp, the state of the fallback generator is a 64-bit word other than zero
-- after every step: it never reaches the fixed point of xorshift.
pub next-ne-zero :
    (stamp state : ℕ)
    → stamp < 2 ^ 64
    → state < 2 ^ 64
    → (next stamp state < 2 ^ 64) × (next stamp state ≢ 0)
unfolding next
next-ne-zero stamp state h k = elim (ℕ_discrete state 0) [
  | yes e ↦ rw ((==_iff state 0).1 e) (
      xorshift_lem (bit_or stamp 1) (omega (arith, or_one stamp))
        (λ z. omega (arith, or_one stamp, z)))
  | no ne ↦ rw (ne→== state 0 ne) (xorshift_lem state k ne)
]
