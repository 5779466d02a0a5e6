-- ===== src/Net/Checksum.antt =====
-- net/src/ipv4.rs, `internet_checksum`. The accumulator is a `u32`, with its wrap-around.
mod Fold
pub mod Verify
use conc_os.Common.{
  ℕ, zero, suc, ◌+◌, ◌-◌, ◌*◌, ◌/◌, ◌%◌, ◌^◌, ◌<◌, List, [], ◌∷◌, lt_wf, dec_lt, dite, arith,
}
use mathlib.Core.WellFounded.{Acc}

-- The inner loop, over `part.chunks(2)`. A last chunk of one byte is padded with zero.
unfoldable pub add_part : ℕ → List ℕ → ℕ
add_part sum [] = sum
add_part sum (a ∷ []) = (sum + a * 256) % 2 ^ 32
add_part sum (a ∷ b ∷ rest) = add_part ((sum + (a * 256 + b)) % 2 ^ 32) rest

-- The outer loop.
unfoldable pub add_parts : ℕ → List (List ℕ) → ℕ
add_parts sum [] = sum
add_parts sum (part ∷ parts) = add_parts (add_part sum part) parts

fold_shrinks : (sum : ℕ) → 0 < sum / 2 ^ 16 → sum % 2 ^ 16 + sum / 2 ^ 16 < sum
fold_shrinks sum h = omega arith

-- `while (sum >> 16) > 0`. The sum falls in each round, so there is no fuel.
unfoldable pub fold_loop : (sum : ℕ) → Acc ◌<◌ sum → ℕ
unfolding fold_shrinks
fold_loop sum (Acc.intro _ smaller) =
    dite (dec_lt 0 (sum / 2 ^ 16))
      (λ carry. fold_loop (sum % 2 ^ 16 + sum / 2 ^ 16) (smaller _ (fold_shrinks sum carry)))
      (λ _. sum)

unfoldable pub fold_carries : ℕ → ℕ
unfolding fold_loop lt_wf dec_lt
fold_carries sum = fold_loop sum (lt_wf.apply sum)

-- `!(sum as u16)`
unfoldable pub internet_checksum : List (List ℕ) → ℕ
unfolding fold_carries add_parts add_part
internet_checksum parts = 2 ^ 16 - 1 - fold_carries (add_parts 0 parts) % 2 ^ 16
