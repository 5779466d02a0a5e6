-- ===== src/Net/Checksum/Verify.antt =====
-- The checksum against an independent description: the one's complement sum of 16-bit words.
use conc_os.Common.{ℕ, ◌+◌, ◌*◌, ◌%◌, ◌^◌, ◌≤◌, ◌<◌, ◌≡◌, ◌↔◌, List, [], ◌∷◌, length, arith}
use conc_os.Common.Slices.{IsBytes}
use conc_os.Net.Checksum.{add_part, add_parts, internet_checksum}
use conc_os.Net.Checksum.Fold.{fold_carries-IsFold}

-- The sum of the big-endian words of one part, an odd last byte padded with zero.
unfoldable pub word_sum : List ℕ → ℕ
word_sum [] = 0
word_sum (a ∷ []) = a * 256
word_sum (a ∷ b ∷ rest) = a * 256 + b + word_sum rest

unfoldable pub total : List (List ℕ) → ℕ
unfolding word_sum
total [] = 0
total (part ∷ parts) = word_sum part + total parts

add_part_exact :
    (sum : ℕ) (part : List ℕ)
    → sum + word_sum part < 2 ^ 32
    → add_part sum part ≡ sum + word_sum part
unfolding add_part word_sum
add_part_exact sum [] h = omega arith
add_part_exact sum (a ∷ []) h = omega arith
add_part_exact sum (a ∷ b ∷ rest) h =
    omega (arith, add_part_exact ((sum + (a * 256 + b)) % 2 ^ 32) rest (omega arith))

-- The `u32` accumulator does not wrap while the true sum fits it.
pub add_parts_exact :
    (sum : ℕ) (parts : List (List ℕ))
    → sum + total parts < 2 ^ 32
    → add_parts sum parts ≡ sum + total parts
unfolding add_parts total
add_parts_exact sum [] h = omega arith
add_parts_exact sum (part ∷ parts) h = omega (
  arith,
  add_part_exact sum part (omega arith),
  add_parts_exact (add_part sum part) parts (omega (arith, add_part_exact sum part (omega arith))),
)

pub word_sum_bound : (part : List ℕ) → IsBytes part → word_sum part * 2 ≤ 65535 * (length part + 1)
unfolding word_sum
word_sum_bound [] h = omega arith
word_sum_bound (a ∷ []) h = omega arith
word_sum_bound (a ∷ b ∷ rest) h = omega (arith, word_sum_bound rest h.1.1)

-- What a checksum is: a 16-bit word that brings the sum to a multiple of 2^16 - 1, and that is
-- 2^16 - 1 itself for a sum of zero only.
pub record IsChecksum (sum check : ℕ) : Type 0 where
  pub small : check < 2 ^ 16
  pub completes : (sum + check) % 65535 ≡ 0
  pub ones_only : check ≡ 65535 → sum ≡ 0
  pub ones : sum ≡ 0 → check ≡ 65535

-- For byte strings whose word sum fits the 32-bit accumulator, `internet_checksum` is the 16-bit
-- word that brings the sum of all words to a multiple of 2^16 - 1, and it is 2^16 - 1 exactly
-- when that sum is zero.
pub internet_checksum-IsChecksum :
    (parts : List (List ℕ))
    → total parts < 2 ^ 32
    → IsChecksum (total parts) (internet_checksum parts)
unfolding internet_checksum
internet_checksum-IsChecksum parts h =
    let v = fold_carries-IsFold (add_parts 0 parts) in
    let e = add_parts_exact 0 parts (omega arith) in
    record {
      small = omega (arith, v.small);
      completes = omega (arith, v.small, v.same_rest, e);
      ones_only = λ p. omega (arith, v.small, v.zero_only, e);
      ones = λ p. omega (arith, v.zero, e);
    }

-- A receiver's check, `internet_checksum(parts) == 0`, passes exactly when the sum of all words
-- is a positive multiple of 2^16 - 1, provided that it fits the 32-bit accumulator.
pub internet_checksum_accepts :
    (parts : List (List ℕ))
    → total parts < 2 ^ 32
    → (internet_checksum parts ≡ 0) ↔ ((total parts % 65535 ≡ 0) × (0 < total parts))
internet_checksum_accepts parts h =
    let c = internet_checksum-IsChecksum parts h in
    (
      λ z. (omega (arith, c.completes), grind (arith, c.ones)),
      λ z. grind (arith, c.small, c.completes, c.ones_only),
    )

-- A checksum computed over a zeroed field verifies once it is stored there: `filled` stands for
-- the parts with the field filled in, which adds the checksum to the sum.
pub filled_accepts :
    (zeroed filled : List (List ℕ))
    → total filled ≡ total zeroed + internet_checksum zeroed
    → 0 < total zeroed
    → total zeroed < 2 ^ 31
    → internet_checksum filled ≡ 0
filled_accepts zeroed filled e positive fits =
    let c = internet_checksum-IsChecksum zeroed (omega arith) in
    (internet_checksum_accepts filled (omega (arith, c.small))).1
      (omega (arith, c.completes), omega arith)
