-- ===== src/Net/Checksum/Fold.antt =====
-- The folding loop computes the remainder by 2^16 - 1, with 2^16 - 1 for its positive multiples.
use conc_os.Common.{ℕ, ◌+◌, ◌/◌, ◌%◌, ◌^◌, ◌<◌, ◌≡◌, arith, lt_wf}
use mathlib.Core.WellFounded.{Acc}
use conc_os.Net.Checksum.{fold_loop, fold_carries}

-- What the loop promises of its result.
pub record IsFold (sum folded : ℕ) : Type 0 where
  pub small : folded < 2 ^ 16
  pub same_rest : folded % 65535 ≡ sum % 65535
  pub zero_only : folded ≡ 0 → sum ≡ 0
  pub zero : sum ≡ 0 → folded ≡ 0

fold_loop-IsFold : (sum : ℕ) (w : Acc ◌<◌ sum) → IsFold sum (fold_loop sum w)
unfolding fold_loop
fold_loop-IsFold sum (Acc.intro _ smaller) = grind (
  arith,
  λ (h : sum % 2 ^ 16 + sum / 2 ^ 16 < sum).
      fold_loop-IsFold (sum % 2 ^ 16 + sum / 2 ^ 16) (smaller _ h),
)

pub fold_carries-IsFold : (sum : ℕ) → IsFold sum (fold_carries sum)
unfolding fold_carries
fold_carries-IsFold sum = fold_loop-IsFold sum (lt_wf.apply sum)
