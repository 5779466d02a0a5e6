-- ===== src/Kernel/Random/Seed.antt =====
-- Sources that are combined by `^` hide nothing of one another.
use conc_os.Common.{ℕ, suc, ◌≡◌, ◌↔◌, refl, sym, ◌∙◌, ap₂, ap, List, [], ◌∷◌, some, length, arith}
use conc_os.Common.Slices.{IsBytes}
use conc_os.Common.Bits.{xor_cancel, xor_comm}
use conc_os.Kernel.Random.{EntropyMode, Hardware, Cipher, stirred, xor_into}

pub length-xor_into : (s b : List ℕ) → length (xor_into s b) ≡ length s
unfolding xor_into
length-xor_into [] b = refl
length-xor_into (s ∷ ss) [] = refl
length-xor_into (s ∷ ss) (b ∷ bs) = ap suc (length-xor_into ss bs)

heads : {x y : ℕ} {xs ys : List ℕ} → x ∷ xs ≡ y ∷ ys → (x ≡ y) × (xs ≡ ys)
heads e = (cc, cc)

-- For what is stirred in, the seed is not lost.
seed_kept :
    (s t b : List ℕ)
    → IsBytes s
    → IsBytes t
    → IsBytes b
    → length s ≡ length t
    → xor_into s b ≡ xor_into t b
    → s ≡ t
unfolding xor_into
seed_kept [] [] b v w u l e = refl
seed_kept [] (y ∷ t) b v w u l e = absurd (omega arith)
seed_kept (x ∷ s) [] b v w u l e = absurd (omega arith)
seed_kept (x ∷ s) (y ∷ t) [] v w u l e = e
seed_kept (x ∷ s) (y ∷ t) (z ∷ b) v w u l e =
    ap₂ ◌∷◌ (xor_cancel 8 x y z v.0 w.0 u.0 (heads e).0)
      (seed_kept s t b v.1 w.1 u.1 (omega arith) (heads e).1)

-- For the seed, what is stirred in is not lost.
source_kept :
    (s b d : List ℕ)
    → IsBytes s
    → IsBytes b
    → IsBytes d
    → length b ≡ length s
    → length d ≡ length s
    → xor_into s b ≡ xor_into s d
    → b ≡ d
unfolding xor_into
source_kept [] [] [] v w u l m e = refl
source_kept [] (y ∷ b) d v w u l m e = absurd (omega arith)
source_kept [] b (y ∷ d) v w u l m e = absurd (omega arith)
source_kept (x ∷ s) [] d v w u l m e = absurd (omega arith)
source_kept (x ∷ s) b [] v w u l m e = absurd (omega arith)
source_kept (x ∷ s) (y ∷ b) (z ∷ d) v w u l m e =
    ap₂ ◌∷◌
      (xor_cancel 8 y z x w.0 u.0 v.0
        (xor_comm 8 y x w.0 v.0 ∙ (heads e).0 ∙ xor_comm 8 x z v.0 u.0))
      (source_kept s b d v.1 w.1 u.1 (omega arith) (omega arith) (heads e).1)

-- Stirring fresh entropy into the next seed loses neither. When two of them come out equal, the
-- seeds were equal exactly if the fresh entropy was: so a hostile source, whatever it gives, never
-- merges two seeds, and for any seed different fresh entropy gives different seeds.
pub stirred_iff :
    {Rng : Type 0} (c : Cipher Rng) (hw : Hardware) (s t b d : List ℕ) (mode : EntropyMode)
    → IsBytes s
    → IsBytes t
    → IsBytes b
    → IsBytes d
    → length t ≡ length s
    → length b ≡ length s
    → length d ≡ length s
    → stirred c hw s (some (b, mode)) ≡ stirred c hw t (some (d, mode))
    → (s ≡ t) ↔ (b ≡ d)
unfolding stirred
stirred_iff c hw s t b d mode v w u x l m n e = (
  λ same. source_kept s b d v u x m n (e ∙ ap (λ (z : List ℕ). xor_into z d) (sym same)),
  λ same. seed_kept s t b v w u (sym l) (e ∙ ap (xor_into t) (sym same)),
)
