-- ===== src/Kernel/Pages/Frames.antt =====
-- The bitmap of the page allocator as the set of the frames in use.
use conc_os.Common.{
  ℕ, zero, suc, ◌+◌, ◌*◌, ◌/◌, ◌%◌, ◌^◌, ◌≤◌, ◌<◌, ◌≡◌, ◌≢◌, refl, sym, ◌∙◌, List, [], ◌∷◌, Bool,
  true, false, not, ◌&&◌, some, bit_and, ltb, ◌==◌, if◌then◌else◌, length, set, get_or, get_elem?,
  length-set, get_or-set_self, get_or-set_ne, arith, ℕ_discrete, ap, subst,
}
use conc_os.Common.Bits.{holds_below, holds_below-get}
use conc_os.Common.Slices.{IsBytes}
use conc_os.Kernel.Pages.{Allocator, with_bit, set_bit, is_free}

-- Whether a byte has a bit, and whether a frame is marked as used.
unfoldable pub has_bit : ℕ → ℕ → Bool
has_bit byte bit = not (bit_and byte (2 ^ bit) == 0)

unfoldable pub used : Allocator → ℕ → Bool
unfolding has_bit
used a page = has_bit (get_or a.bitmap (page / 8) 0) (page % 8)

-- Every frame has a bit, and the bitmap is made of bytes.
pub record IsAllocator (a : Allocator) : Type 0 where
  pub bytes : IsBytes a.bitmap
  pub room : a.num_frames ≤ 8 * length a.bitmap

same : Bool → Bool → Bool
same true b = b
same false b = not b

same_sound : (a b : Bool) → same a b ≡ true → a ≡ b
unfolding same
same_sound a b h = ground arith

-- Writing a bit of a byte, for all bytes and pairs of bits.
bit_check : ℕ → ℕ → ℕ → Bool
unfolding has_bit same
bit_check byte i j =
    let on = with_bit byte i true in
    let off = with_bit byte i false in
    ltb on 256
    && ltb off 256
    && same (has_bit on j) (if i == j then true else has_bit byte j)
    && same (has_bit off j) (if i == j then false else has_bit byte j)

bit_row : ℕ → Bool
unfolding bit_check
bit_row n = bit_check (n / 64) (n / 8 % 8) (n % 8)

bit_table : holds_below bit_row 16384 ≡ true
unfolding holds_below bit_row
bit_table = refl

bit_checked : (byte i j : ℕ) → byte < 256 → i < 8 → j < 8 → bit_check byte i j ≡ true
unfolding bit_row
bit_checked byte i j hb hi hj =
    let n : ℕ = byte * 64 + (i * 8 + j) in
    let row = holds_below-get bit_row 16384 n (omega arith) bit_table in
    let e0 : n / 64 ≡ byte = omega arith in
    let e1 : n / 8 % 8 ≡ i = omega arith in
    let e2 : n % 8 ≡ j = omega arith in rw (e0, e1, e2) at row

with_bit_lem :
    (byte i j : ℕ) (u : Bool)
    → byte < 256
    → i < 8
    → j < 8
    → (with_bit byte i u < 256)
      × (has_bit (with_bit byte i u) j ≡ (if i == j then u else has_bit byte j))
unfolding bit_check
with_bit_lem byte i j true hb hi hj =
    let row = bit_checked byte i j hb hi hj in
    (ground (arith, row), same_sound _ _ (ground (arith, row)))
with_bit_lem byte i j false hb hi hj =
    let row = bit_checked byte i j hb hi hj in
    (ground (arith, row), same_sound _ _ (ground (arith, row)))

get_elem?_in {ℓ} :
    {A : Type ℓ} (xs : List A) (i : ℕ) (d : A)
    → i < length xs
    → get_elem? xs i ≡ some (get_or xs i d)
get_elem?_in [] i d h = absurd (omega arith)
get_elem?_in (x ∷ xs) zero d h = refl
get_elem?_in (x ∷ xs) (suc i) d h = get_elem?_in xs i d (omega arith)

get_or-IsByte : (xs : List ℕ) (i : ℕ) → IsBytes xs → get_or xs i 0 < 256
get_or-IsByte [] i v = omega arith
get_or-IsByte (x ∷ xs) zero v = v.0
get_or-IsByte (x ∷ xs) (suc i) v = get_or-IsByte xs i v.1

set-IsBytes : (xs : List ℕ) (i v : ℕ) → IsBytes xs → v < 256 → IsBytes (set xs i v)
set-IsBytes [] i v h k = tt
set-IsBytes (x ∷ xs) zero v h k = (k, h.1)
set-IsBytes (x ∷ xs) (suc i) v h k = (h.0, set-IsBytes xs i v h.1 k)

pub is_free_lem :
    (a : Allocator) (page : ℕ)
    → page < 8 * length a.bitmap
    → is_free a page ≡ some (not (used a page))
unfolding is_free used has_bit
is_free_lem a page h = rw (get_elem?_in a.bitmap (page / 8) 0 (omega arith)) (ground arith)

test_same : (m n : ℕ) (u x : Bool) → m ≡ n → (if m == n then u else x) ≡ u
test_same m n u x h = ground arith

test_other : (m n : ℕ) (u x : Bool) → m ≢ n → (if m == n then u else x) ≡ x
test_other m n u x h = ground arith

-- The bit of frame `p` after the bit of `frame` has been written.
frame_written :
    (xs : List ℕ) (frame p : ℕ) (u : Bool)
    → IsBytes xs
    → frame < 8 * length xs
    → has_bit
        (get_or (set xs (frame / 8) (with_bit (get_or xs (frame / 8) 0) (frame % 8) u)) (p / 8) 0)
        (p % 8)
      ≡ (if frame == p then u else has_bit (get_or xs (p / 8) 0) (p % 8))
frame_written xs frame p u v h =
    let i = frame / 8 in
    let old = get_or xs i 0 in
    let new = with_bit old (frame % 8) u in
    let bit =
      (with_bit_lem old (frame % 8) (p % 8) u (get_or-IsByte xs i v) (omega arith)
        (omega arith)).1 in
    elim (ℕ_discrete i (p / 8)) [
      | no ne ↦ rw (get_or-set_ne xs i (p / 8) new 0 ne) (
          sym (
            test_other frame p u (has_bit (get_or xs (p / 8) 0) (p % 8))
              (λ e. ne (ap (λ (n : ℕ). n / 8) e))))
      | yes e ↦
          let stored : get_or (set xs i new) (p / 8) 0 ≡ new =
            subst (λ n. get_or (set xs i new) n 0 ≡ new) e
              (get_or-set_self xs i new 0 (omega arith)) in
          let before : get_or xs (p / 8) 0 ≡ old = ap (λ n. get_or xs n 0) (sym e) in
          rw (stored, before)
            (elim (ℕ_discrete (frame % 8) (p % 8)) [
              | yes s ↦
                  bit
                  ∙ test_same (frame % 8) (p % 8) u _ s
                  ∙ sym (test_same frame p u _ (omega arith))
              | no d ↦
                  bit
                  ∙ test_other (frame % 8) (p % 8) u _ d
                  ∙ sym (test_other frame p u _ (λ z. d (ap (λ (n : ℕ). n % 8) z)))
            ])
    ]

-- What `set_bit` does to the set of used frames.
pub record Sets (a a' : Allocator) (u : Bool) (frame : ℕ) : Type 0 where
  pub valid : IsAllocator a'
  pub same_frames : a'.num_frames ≡ a.num_frames
  pub same_size : length a'.bitmap ≡ length a.bitmap
  pub frames : (p : ℕ) → used a' p ≡ (if frame == p then u else used a p)

pub set_bit_lem :
    (a : Allocator) (frame : ℕ) (u : Bool)
    → IsAllocator a
    → frame < 8 * length a.bitmap
    → (a' : Allocator) × (set_bit a frame u ≡ some a') × Sets a a' u frame
unfolding set_bit used
set_bit_lem a frame u v h =
    let i = frame / 8 in
    let old = get_or a.bitmap i 0 in
    let byte = get_or-IsByte a.bitmap i v.bytes in
    let new = with_bit old (frame % 8) u in
    let written = with_bit_lem old (frame % 8) 0 u byte (omega arith) (omega arith) in
    (
      record a { bitmap = set a.bitmap i new },
      rw (get_elem?_in a.bitmap i 0 (omega arith)),
      record {
        valid = record {
          bytes = set-IsBytes a.bitmap i new v.bytes written.0;
          room = omega (arith, v.room, length-set a.bitmap i new);
        };
        same_frames = refl;
        same_size = length-set a.bitmap i new;
        frames = λ p. frame_written a.bitmap frame p u v.bytes h;
      },
    )
