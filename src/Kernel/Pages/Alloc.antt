-- ===== src/Kernel/Pages/Alloc.antt =====
-- Allocating takes free frames and nothing else; deallocating them gives the allocator back.
use conc_os.Common.{
  ℕ, zero, suc, ◌+◌, ◌-◌, ◌*◌, ◌/◌, ◌^◌, ◌≤◌, ◌<◌, ◌≡◌, refl, sym, ◌∙◌, Bool, true, false,
  Bool-cases, inl, inr, Option, none, some, ◌==◌, ltb, leb, ◌&&◌, if◌then◌else◌, length, arith,
  lt→ltb, subst,
}
use conc_os.Kernel.Pages.{
  Allocator, set_bits, alloc_at, alloc_contiguous_pages, dealloc_contiguous_pages,
  find_contiguous_pages,
}
use conc_os.Kernel.Pages.Frames.{used, IsAllocator, set_bit_lem}
use conc_os.Kernel.Pages.FirstFit.{FreeRun, first, nothing, find_contiguous_pages-Found}

-- Whether a frame lies in a run.
abbrev pub within : ℕ → ℕ → ℕ → Bool
within start count p = leb start p && ltb p (start + count)

pub record SetsAll (a a' : Allocator) (u : Bool) (start count : ℕ) : Type 0 where
  pub valid : IsAllocator a'
  pub same_frames : a'.num_frames ≡ a.num_frames
  pub same_size : length a'.bitmap ≡ length a.bitmap
  pub frames : (p : ℕ) → used a' p ≡ (if within start count p then u else used a p)

then_within :
    (page count p : ℕ) (u x : Bool)
    → (if within (suc page) count p then u else if page == p then u else x)
      ≡ (if within page (suc count) p then u else x)
then_within page count p u x = ground arith

pub set_bits_lem :
    (count : ℕ) (a : Allocator) (page : ℕ) (u : Bool)
    → IsAllocator a
    → page + count ≤ 8 * length a.bitmap
    → (a' : Allocator) × (set_bits count a page u ≡ some a') × SetsAll a a' u page count
unfolding set_bits
set_bits_lem zero a page u v h = (
  a,
  refl,
  record { valid = v; same_frames = refl; same_size = refl; frames = λ p. ground arith },
)
set_bits_lem (suc count) a page u v h =
    let (b, one, s) = set_bit_lem a page u v (omega arith) in
    let (c, rest, t) = set_bits_lem count b (suc page) u s.valid (omega (arith, s.same_size)) in
    (
      c,
      rw one rest,
      record {
        valid = t.valid;
        same_frames = t.same_frames ∙ s.same_frames;
        same_size = t.same_size ∙ s.same_size;
        frames = λ p. t.frames p ∙ rw (s.frames p) (then_within page count p u (used a p));
      },
    )

-- What an allocation of `count` frames does.
pub data Allocated (a : Allocator) (count : ℕ) (r : Option (Option ℕ × Allocator)) : Type 0 where
  given :
      (start : ℕ) (a' : Allocator)
      → r ≡ some (some (start * 4096), a')
      → start + count ≤ a.num_frames
      → FreeRun a start count
      → ((t : ℕ) → t < start → ¬ FreeRun a t count)
      → SetsAll a a' true start count
      → Allocated a count r
  refused :
      r ≡ some (none, a)
      → ((t : ℕ) → t + count ≤ a.num_frames → ¬ FreeRun a t count)
      → Allocated a count r

alloc_found :
    (a a' : Allocator) (count start : ℕ)
    → find_contiguous_pages a count ≡ some (some start)
    → set_bits count a start true ≡ some a'
    → start * 4096 < 2 ^ 52
    → alloc_contiguous_pages a count ≡ some (some (start * 4096), a')
unfolding alloc_contiguous_pages alloc_at
alloc_found a a' count start e run small = rw (e, run, lt→ltb (start * 4096) (2 ^ 52) small)

alloc_missing :
    (a : Allocator) (count : ℕ)
    → find_contiguous_pages a count ≡ some none
    → alloc_contiguous_pages a count ≡ some (none, a)
unfolding alloc_contiguous_pages alloc_at
alloc_missing a count e = rw e

dealloc_lem :
    (c a' b : Allocator) (start addr count : ℕ)
    → c ≡ a'
    → addr / 4096 ≡ start
    → set_bits count c start false ≡ some b
    → dealloc_contiguous_pages a' addr count ≡ some b
unfolding dealloc_contiguous_pages
dealloc_lem c a' b start addr count same page run =
    rw page (subst (λ x. set_bits count x start false ≡ some b) same run)

-- Allocating some frames never panics, when physical addresses stay below 52 bits. It gives the
-- address of the lowest run of that many free frames and marks exactly those as used; or, when
-- there is no such run, it gives nothing and changes nothing.
pub alloc_contiguous_pages-Allocated :
    (a : Allocator) (count : ℕ)
    → IsAllocator a
    → 0 < count
    → a.num_frames ≤ 2 ^ 40
    → Allocated a count (alloc_contiguous_pages a count)
alloc_contiguous_pages-Allocated a count v positive addressable =
    elim (find_contiguous_pages-Found a count v positive) [
      | nothing e none_free ↦ refused (alloc_missing a count e) none_free
      | first start e inside free lowest ↦
          let (a', run, s) = set_bits_lem count a start true v (omega (arith, v.room)) in
          given start a' (alloc_found a a' count start e run (omega arith)) inside free lowest s
    ]

restored :
    (start count p : ℕ) (u : Bool)
    → (within start count p ≡ true → u ≡ false)
    → (if within start count p then false else if within start count p then true else u) ≡ u
restored start count p u h = elim (Bool-cases (within start count p)) [
  | inl t ↦ rw t (sym (h t))
  | inr t ↦ rw t
]

-- Deallocating what was just allocated frees exactly those frames: every frame is used or free as
-- it was before the allocation.
pub alloc-dealloc :
    (a a' : Allocator) (count addr : ℕ)
    → IsAllocator a
    → 0 < count
    → a.num_frames ≤ 2 ^ 40
    → alloc_contiguous_pages a count ≡ some (some addr, a')
    → (b : Allocator) × (dealloc_contiguous_pages a' addr count ≡ some b)
      × (b.num_frames ≡ a.num_frames)
      × ((p : ℕ) → used b p ≡ used a p)
alloc-dealloc a a' count addr v positive addressable e =
    elim (alloc_contiguous_pages-Allocated a count v positive addressable) [
      | refused r none_free ↦ absurd (cc)
      | given start c r inside free lowest s ↦
          let same : c ≡ a' = cc in
          let place : addr ≡ start * 4096 = cc in
          let page : addr / 4096 ≡ start = omega arith in
          let (b, run, t) =
            set_bits_lem count c start false s.valid (omega (arith, v.room, s.same_size)) in
          (
            b,
            dealloc_lem c a' b start addr count same page run,
            t.same_frames ∙ s.same_frames,
            λ p.
                t.frames p
                ∙ rw (s.frames p) (
                    restored start count p (used a p) (λ h.
                      let back : start + (p - start) ≡ p = ground arith in
                      subst (λ n. used a n ≡ false) back (free (p - start) (ground arith)))),
          )
    ]
