-- ===== src/Kernel/Pages/FirstFit.antt =====
-- `find_contiguous_pages` finds the first run of free frames that is long enough.
use conc_os.Common.{
  ℕ, zero, suc, ◌+◌, ◌-◌, ◌≤◌, ◌<◌, ◌≡◌, ◌≢◌, refl, true, false, Bool-cases, inl, inr, Option, none,
  some, ◌==◌, if◌then◌else◌, arith, ne→==, ==_iff, ℕ_discrete, dec_lt, ap, subst,
}
use conc_os.Kernel.Pages.{Allocator, find_loop, find_contiguous_pages}
use conc_os.Kernel.Pages.Frames.{used, IsAllocator, is_free_lem}

-- `count` free frames from `start`.
abbrev pub FreeRun : Allocator → ℕ → ℕ → Type 0
FreeRun a start count = (i : ℕ) → i < count → used a (start + i) ≡ false

-- What a search for `count` frames promises: the lowest start of a free run, or that there is none.
pub data Found (a : Allocator) (count : ℕ) (r : Option (Option ℕ)) : Type 0 where
  first :
      (start : ℕ)
      → r ≡ some (some start)
      → start + count ≤ a.num_frames
      → FreeRun a start count
      → ((t : ℕ) → t < start → ¬ FreeRun a t count)
      → Found a count r
  nothing :
      r ≡ some none → ((t : ℕ) → t + count ≤ a.num_frames → ¬ FreeRun a t count) → Found a count r

module _ (a : Allocator) (v : IsAllocator a) (count : ℕ) where
  -- The run that ends before `page` starts at `b` and is `len` frames long; none starts below `b`.
  record IsScan (page start len b : ℕ) : Type 0 where
    ends_here : b + len ≡ page
    short : len < count
    begun : len ≢ 0 → start ≡ b
    run : FreeRun a b len
    barred : (t : ℕ) → t < b → ¬ FreeRun a t count

  extend :
      (page start len b : ℕ) → IsScan page start len b → used a page ≡ false → FreeRun a b (suc len)
  extend page start len b s free i h = elim (ℕ_discrete i len) [
    | yes e ↦ rw (e, s.ends_here) free
    | no ne ↦ s.run i (omega arith)
  ]

  -- A used frame bars every start up to it.
  bar :
      (page start len b : ℕ)
      → IsScan page start len b
      → used a page ≡ true
      → (t : ℕ) → t < suc page
      → ¬ FreeRun a t count
  bar page start len b s taken t h run = elim (dec_lt t b) [
    | yes below ↦ s.barred t below run
    | no inside ↦
        let here : t + (page - t) ≡ page = omega arith in
        let free = run (page - t) (omega (arith, s.ends_here, s.short)) in
        cc (subst (λ n. used a n ≡ false) here free, taken)
  ]

  start_of :
      (page start len b : ℕ) → IsScan page start len b → (if len == 0 then page else start) ≡ b
  start_of page start len b s = elim (ℕ_discrete len 0) [
    | yes e ↦ rw e (omega (arith, s.ends_here))
    | no ne ↦ rw (ne→== len 0 ne) (s.begun ne)
  ]

  find_loop-Found :
      (rounds page start len b : ℕ)
      → page + rounds ≡ a.num_frames
      → IsScan page start len b
      → Found a count (find_loop a count rounds page start len)
  unfolding find_loop
  find_loop-Found zero page start len b e s =
      nothing refl (λ t h. s.barred t (omega (arith, s.ends_here, s.short)))
  find_loop-Found (suc rounds) page start len b e s =
      let at = is_free_lem a page (omega (arith, v.room)) in
      elim (Bool-cases (used a page)) [
        | inl taken ↦
            rw (at, taken)
              (find_loop-Found rounds (suc page) start 0 (suc page) (omega arith) (record {
                ends_here = omega arith;
                short = omega (arith, s.short);
                begun = λ z. absurd (z refl);
                run = λ i h. absurd (omega arith);
                barred = bar page start len b s taken;
              }))
        | inr free ↦ elim (ℕ_discrete (suc len) count) [
          | yes full ↦
              rw (at, free, (==_iff (suc len) count).1 full)
                (first b (ap (λ (n : ℕ). some (some n)) (start_of page start len b s))
                  (omega (arith, s.ends_here))
                  (subst (FreeRun a b) full (extend page start len b s free)) s.barred)
          | no more ↦
              rw (at, free, ne→== (suc len) count more)
                (find_loop-Found rounds (suc page) (if len == 0 then page else start) (suc len) b
                  (omega arith)
                  (record {
                    ends_here = omega (arith, s.ends_here);
                    short = omega (arith, s.short);
                    begun = λ z. start_of page start len b s;
                    run = extend page start len b s free;
                    barred = s.barred;
                  }))
        ]
      ]

-- `find_contiguous_pages` never indexes outside the bitmap. For a positive number of frames it
-- gives the lowest start of that many free frames, or `None` when there is no such run.
pub find_contiguous_pages-Found :
    (a : Allocator) (count : ℕ)
    → IsAllocator a
    → 0 < count
    → Found a count (find_contiguous_pages a count)
unfolding find_contiguous_pages
find_contiguous_pages-Found a count v positive = rw (ne→== count 0 (omega arith)) (
    find_loop-Found a v count a.num_frames 0 0 0 0 (omega arith) (record {
      ends_here = omega arith;
      short = positive;
      begun = λ z. absurd (z refl);
      run = λ i h. absurd (omega arith);
      barred = λ t h. absurd (omega arith);
    }))
