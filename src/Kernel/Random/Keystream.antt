-- ===== src/Kernel/Random/Keystream.antt =====
-- What `Csprng::fill` of kernel/src/rng.rs gives: the bytes of a stream of blocks.
use conc_os.Common.{
  ℕ, zero, suc, ◌+◌, ◌-◌, ◌*◌, ◌%◌, ◌^◌, ◌≤◌, ◌<◌, ◌≡◌, ◌≢◌, refl, sym, ◌∙◌, ap, List, [], ◌∷◌,
  ◌++◌, inl, inr, true, false, Bool-cases, some, length, get_elem?, take, drop, leb, ◌==◌,
  if◌then◌else◌, ℕ_discrete, ==_iff, ne→==, arith,
}
use conc_os.Kernel.Random.{
  Hardware, Asked, Cipher, Csprng, gather_seed, stirred, refill, ready, fill, reseed_interval,
}
use conc_os.Kernel.Random.Generator.{
  IsGenerator, ready-IsGenerator, refill-IsGenerator, fill_step, get_elem?_inside,
}

-- The front of a list, one element at a time.
drop_step : (xs : List ℕ) (i x : ℕ) → get_elem? xs i ≡ some x → drop i xs ≡ x ∷ drop (suc i) xs
drop_step [] i x e = absurd (cc)
drop_step (y ∷ xs) zero x e = let same : y ≡ x = cc in ap (λ z. z ∷ xs) same
drop_step (y ∷ xs) (suc i) x e = drop_step xs i x e

drop_all : (xs : List ℕ) (n : ℕ) → n ≡ length xs → drop n xs ≡ []
drop_all [] zero e = refl
drop_all [] (suc n) e = refl
drop_all (x ∷ xs) zero e = absurd (omega (arith, e))
drop_all (x ∷ xs) (suc n) e = drop_all xs n (omega arith)

module _ {Rng : Type 0} (c : Cipher Rng) (hw : Hardware) where
  -- The bytes of the next blocks. The cipher gives 64 bytes for each: the second half is output,
  -- and the first half seeds the cipher for the next block and is not seen. Into the seed after
  -- every 1024th block fresh entropy is stirred, if the hardware gives some.
  unfoldable pub produced : ℕ → ℕ → Rng → Asked → List ℕ
  produced zero count rng a = []
  produced (suc blocks) count rng a =
      let block = (c.fill_bytes rng 64).0 in
      let due = count + 1 == 1024 in
      let seed = if due then stirred c hw (take 32 block) (gather_seed hw a).0 else take 32 block in
      drop 32 block
      ++ produced blocks (if due then 0 else count + 1) (c.from_seed seed)
          (if due then (gather_seed hw a).1 else a)

  -- What a generator gives: what is left in its buffer, and then the next blocks.
  abbrev pub stream : ℕ → Csprng Rng → Asked → List ℕ
  stream blocks g a = drop g.buf_pos g.buf ++ produced blocks g.blocks g.inner a

  refill-produced :
      (blocks : ℕ) (g : Csprng Rng) (a : Asked)
      → g.blocks < 1024
      → produced (suc blocks) g.blocks g.inner a
        ≡ stream blocks (refill c hw g a).0 (refill c hw g a).1
  unfolding refill produced
  refill-produced blocks g a small = elim (Bool-cases (g.blocks + 1 == 1024)) [
    | inl due ↦
        let test : leb reseed_interval ((g.blocks + 1) % 2 ^ 32) ≡ true = ground arith in
        rw (due, test) refl
    | inr early ↦
        let test : leb reseed_interval ((g.blocks + 1) % 2 ^ 32) ≡ false = ground arith in
        let count : (g.blocks + 1) % 2 ^ 32 ≡ g.blocks + 1 = omega arith in
        rw (early, test, count) refl
  ]

  ready_full : (g : Csprng Rng) (a : Asked) → g.buf_pos ≢ length g.buf → ready c hw g a ≡ (g, a)
  unfolding ready
  ready_full g a h = rw (ne→== g.buf_pos (length g.buf) h) refl

  ready_empty :
      (g : Csprng Rng) (a : Asked) → g.buf_pos ≡ length g.buf → ready c hw g a ≡ refill c hw g a
  unfolding ready
  ready_empty g a h = rw ((==_iff g.buf_pos (length g.buf)).1 h) refl

module _ {Rng : Type 0} (c : Cipher Rng) (hw : Hardware)
    (whole : (r : Rng) → length (c.fill_bytes r 64).0 ≡ 64) where
  -- A generator that is made ready for `n` more bytes gives the same stream, of enough blocks.
  ready-stream :
      (n blocks : ℕ) (g : Csprng Rng) (a : Asked)
      → IsGenerator g
      → suc n ≤ 32 - g.buf_pos + 32 * blocks
      → (blocks' : ℕ) × (stream c hw blocks g a
          ≡ stream c hw blocks' (ready c hw g a).0 (ready c hw g a).1)
        × (suc n ≤ 32 - (ready c hw g a).0.buf_pos + 32 * blocks')
  ready-stream n blocks g a v h = elim (ℕ_discrete g.buf_pos (length g.buf)) [
    | no left ↦ rw (ready_full c hw g a left) (blocks, refl, h)
    | yes empty ↦ rw (ready_empty c hw g a empty) (refilled blocks h empty)
  ]
    where
      refilled :
          (k : ℕ)
          → suc n ≤ 32 - g.buf_pos + 32 * k
          → g.buf_pos ≡ length g.buf
          → (blocks' : ℕ) × (stream c hw k g a
              ≡ stream c hw blocks' (refill c hw g a).0 (refill c hw g a).1)
            × (suc n ≤ 32 - (refill c hw g a).0.buf_pos + 32 * blocks')
      refilled zero h' empty = absurd (omega (arith, v.size))
      refilled (suc k) h' empty =
          let (w, start) = refill-IsGenerator c hw whole g a v in
          (
            k,
            ap (λ (xs : List ℕ). xs ++ produced c hw (suc k) g.blocks g.inner a)
                  (drop_all g.buf g.buf_pos empty)
                ∙ refill-produced c hw k g a v.recent,
            omega (arith, v.size, start),
          )

  -- `fill` gives the front of the generator's stream: a well-formed generator fills a buffer with
  -- what is left in its own and then the blocks that the cipher gives, the second half of each,
  -- where every block is drawn from a cipher seeded by the first half of the block before it, with
  -- fresh entropy stirred in after every 1024th if the hardware gives some. No byte is skipped or
  -- given twice, and none is left in place of a byte that was asked for. The cipher is assumed to
  -- give as many bytes as it is asked for.
  pub fill-stream :
      (n blocks : ℕ) (g : Csprng Rng) (a : Asked)
      → IsGenerator g
      → n ≤ 32 - g.buf_pos + 32 * blocks
      → (g' : Csprng Rng) × (a' : Asked) × (fill c hw n g a
          ≡ some (take n (stream c hw blocks g a), g', a'))
        × IsGenerator g'
  unfolding fill
  fill-stream zero blocks g a v h = (g, a, refl, v)
  fill-stream (suc n) blocks g a v h =
      let (w, before) = ready-IsGenerator c hw whole g a v in
      let r = (ready c hw g a).0 in
      let b = (ready c hw g a).1 in
      let (k, same, enough) = ready-stream n blocks g a v h in
      let (byte, found) = get_elem?_inside r.buf r.buf_pos (omega (arith, w.size, before)) in
      let next = record r { buf_pos = suc r.buf_pos } in
      let (g', a', run, fine) =
        fill-stream n k next b (record { size = w.size; place = before; recent = w.recent })
          (omega (arith, enough, before)) in
      let front : stream c hw k r b ≡ byte ∷ stream c hw k next b =
        ap (λ (xs : List ℕ). xs ++ produced c hw k r.blocks r.inner b)
          (drop_step r.buf r.buf_pos byte found) in
      (
        g',
        a',
        fill_step c hw whole n byte g g' a a' (take n (stream c hw k next b)) found run
            ∙ ap (λ (xs : List ℕ). some (take (suc n) xs, g', a')) (sym (same ∙ front)),
        fine,
      )
