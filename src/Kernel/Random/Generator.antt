-- ===== src/Kernel/Random/Generator.antt =====
-- `Csprng::fill` never reads outside its buffer.
use conc_os.Common.{
  ℕ, zero, suc, ◌+◌, ◌%◌, ◌^◌, ◌≤◌, ◌<◌, ◌≡◌, refl, ap, List, [], ◌∷◌, inl, inr, Bool-cases, some,
  length, get_elem?, drop, leb, ℕ_discrete, ==_iff, ne→==, length-drop, arith,
}
use conc_os.Kernel.Random.{
  Hardware, Asked, Cipher, Csprng, new, refill, ready, fill, reseed_interval,
}

-- Between two calls: the buffer is whole, the position lies in it or at its end, and fewer blocks
-- than the interval were drawn since fresh entropy was stirred in.
pub record IsGenerator {Rng : Type 0} (g : Csprng Rng) : Type 0 where
  pub size : length g.buf ≡ 32
  pub place : g.buf_pos ≤ 32
  pub recent : g.blocks < 1024

pub get_elem?_inside : (xs : List ℕ) (i : ℕ) → i < length xs → (x : ℕ) × (get_elem? xs i ≡ some x)
get_elem?_inside [] i h = absurd (omega arith)
get_elem?_inside (x ∷ xs) zero h = (x, refl)
get_elem?_inside (x ∷ xs) (suc i) h = get_elem?_inside xs i (omega arith)

module _ {Rng : Type 0} (c : Cipher Rng) (hw : Hardware)
    (whole : (r : Rng) → length (c.fill_bytes r 64).0 ≡ 64) where
  pub new-IsGenerator : (seed : List ℕ) → IsGenerator (new c hw seed)
  unfolding new
  new-IsGenerator seed = record { size = refl; place = omega arith; recent = omega arith }

  pub refill-IsGenerator :
      (g : Csprng Rng) (a : Asked)
      → IsGenerator g
      → IsGenerator (refill c hw g a).0 × ((refill c hw g a).0.buf_pos ≡ 0)
  unfolding refill
  refill-IsGenerator g a v =
      let half : length (drop 32 (c.fill_bytes g.inner 64).0) ≡ 32 =
        omega (arith, length-drop 32 (c.fill_bytes g.inner 64).0, whole g.inner) in
      elim (Bool-cases (leb reseed_interval ((g.blocks + 1) % 2 ^ 32))) [
        | inl due ↦ rw due (record { size = half; place = omega arith; recent = omega arith }, refl)
        | inr early ↦
            rw early (record { size = half; place = omega arith; recent = ground arith }, refl)
      ]

  pub ready-IsGenerator :
      (g : Csprng Rng) (a : Asked)
      → IsGenerator g
      → IsGenerator (ready c hw g a).0 × ((ready c hw g a).0.buf_pos < 32)
  unfolding ready
  ready-IsGenerator g a v = elim (ℕ_discrete g.buf_pos (length g.buf)) [
    | yes empty ↦
        let (w, start) = refill-IsGenerator g a v in
        rw ((==_iff g.buf_pos (length g.buf)).1 empty) (w, omega (arith, start))
    | no left ↦ rw (ne→== g.buf_pos (length g.buf) left) (v, omega (arith, v.size, v.place))
  ]

  -- One byte, and then the others.
  pub fill_step :
      (n byte : ℕ) (g g'' : Csprng Rng) (a a'' : Asked) (out : List ℕ)
      → get_elem? (ready c hw g a).0.buf (ready c hw g a).0.buf_pos ≡ some byte
      → fill c hw n
          (record (ready c hw g a).0 { buf_pos = suc (ready c hw g a).0.buf_pos })
          (ready c hw g a).1
        ≡ some (out, g'', a'')
      → fill c hw (suc n) g a ≡ some (byte ∷ out, g'', a'')
  unfolding fill
  fill_step n byte g g'' a a'' out e f = rw (fill, e, f)

  -- A well-formed generator fills a buffer of any length without an index out of range, and is
  -- well formed afterwards; in particular fresh entropy is stirred in at least once in every 1024
  -- blocks.
  pub fill_total :
      (n : ℕ) (g : Csprng Rng) (a : Asked)
      → IsGenerator g
      → (out : List ℕ) × (g' : Csprng Rng) × (a' : Asked) × (fill c hw n g a ≡ some (out, g', a'))
        × (length out ≡ n)
        × IsGenerator g'
  unfolding fill
  fill_total zero g a v = ([], g, a, refl, refl, v)
  fill_total (suc n) g a v =
      let (w, before) = ready-IsGenerator g a v in
      let h = (ready c hw g a).0 in
      let (byte, found) = get_elem?_inside h.buf h.buf_pos (omega (arith, w.size, before)) in
      let (out, g', a', run, size, fine) =
        fill_total n (record h { buf_pos = suc h.buf_pos }) (ready c hw g a).1
          (record { size = w.size; place = before; recent = w.recent }) in
      (byte ∷ out, g', a', fill_step n byte g g' a a' out found run, ap suc size, fine)
