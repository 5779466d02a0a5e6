-- ===== src/Kernel/Entropy/Supply.antt =====
-- `get_random` fills every buffer, and what `init_entropy` reports is what it draws from.
use conc_os.Common.{
  ℕ, zero, suc, ◌+◌, ◌-◌, ◌/◌, ◌^◌, ◌≤◌, ◌<◌, ◌≡◌, ◌≢◌, refl, ◌∙◌, subst, List, true, false, Option,
  none, some, Option-cases, inl, inr, min, take, length, length-append, length-take, ◌==◌,
  if◌then◌else◌, ◌↔◌, arith,
}
use conc_os.Kernel.Random.{
  Hardware, Asked, Cipher, Csprng, EntropyMode, le_bytes, next, mix, virtio_bytes, rdrand_bytes,
}
use conc_os.Kernel.Random.Generator.{IsGenerator, new-IsGenerator, fill_total}
use conc_os.Kernel.Random.Fallback.{next-ne-zero}
use conc_os.Kernel.Entropy.{
  seeded, found, is_secure, Entropy, mode_of, entropy_is_cryptographic, init_entropy, get_random,
  fallback_chunks, random_from,
}
use conc_os.Common.{◌*◌}

-- A generator that is there is well formed, and the state of the fallback is a word.
pub record IsSupply {Rng : Type 0} (e : Entropy Rng) : Type 0 where
  pub generator : (g : Csprng Rng) → e.csprng ≡ some g → IsGenerator g
  pub word : e.fallback < 2 ^ 64

some_injective {ℓ} : {A : Type ℓ} {a b : A} → ◌≡◌ {A = Option A} (some a) (some b) → a ≡ b
some_injective e = cc

none≢some {ℓ} : {A : Type ℓ} {a : A} → ◌≢◌ {A = Option A} none (some a)
none≢some e = cc

false≢true : false ≢ true
false≢true e = cc

length-le_bytes : (n word : ℕ) → length (le_bytes n word) ≡ n
length-le_bytes zero word = refl
length-le_bytes (suc n) word = omega (arith, length-le_bytes n (word / 256))

chunk_size : (n x : ℕ) → length (take (min 8 n) (le_bytes 8 x)) ≡ min 8 n
chunk_size n x = length-take (min 8 n) (le_bytes 8 x) (omega (arith, length-le_bytes 8 x))

module _ {Rng : Type 0} (c : Cipher Rng) (hw : Hardware)
    (whole : (r : Rng) → length (c.fill_bytes r 64).0 ≡ 64)
    (stamps : (n : ℕ) → hw.rdtsc n < 2 ^ 64) where
  fallback_fills :
      (chunks n state : ℕ) (a : Asked)
      → n ≤ 8 * chunks
      → state < 2 ^ 64
      → (length (fallback_chunks c hw chunks n state a).0 ≡ n)
        × ((fallback_chunks c hw chunks n state a).1 < 2 ^ 64)
  unfolding fallback_chunks
  fallback_fills zero n state a h k = (omega arith, k)
  fallback_fills (suc chunks) n state a h k =
      let x = next (hw.rdtsc a.readings) state in
      let (small, fine) = next-ne-zero (hw.rdtsc a.readings) state (stamps a.readings) k in
      let a' = if state == 0 then record a { readings = suc a.readings } else a in
      let (size, word) = fallback_fills chunks (n - 8) x a' (omega arith) small in
      (
        length-append (take (min 8 n) (le_bytes 8 x)) (fallback_chunks c hw chunks (n - 8) x a').0
            ∙ omega (arith, size, chunk_size n x),
        word,
      )

  from_generator :
      (n : ℕ) (e : Entropy Rng) (g : Csprng Rng)
      → IsSupply e
      → e.csprng ≡ some g
      → (out : List ℕ) × (e' : Entropy Rng) × (random_from c hw n (some g) e ≡ some (out, e'))
        × (length out ≡ n)
        × IsSupply e'
        × (mode_of e' ≡ mode_of e)
  unfolding random_from mode_of
  from_generator n e g v at =
      let (out, g', a, run, size, fine) = fill_total c hw whole n g e.asked (v.generator g at) in
      (
        out,
        record e { csprng = some g'; asked = a },
        rw run,
        size,
        record {
          generator = λ k same. subst IsGenerator (some_injective same) fine;
          word = v.word;
        },
        refl,
      )

  -- Every buffer is filled, whether the generator was seeded or not: no panic and no error, and
  -- the supply stays well formed.
  pub get_random_total :
      (n : ℕ) (e : Entropy Rng)
      → IsSupply e
      → (out : List ℕ) × (e' : Entropy Rng) × (get_random c hw n e ≡ some (out, e'))
        × (length out ≡ n)
        × IsSupply e'
        × (mode_of e' ≡ mode_of e)
  unfolding get_random mode_of
  get_random_total n e v = elim (Option-cases e.csprng) [
    | inr (g, at) ↦
        let (out, e', run, size, fine, mode) = from_generator n e g v at in
        (out, e', rw at run, size, fine, mode)
    | inl at ↦
        let made = fallback_chunks c hw ((n + 7) / 8) n e.fallback e.asked in
        let (size, word) = fallback_fills ((n + 7) / 8) n e.fallback e.asked (omega arith) v.word in
        (
          made.0,
          record e { fallback = made.1; asked = made.2 },
          rw (at, random_from),
          size,
          record { generator = v.generator; word = word },
          refl,
        )
  ]

  seeded-IsGenerator :
      (m : Option (List ℕ × EntropyMode)) (g : Csprng Rng)
      → seeded c hw m none ≡ some g
      → IsGenerator g
  unfolding seeded
  seeded-IsGenerator none g e = absurd (cc)
  seeded-IsGenerator (some (seed, mode)) g e =
      subst IsGenerator (some_injective e) (new-IsGenerator c hw whole seed)

  secure_iff :
      (v r : Option (List ℕ))
      → (is_secure (found c hw (mix hw v r)) ≡ true)
        ↔ ((g : Csprng Rng) × (seeded c hw (mix hw v r) none ≡ some g))
  unfolding seeded mix
  secure_iff (some v) (some r) = (λ e. (_, refl), λ e. refl)
  secure_iff (some v) none = (λ e. (_, refl), λ e. refl)
  secure_iff none (some r) = (λ e. (_, refl), λ e. refl)
  secure_iff none none = (λ e. absurd (false≢true e), λ (g, e). absurd (none≢some e))

  -- After the first `init_entropy` the supply is well formed, and it reports itself as
  -- cryptographic exactly when there is a seeded generator to draw from.
  pub init_entropy-IsSupply :
      (e : Entropy Rng)
      → e.csprng ≡ none
      → e.entropy_mode ≡ none
      → e.fallback < 2 ^ 64
      → IsSupply (init_entropy c hw e).1
        × ((entropy_is_cryptographic (init_entropy c hw e).1 ≡ true)
            ↔ ((g : Csprng Rng) × ((init_entropy c hw e).1.csprng ≡ some g)))
  unfolding init_entropy entropy_is_cryptographic
  init_entropy-IsSupply e empty silent h =
      let v = (virtio_bytes hw e.asked).0 in
      let r = (rdrand_bytes hw (virtio_bytes hw e.asked).1).0 in
      (
        record {
          generator = λ g made. seeded-IsGenerator (mix hw v r) g (rw empty at made);
          word = h;
        },
        rw (empty, silent) (secure_iff v r),
      )
