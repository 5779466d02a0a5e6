-- ===== src/Kernel/Entropy.antt =====
-- kernel/src/rng.rs: the statics of the module, how they are seeded, and `get_random`.
pub mod Supply
use conc_os.Kernel.Random.{
  EntropyMode, insecure, Hardware, Asked, Cipher, Csprng, le_bytes, gather_seed, new, fill, next,
}
use conc_os.Common.{
  ℕ, zero, suc, ◌+◌, ◌-◌, ◌/◌, List, [], ◌++◌, Bool, true, false, Option, none, some, ◌==◌,
  if◌then◌else◌, take, min,
}

-- The statics of the module: the generator, once it is seeded, the state of the fallback, and how
-- it was seeded.
pub record Entropy (Rng : Type 0) : Type 0 where
  pub csprng : Option (Csprng Rng)
  pub fallback : ℕ
  pub entropy_mode : Option EntropyMode
  pub asked : Asked

-- `entropy_mode` and `entropy_is_cryptographic`
unfoldable pub mode_of : {Rng : Type 0} → Entropy Rng → EntropyMode
mode_of e = elim e.entropy_mode [ none ↦ insecure | some mode ↦ mode ]

abbrev is_secure : EntropyMode → Bool
is_secure insecure = false
is_secure _ = true

unfoldable pub entropy_is_cryptographic : {Rng : Type 0} → Entropy Rng → Bool
unfolding mode_of
entropy_is_cryptographic e = is_secure (mode_of e)

module _ {Rng : Type 0} (c : Cipher Rng) (hw : Hardware) where
  -- `init_entropy`, past the probe for the virtio device; `call_once` keeps a first value
  abbrev seeded : Option (List ℕ × EntropyMode) → Option (Csprng Rng) → Option (Csprng Rng)
  unfolding new
  seeded fresh (some g) = some g
  seeded (some (seed, mode)) none = some (new c hw seed)
  seeded none none = none

  abbrev found : Option (List ℕ × EntropyMode) → EntropyMode
  found none = insecure
  found (some (seed, mode)) = mode

  abbrev call_once : Option EntropyMode → EntropyMode → EntropyMode
  call_once none mode = mode
  call_once (some old) mode = old

  unfoldable pub init_entropy : Entropy Rng → EntropyMode × Entropy Rng
  unfolding gather_seed seeded
  init_entropy e =
      let (fresh, a) = gather_seed hw e.asked in
      let mode = call_once e.entropy_mode (found fresh) in
      (mode, record e { csprng = seeded fresh e.csprng; entropy_mode = some mode; asked = a })

  -- The loop of `get_random` over chunks of eight bytes, by the chunks that are left.
  unfoldable pub fallback_chunks : ℕ → ℕ → ℕ → Asked → List ℕ × ℕ × Asked
  unfolding next
  fallback_chunks zero n state a = ([], state, a)
  fallback_chunks (suc chunks) n state a =
      let x = next (hw.rdtsc a.readings) state in
      let a' = if state == 0 then record a { readings = suc a.readings } else a in
      let (out, state', a'') = fallback_chunks chunks (n - 8) x a' in
      (take (min 8 n) (le_bytes 8 x) ++ out, state', a'')

  -- `get_random`, for a buffer of `n` bytes; `none` is a panic
  abbrev from_csprng :
      Entropy Rng → Option (List ℕ × Csprng Rng × Asked) → Option (List ℕ × Entropy Rng)
  from_csprng e none = none
  from_csprng e (some (out, g, a)) = some (out, record e { csprng = some g; asked = a })

  abbrev random_from : ℕ → Option (Csprng Rng) → Entropy Rng → Option (List ℕ × Entropy Rng)
  unfolding fill fallback_chunks
  random_from n (some g) e = from_csprng e (fill c hw n g e.asked)
  random_from n none e =
      let (out, state, a) = fallback_chunks ((n + 7) / 8) n e.fallback e.asked in
      some (out, record e { fallback = state; asked = a })

  unfoldable pub get_random : ℕ → Entropy Rng → Option (List ℕ × Entropy Rng)
  unfolding random_from
  get_random n e = random_from n e.csprng e
