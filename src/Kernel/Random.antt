-- ===== src/Kernel/Random.antt =====
-- kernel/src/rng.rs: the seed from the hardware, the generator `Csprng`, and the fallback
-- `Xorshift64`. The cipher and the hardware are parameters. Clearing a buffer that is not read
-- again is left out.
pub mod Seed
pub mod Generator
pub mod Keystream
pub mod Fallback
use conc_os.Common.{
  ℕ, zero, suc, ◌+◌, ◌-◌, ◌*◌, ◌/◌, ◌%◌, ◌^◌, List, [], ◌∷◌, ◌++◌, Bool, true, false, Option, none,
  some, bit_xor, bit_or, leb, ◌==◌, if◌then◌else◌, length, take, drop, min, replicate, get_elem?,
}

pub data EntropyMode : Type 0 where
  virtio_and_rdrand virtio rdrand insecure : EntropyMode

-- The hardware: whether the virtio device came up and what its n-th request gives, the count with
-- the buffer, or an error; whether the processor has RDRAND and what its n-th step gives, whether
-- it succeeded with the word; and the n-th reading of the time stamp counter.
pub record Hardware : Type 0 where
  pub has_virtio : Bool
  pub request_entropy : ℕ → Option (ℕ × List ℕ)
  pub has_rdrand : Bool
  pub rdrand_step : ℕ → Bool × ℕ
  pub rdtsc : ℕ → ℕ

-- How often each was asked.
pub record Asked : Type 0 where
  pub requests : ℕ
  pub steps : ℕ
  pub readings : ℕ

-- `ChaCha20Rng`: `from_seed`, and the bytes that `fill_bytes` gives, with the state after it.
pub record Cipher (Rng : Type 0) : Type 0 where
  pub from_seed : List ℕ → Rng
  pub fill_bytes : Rng → ℕ → List ℕ × Rng

pub record Csprng (Rng : Type 0) : Type 0 where
  pub inner : Rng
  pub buf : List ℕ
  pub buf_pos : ℕ
  pub blocks : ℕ

abbrev pub reseed_interval : ℕ
reseed_interval = 1024

-- `to_le_bytes` of a `u64`, and `to_ne_bytes` on this machine, by the bytes to go.
abbrev pub le_bytes : ℕ → ℕ → List ℕ
le_bytes zero word = []
le_bytes (suc n) word = (word % 256) ∷ le_bytes n (word / 256)

-- `for (s, b) in seed.iter_mut().zip(source.iter()) { *s ^= *b; }`
unfoldable pub xor_into : List ℕ → List ℕ → List ℕ
xor_into [] source = []
xor_into (s ∷ seed) [] = s ∷ seed
xor_into (s ∷ seed) (b ∷ source) = bit_xor s b ∷ xor_into seed source

module _ (hw : Hardware) where
  -- `virtio_bytes`
  abbrev full_read : Option (ℕ × List ℕ) → Option (List ℕ)
  full_read (some (n, out)) = if n == 32 then some out else none
  full_read none = none

  unfoldable pub virtio_bytes : Asked → Option (List ℕ) × Asked
  virtio_bytes a =
      if hw.has_virtio
      then (full_read (hw.request_entropy a.requests), record a { requests = suc a.requests })
      else (none, a)

  -- `(0..10).any(..)`, by the tries that are left: the word of the first that succeeds
  unfoldable pub rdrand_word : ℕ → Asked → Option ℕ × Asked
  rdrand_word zero a = (none, a)
  rdrand_word (suc tries) a =
      let (fine, word) = hw.rdrand_step a.steps in
      let a' = record a { steps = suc a.steps } in
      let again = rdrand_word tries a' in if fine then (some word, a') else again

  -- `rdrand_bytes_unchecked`, by the chunks that are left
  unfoldable pub rdrand_chunks : ℕ → List ℕ → Asked → Option (List ℕ) × Asked
  unfolding rdrand_word
  rdrand_chunks zero out a = (some out, a)
  rdrand_chunks (suc chunks) out a =
      let (word, a') = rdrand_word 10 a in
      elim word [ none ↦ (none, a') | some w ↦ rdrand_chunks chunks (out ++ le_bytes 8 w) a' ]

  unfoldable pub rdrand_bytes : Asked → Option (List ℕ) × Asked
  unfolding rdrand_chunks
  rdrand_bytes a = if hw.has_rdrand then rdrand_chunks 4 [] a else (none, a)

  -- `gather_seed`, by what the two sources gave
  unfoldable pub mix : Option (List ℕ) → Option (List ℕ) → Option (List ℕ × EntropyMode)
  unfolding xor_into
  mix (some v) (some r) = some (xor_into (xor_into (replicate 32 0) v) r, virtio_and_rdrand)
  mix (some v) none = some (xor_into (replicate 32 0) v, virtio)
  mix none (some r) = some (xor_into (replicate 32 0) r, rdrand)
  mix none none = none

  unfoldable pub gather_seed : Asked → Option (List ℕ × EntropyMode) × Asked
  unfolding virtio_bytes rdrand_bytes mix
  gather_seed a = let (v, a') = virtio_bytes a in let (r, a'') = rdrand_bytes a' in (mix v r, a'')

module _ {Rng : Type 0} (c : Cipher Rng) (hw : Hardware) where
  -- `Csprng::new`
  unfoldable pub new : List ℕ → Csprng Rng
  new seed = record { inner = c.from_seed seed; buf = replicate 32 0; buf_pos = 32; blocks = 0 }

  -- The seed that `refill` continues from, once it is time to stir in fresh entropy.
  abbrev pub stirred : List ℕ → Option (List ℕ × EntropyMode) → List ℕ
  unfolding xor_into
  stirred seed none = seed
  stirred seed (some (fresh, mode)) = xor_into seed fresh

  -- `Csprng::refill`
  unfoldable pub refill : Csprng Rng → Asked → Csprng Rng × Asked
  unfolding gather_seed stirred
  refill g a =
      let block = (c.fill_bytes g.inner 64).0 in
      let blocks = (g.blocks + 1) % 2 ^ 32 in
      let (fresh, a') = gather_seed hw a in
      if leb reseed_interval blocks
      then (
        record {
          inner = c.from_seed (stirred (take 32 block) fresh);
          buf = drop 32 block;
          buf_pos = 0;
          blocks = 0;
        },
        a',
      )
      else (
        record {
          inner = c.from_seed (take 32 block);
          buf = drop 32 block;
          buf_pos = 0;
          blocks = blocks;
        },
        a,
      )

  -- One round of `Csprng::fill`; `none` is an index out of range.
  unfoldable pub ready : Csprng Rng → Asked → Csprng Rng × Asked
  ready g a = if g.buf_pos == length g.buf then refill g a else (g, a)

  abbrev pub prepend :
      ℕ → Option (List ℕ × Csprng Rng × Asked) → Option (List ℕ × Csprng Rng × Asked)
  prepend byte none = none
  prepend byte (some (out, g, a)) = some (byte ∷ out, g, a)

  unfoldable pub fill : ℕ → Csprng Rng → Asked → Option (List ℕ × Csprng Rng × Asked)
  fill zero g a = some ([], g, a)
  fill (suc n) g a =
      let (g', a') = ready g a in
      elim (get_elem? g'.buf g'.buf_pos) [
        | none ↦ none
        | some byte ↦ prepend byte (fill n (record g' { buf_pos = suc g'.buf_pos }) a')
      ]

-- `x ^= x << 13; x ^= x >> 7; x ^= x << 17;` on a `u64`
unfoldable pub xorshift : ℕ → ℕ
xorshift x =
    let y = bit_xor x (x * 2 ^ 13 % 2 ^ 64) in
    let z = bit_xor y (y / 2 ^ 7) in bit_xor z (z * 2 ^ 17 % 2 ^ 64)

-- `Xorshift64::next`, with the time stamp that it reads when it has no state yet
unfoldable pub next : ℕ → ℕ → ℕ
unfolding xorshift
next stamp state = xorshift (if state == 0 then bit_or stamp 1 else state)
