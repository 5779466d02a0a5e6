-- ===== src/Common/Map.antt =====
-- `BTreeMap` where its order does not matter: an association list over keys with an equality test.
use mathlib.Core.Path.{◌≡◌, refl}
use mathlib.Core.Bool.{Bool, true}
use mathlib.Core.Option.{Option, none, some}
use mathlib.Core.List.{List, [], ◌∷◌}
use native.Mathlib.Omega.{arith}
use conc_os.Common.Tests.{if◌then◌else◌}

pub record Eq {ℓ} (K : Type ℓ) : Type ℓ where
  pub beq : K → K → Bool
  pub beq_sound : (a b : K) → beq a b ≡ true → a ≡ b
  pub beq_refl : (a : K) → beq a a ≡ true

infix 50 ◌=?◌
abbrev pub ◌=?◌ {ℓ} : {K : Type ℓ} ⦃e : Eq K⦄ → K → K → Bool
◌=?◌ ⦃e⦄ = e.beq

module _ {ℓ κ} {K : Type ℓ} {V : Type κ} ⦃e : Eq K⦄ where
  -- `get`
  unfoldable pub lookup : K → List (K × V) → Option V
  lookup key [] = none
  lookup key ((here, value) ∷ rest) = if here =? key then some value else lookup key rest

  -- `insert`, without the old value that it returns
  unfoldable pub insert : K → V → List (K × V) → List (K × V)
  insert key value [] = (key, value) ∷ []
  insert key value ((here, old) ∷ rest) =
      if here =? key then (key, value) ∷ rest else (here, old) ∷ insert key value rest

  -- `remove`
  unfoldable pub remove : K → List (K × V) → List (K × V)
  remove key [] = []
  remove key ((here, old) ∷ rest) =
      if here =? key then remove key rest else (here, old) ∷ remove key rest

  pub lookup-insert :
      (key here : K) (value : V) (rest : List (K × V))
      → lookup here (insert key value rest) ≡ (if key =? here then some value else lookup here rest)
  unfolding lookup insert
  lookup-insert key here value [] = refl
  lookup-insert key here value ((other, old) ∷ rest) = ground (
    arith,
    e.beq_sound other key,
    e.beq_sound other here,
    e.beq_sound key here,
    e.beq_refl here,
    lookup-insert key here value rest,
  )

  pub lookup-remove :
      (key here : K) (rest : List (K × V))
      → lookup here (remove key rest) ≡ (if key =? here then none else lookup here rest)
  unfolding lookup remove
  lookup-remove key here [] = ground arith
  lookup-remove key here ((other, old) ∷ rest) = ground (
    arith,
    e.beq_sound other key,
    e.beq_sound other here,
    e.beq_sound key here,
    e.beq_refl here,
    lookup-remove key here rest,
  )
