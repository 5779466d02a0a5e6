-- ===== src/Common/Results.antt =====
-- Rust's `Result`, with a third outcome for a panic (an index out of range, a failed `unwrap`).
use mathlib.Core.Path.{◌≡◌, refl}
use mathlib.Core.Bool.{Bool, true, false}
use mathlib.Core.Logic.{◌≢◌}
use mathlib.Core.Option.{Option, none, some}

pub data Result {ℓ κ} (E : Type ℓ) (A : Type κ) : Type (ℓ ⊔ κ) where
  ok : A → Result E A
  err : E → Result E A
  panic : Result E A

infixl 5 ◌>>=◌ ◌>>◌
abbrev pub ◌>>=◌ {ℓ κ μ} :
    {E : Type ℓ} {A : Type κ} {B : Type μ} → Result E A → (A → Result E B) → Result E B
ok a >>= f = f a
err e >>= f = err e
panic >>= f = panic

abbrev pub ◌>>◌ {ℓ μ} : {E : Type ℓ} {B : Type μ} → Result E (Unit {0}) → Result E B → Result E B
m >> k = m >>= λ _. k

-- `if test { return Err(e); }`
abbrev pub reject_if {ℓ} : {E : Type ℓ} → Bool → E → Result E (Unit {0})
reject_if true e = err e
reject_if false e = ok tt

-- `map_err`
abbrev pub map_err {ℓ κ μ} :
    {E : Type ℓ} {F : Type κ} {A : Type μ} → (E → F) → Result E A → Result F A
map_err f (ok a) = ok a
map_err f (err e) = err (f e)
map_err f panic = panic

-- `expect` and `unwrap` on an option.
abbrev pub or_panic {ℓ κ} : {E : Type ℓ} {A : Type κ} → Option A → Result E A
or_panic none = panic
or_panic (some a) = ok a

-- `ok_or` on an option.
abbrev pub ok_or {ℓ κ} : {E : Type ℓ} {A : Type κ} → Option A → E → Result E A
ok_or none e = err e
ok_or (some a) e = ok a

pub ok-injective {ℓ κ} :
    {E : Type ℓ} {A : Type κ} {a b : A} → ◌≡◌ {A = Result E A} (ok a) (ok b) → a ≡ b
ok-injective h = cc

-- `>>=` with continuations that agree.
pub bind_ext {ℓ κ μ} :
    {E : Type ℓ} {A : Type κ} {B : Type μ} {f g : A → Result E B} (r : Result E A)
    → ((a : A) → f a ≡ g a)
    → (r >>= f) ≡ (r >>= g)
bind_ext (ok a) h = h a
bind_ext (err e) h = refl
bind_ext panic h = refl

pub err≢ok {ℓ κ} : {E : Type ℓ} {A : Type κ} {e : E} {a : A} → ◌≢◌ {A = Result E A} (err e) (ok a)
err≢ok h = cc

pub panic≢ok {ℓ κ} : {E : Type ℓ} {A : Type κ} {a : A} → ◌≢◌ {A = Result E A} panic (ok a)
panic≢ok h = cc

-- What a chain that succeeds has passed.
pub reject_if-ok {ℓ κ} :
    {E : Type ℓ} {A : Type κ} (test : Bool) (e : E) (k : Result E A) (a : A)
    → (reject_if test e >> k) ≡ ok a
    → (test ≡ false) × (k ≡ ok a)
reject_if-ok true e k a h = absurd (err≢ok h)
reject_if-ok false e k a h = (refl, h)

pub bind-ok {ℓ κ μ} :
    {E : Type ℓ} {A : Type κ} {B : Type μ} (r : Result E A) (f : A → Result E B) (b : B)
    → (r >>= f) ≡ ok b
    → (a : A) × (r ≡ ok a) × (f a ≡ ok b)
bind-ok (ok a) f b h = (a, refl, h)
bind-ok (err e) f b h = absurd (err≢ok h)
bind-ok panic f b h = absurd (panic≢ok h)

-- A chain whose parts do not panic does not panic.
pub reject_if-total {ℓ κ} :
    {E : Type ℓ} {A : Type κ} (test : Bool) (e : E) (k : Result E A)
    → k ≢ panic
    → (reject_if test e >> k) ≢ panic
reject_if-total true e k h = λ z. cc
reject_if-total false e k h = h

pub bind-total {ℓ κ μ} :
    {E : Type ℓ} {A : Type κ} {B : Type μ} (r : Result E A) (f : A → Result E B)
    → r ≢ panic
    → ((a : A) → f a ≢ panic)
    → (r >>= f) ≢ panic
bind-total (ok a) f h k = k a
bind-total (err e) f h k = λ z. cc
bind-total panic f h k = absurd (h refl)
