-- ===== src/Kernel/Locks/Phases.antt =====
-- kernel/src/mutex.rs: where a context is in `lock` or in the drop of a guard, and what each action
-- does there to the interrupt flag and to the guards.
use conc_os.Common.{
  ℕ, ◌≡◌, refl, sym, ◌∙◌, subst, ap, List, [], ◌∷◌, Bool, true, false, inl, inr, some, ◌||◌,
  Bool-cases, if◌then◌else◌, arith,
}
use conc_os.Kernel.Locks.{
  Guard, Action, Context, Cpu, holds, holds_any, lock, unlock, disable_if_saved, acquire, enable_if,
  without_newest, advance,
}

-- How interrupts are between two calls, if they are `base` while nothing is held.
abbrev pub expected : Bool → List Guard → Bool
expected base [] = base
expected base (g ∷ guards) = false

-- Each guard restores what was before it.
abbrev pub Unwinds : Bool → List Guard → Type 0
Unwinds base [] = Unit
Unwinds base (g ∷ guards) = (g.saved_int ≡ expected base guards) × Unwinds base guards

-- In a handler interrupts are disabled when it holds nothing.
abbrev pub at_rest : Bool → List Context → Bool
at_rest first [] = first
at_rest first (context ∷ rest) = false

-- Where a context is in `lock` or in a drop, and how interrupts are there.
pub data Phase (base : Bool) (x : Context) (enabled : Bool) : Type 0 where
  resting : x.todo ≡ [] → enabled ≡ expected base x.guards → Phase base x enabled
  saving : (m : ℕ) → x.todo ≡ lock m → enabled ≡ expected base x.guards → Phase base x enabled
  disabling :
      (m : ℕ)
      → x.todo ≡ disable_if_saved ∷ acquire m ∷ []
      → enabled ≡ expected base x.guards
      → x.saved_int ≡ expected base x.guards
      → Phase base x enabled
  acquiring :
      (m : ℕ)
      → x.todo ≡ acquire m ∷ []
      → enabled ≡ false
      → x.saved_int ≡ expected base x.guards
      → Phase base x enabled
  releasing :
      (g : Guard) (rest : List Guard)
      → x.guards ≡ g ∷ rest
      → x.todo ≡ unlock g
      → enabled ≡ false
      → Phase base x enabled
  enabling :
      (saved : Bool)
      → x.todo ≡ enable_if saved ∷ []
      → enabled ≡ false
      → saved ≡ expected base x.guards
      → Phase base x enabled

-- Enabled interrupts mean that nothing is held.
enabled_free :
    {base : Bool} (guards : List Guard)
    → expected base guards ≡ true
    → (guards ≡ []) × (base ≡ true)
enabled_free [] e = (refl, e)
enabled_free (g ∷ guards) e = cc

pub Phase-enabled :
    {base : Bool} (x : Context) {enabled : Bool}
    → Phase base x enabled
    → enabled ≡ true
    → (x.guards ≡ []) × (base ≡ true)
Phase-enabled x (resting e f) h = enabled_free x.guards (sym f ∙ h)
Phase-enabled x (saving m e f) h = enabled_free x.guards (sym f ∙ h)
Phase-enabled x (disabling m e f s) h = enabled_free x.guards (sym f ∙ h)
Phase-enabled x (acquiring m e f s) h = cc
Phase-enabled x (releasing g rest e t f) h = cc
Phase-enabled x (enabling saved t f s) h = cc

-- What an action leaves of the invariant, where the contexts below stay.
abbrev pub Kept : Bool → Cpu → Cpu → Type 0
Kept base c d =
    Phase base d.running d.enabled × Unwinds base d.running.guards × (d.interrupted ≡ c.interrupted)

masked :
    (saved : Bool) {enabled : Bool} → enabled ≡ saved → (if saved then false else enabled) ≡ false
masked true e = refl
masked false e = e

restored :
    (saved : Bool) {enabled was : Bool}
    → enabled ≡ false
    → saved ≡ was
    → (if saved then true else enabled) ≡ was
restored true f e = e
restored false f e = f ∙ e

landed : {base : Bool} (c : Cpu) {x d : Cpu} → some x ≡ some d → Kept base c x → Kept base c d
landed {base} c {x} {d} h = subst (Kept base c) (let e : x ≡ d = cc in e)

module _ (base : Bool) (c : Cpu) {d : Cpu} where
  save_step :
      (m : ℕ)
      → c.enabled ≡ expected base c.running.guards
      → Unwinds base c.running.guards
      → advance (lock m) c ≡ some d
      → Kept base c d
  unfolding advance lock
  save_step m f u h = landed c h (disabling m refl f f, u, refl)

  disable_step :
      (m : ℕ)
      → c.enabled ≡ expected base c.running.guards
      → c.running.saved_int ≡ expected base c.running.guards
      → Unwinds base c.running.guards
      → advance (disable_if_saved ∷ acquire m ∷ []) c ≡ some d
      → Kept base c d
  unfolding advance
  disable_step m f s u h =
      landed c h (acquiring m refl (masked c.running.saved_int (f ∙ sym s)) s, u, refl)

  acquire_step :
      (m : ℕ)
      → c.enabled ≡ false
      → c.running.saved_int ≡ expected base c.running.guards
      → Unwinds base c.running.guards
      → advance (acquire m ∷ []) c ≡ some d
      → Kept base c d
  unfolding advance
  acquire_step m f s u h =
      elim (Bool-cases (holds m c.running.guards || holds_any m c.interrupted)) [
        | inl taken ↦ absurd (ground arith)
        | inr free ↦ landed c (rw free at h) (resting refl f, (s, u), refl)
      ]

  release_step :
      (g : Guard) (rest : List Guard)
      → c.running.guards ≡ g ∷ rest
      → c.enabled ≡ false
      → Unwinds base c.running.guards
      → advance (unlock g) c ≡ some d
      → Kept base c d
  unfolding advance unlock
  release_step g rest e f u h =
      let v : Unwinds base (g ∷ rest) = subst (Unwinds base) e u in
      let left : without_newest c.running.guards ≡ rest = ap without_newest e in
      landed c h (
        enabling g.saved_int refl f (v.0 ∙ ap (expected base) (sym left)),
        subst (Unwinds base) (sym left) v.1,
        refl,
      )

  enable_step :
      (saved : Bool)
      → c.enabled ≡ false
      → saved ≡ expected base c.running.guards
      → Unwinds base c.running.guards
      → advance (enable_if saved ∷ []) c ≡ some d
      → Kept base c d
  unfolding advance
  enable_step saved f s u h = landed c h (resting refl (restored saved f s), u, refl)

  rest_step : advance [] c ≡ some d → Kept base c d
  unfolding advance
  rest_step h = cc

  pub act_step :
      Phase base c.running c.enabled
      → Unwinds base c.running.guards
      → advance c.running.todo c ≡ some d
      → Kept base c d
  act_step phase u h = elim phase [
    | resting e f ↦ rest_step (at e)
    | saving m e f ↦ save_step m f u (at e)
    | disabling m e f s ↦ disable_step m f s u (at e)
    | acquiring m e f s ↦ acquire_step m f s u (at e)
    | releasing g rest own e f ↦ release_step g rest own f u (at e)
    | enabling saved e f s ↦ enable_step saved f s u (at e)
  ]
    where
      at : {todo : List Action} → c.running.todo ≡ todo → advance todo c ≡ some d
      at e = subst (λ actions. advance actions c ≡ some d) e h

-- A call begins between two calls.
pub resting_expected :
    {base : Bool} {x : Context} {enabled : Bool}
    → Phase base x enabled
    → x.todo ≡ []
    → enabled ≡ expected base x.guards
unfolding lock unlock
resting_expected (resting e f) h = f
resting_expected (saving m e f) h = f
resting_expected (disabling m e f s) h = f
resting_expected (acquiring m e f s) h = cc
resting_expected (releasing g rest own e f) h = cc
resting_expected (enabling saved e f s) h = cc
