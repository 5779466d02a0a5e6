-- ===== src/Kernel/Locks/Safety.antt =====
-- kernel/src/mutex.rs: while a mutex is held interrupts are disabled, so that no handler waits for
-- the code that it interrupted, and the last guard to go leaves interrupts as the first found them.
use conc_os.Common.{
  ℕ, ◌≡◌, ◌≢◌, refl, sym, ◌∙◌, subst, ap, List, [], ◌∷◌, Bool, true, false, inl, inr, ◌||◌,
  Bool-cases,
}
use conc_os.Kernel.Locks.{
  Context, Cpu, holds, holds_any, enter, leave, Step, locks, unlocks, acts, interrupts, returns,
  boot, Reach, start, later,
}
use conc_os.Kernel.Locks.Phases.{
  expected, at_rest, Unwinds, Phase, resting, saving, releasing, Phase-enabled, Kept, act_step,
  resting_expected,
}

-- One handler runs at most, and on code that holds nothing; `first` is how interrupts were at the
-- start.
pub data Below (first : Bool) (contexts : List Context) : Type 0 where
  nothing : contexts ≡ [] → Below first contexts
  one :
      (x : Context)
      → contexts ≡ x ∷ []
      → x.guards ≡ []
      → first ≡ true
      → Phase true x true
      → Below first contexts

pub record IsCpu (first : Bool) (c : Cpu) : Type 0 where
  pub below : Below first c.interrupted
  pub phase : Phase (at_rest first c.interrupted) c.running c.enabled
  pub unwinds : Unwinds (at_rest first c.interrupted) c.running.guards

boot-IsCpu : (first : Bool) → IsCpu first (boot first)
boot-IsCpu first = record { below = nothing refl; phase = resting refl refl; unwinds = tt }

module _ (first : Bool) where
  Kept-IsCpu : (c d : Cpu) → IsCpu first c → Kept (at_rest first c.interrupted) c d → IsCpu first d
  Kept-IsCpu c d v (phase, unwinds, same) = record {
    below = subst (Below first) (sym same) v.below;
    phase = subst (λ cs. Phase (at_rest first cs) d.running d.enabled) (sym same) phase;
    unwinds = subst (λ cs. Unwinds (at_rest first cs) d.running.guards) (sym same) unwinds;
  }

  enter-IsCpu : (c : Cpu) → c.enabled ≡ true → IsCpu first c → IsCpu first (enter c)
  unfolding enter
  enter-IsCpu c e v = elim v.below [
    | nothing none_below ↦
        let phase : Phase first c.running c.enabled =
          subst (λ cs. Phase (at_rest first cs) c.running c.enabled) none_below v.phase in
        let (free, f) = Phase-enabled c.running phase e in
        record {
          below =
              one c.running (ap (◌∷◌ c.running) none_below) free f
                (subst (Phase true c.running) e (subst (λ b. Phase b c.running c.enabled) f phase));
          phase = resting refl refl;
          unwinds = tt;
        }
    | one x e' free f phase ↦
        let (free', wrong) = Phase-enabled c.running v.phase e in
        absurd (let h : false ≡ true = sym (ap (at_rest first) e') ∙ wrong in cc)
  ]

  leave-IsCpu :
      (context : Context) (rest : List Context) (c : Cpu)
      → c.interrupted ≡ context ∷ rest
      → IsCpu first c
      → IsCpu first (leave context rest)
  unfolding leave
  leave-IsCpu context rest c e v = elim v.below [
    | nothing none_below ↦ absurd (cc)
    | one x e' free f phase ↦
        let same : x ≡ context = cc in
        let last : [] ≡ rest = cc in
        subst (λ y. IsCpu first (leave y rest)) same
          (subst (λ r. IsCpu first (leave x r)) last
            (record {
              below = nothing refl;
              phase = subst (λ b. Phase b x true) (sym f) phase;
              unwinds = subst (Unwinds first) (sym free) tt;
            }))
  ]

  Step-IsCpu : {c d : Cpu} → Step c d → IsCpu first c → IsCpu first d
  Step-IsCpu {c} (locks m e f) v = subst (IsCpu first) (sym f) (record {
    below = v.below;
    phase = saving m refl (resting_expected v.phase e);
    unwinds = v.unwinds;
  })
  Step-IsCpu {c} (unlocks g rest e own f) v = subst (IsCpu first) (sym f) (record {
    below = v.below;
    phase =
        releasing g rest own refl
          (resting_expected v.phase e ∙ ap (expected (at_rest first c.interrupted)) own);
    unwinds = v.unwinds;
  })
  Step-IsCpu {c} {d} (acts e) v =
      Kept-IsCpu c d v (act_step (at_rest first c.interrupted) c v.phase v.unwinds e)
  Step-IsCpu {c} (interrupts e f) v = subst (IsCpu first) (sym f) (enter-IsCpu c e v)
  Step-IsCpu {c} (returns context rest e free f g) v =
      subst (IsCpu first) (sym g) (leave-IsCpu context rest c f v)

  Reach-IsCpu : {c : Cpu} → Reach first c → IsCpu first c
  Reach-IsCpu start = boot-IsCpu first
  Reach-IsCpu (later r s) = Step-IsCpu s (Reach-IsCpu r)

  holds_any-Below : (m : ℕ) (below : List Context) → Below first below → holds_any m below ≡ false
  holds_any-Below m below (nothing e) = ap (holds_any m) e
  holds_any-Below m below (one x e free f phase) =
      ap (holds_any m) e ∙ ap (λ guards. holds m guards || false) free

held_disabled :
    {base : Bool} (x : Context) {enabled : Bool}
    → Phase base x enabled
    → x.guards ≢ []
    → enabled ≡ false
held_disabled x {enabled} phase held = elim (Bool-cases enabled) [
  | inl e ↦ absurd (held (Phase-enabled x phase e).0)
  | inr e ↦ e
]

-- In every state that the kernel can reach by locking mutexes, dropping its newest guard, taking
-- interrupts and returning from them, where an interrupt can come between any two actions of a lock
-- or a drop and the code changes the interrupt flag in no other way: no mutex is held by interrupted
-- code, so that a handler never waits for one; while the running code holds a mutex, interrupts are
-- disabled; and outside of handlers, between two calls with no guard left, they are as they were at
-- the start.
pub held-Disabled :
    {first : Bool} {c : Cpu}
    → Reach first c
    → ((m : ℕ) → holds_any m c.interrupted ≡ false)
      × (c.running.guards ≢ [] → c.enabled ≡ false)
      × (c.running.todo ≡ [] → c.running.guards ≡ [] → c.interrupted ≡ [] → c.enabled ≡ first)
held-Disabled {first} {c} r =
    let v = Reach-IsCpu first r in
    (
      (λ m. holds_any-Below first m c.interrupted v.below),
      (λ held. held_disabled c.running v.phase held),
      (λ idle free alone.
          resting_expected v.phase idle
          ∙ ap (expected (at_rest first c.interrupted)) free
          ∙ ap (at_rest first) alone),
    )
