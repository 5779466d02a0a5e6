-- ===== src/Kernel/Timers/Expiry.antt =====
-- The sleepers stay in order, and a tick wakes exactly those that are due.
use conc_os.Common.{
  ℕ, suc, ◌%◌, ◌^◌, ◌≤◌, ◌<◌, ◌≡◌, ◌⊎◌, inl, inr, refl, List, [], ◌∷◌, ◌++◌, map, true, ltb, leb,
  Bool-cases, ltb→lt, ap, All, arith,
}
use conc_os.Kernel.Timers.{
  Sleeper, Clock, TimeTask, Event, ticks, makes, polls, drops, now_ms, before, keyed, insert,
  remove, expire, poll, tick, step, run,
}

-- The keys strictly above a key.
abbrev pub Above : ℕ → ℕ → Sleeper → Type 0
Above at id s = (at < s.deadline) ⊎ ((at ≡ s.deadline) × (id < s.id))

abbrev pub IsSorted : List Sleeper → Type 0
IsSorted [] = Unit
IsSorted (s ∷ rest) = All (Above s.deadline s.id) rest × IsSorted rest

abbrev pub IsLater : ℕ → Sleeper → Type 0
IsLater now s = now < s.deadline

Above-trans :
    (a i : ℕ) (s : Sleeper) (rest : List Sleeper)
    → Above a i s
    → All (Above s.deadline s.id) rest
    → All (Above a i) rest
Above-trans a i s [] h v = tt
Above-trans a i s (r ∷ rest) h v = (ground (arith, v.0), Above-trans a i s rest h v.1)

insert-All :
    (P : Sleeper → Type 0) (at id waker : ℕ) (xs : List Sleeper)
    → P (record { deadline = at; id = id; waker = waker })
    → All P xs
    → All P (insert at id waker xs)
unfolding insert
insert-All P at id waker [] p v = (p, tt)
insert-All P at id waker (s ∷ rest) p v = elim (Bool-cases (keyed at id s)) [
  | inl same ↦ rw same (p, v.1)
  | inr other ↦ elim (Bool-cases (before at id s)) [
    | inl first ↦ rw (other, first) (p, v)
    | inr after ↦ rw (other, after) (v.0, insert-All P at id waker rest p v.1)
  ]
]

remove-All :
    (P : Sleeper → Type 0) (at id : ℕ) (xs : List Sleeper) → All P xs → All P (remove at id xs)
unfolding remove
remove-All P at id [] v = tt
remove-All P at id (s ∷ rest) v = elim (Bool-cases (keyed at id s)) [
  | inl same ↦ rw same v.1
  | inr other ↦ rw other (v.0, remove-All P at id rest v.1)
]

before-Above : (at id : ℕ) (s : Sleeper) → before at id s ≡ true → Above at id s
before-Above at id s h = elim (Bool-cases (ltb at s.deadline)) [
  | inl less ↦ inl (ltb→lt at s.deadline less)
  | inr other ↦ inr (ground arith)
]

-- The keys above an equal key.
moved :
    (at id : ℕ) (s : Sleeper) (rest : List Sleeper)
    → keyed at id s ≡ true
    → All (Above s.deadline s.id) rest
    → All (Above at id) rest
moved at id s rest h v =
    let same : at ≡ s.deadline = ground arith in
    let same_id : id ≡ s.id = ground arith in rw (same, same_id) v

pub insert-IsSorted :
    (at id waker : ℕ) (xs : List Sleeper) → IsSorted xs → IsSorted (insert at id waker xs)
unfolding insert
insert-IsSorted at id waker [] v = (tt, tt)
insert-IsSorted at id waker (s ∷ rest) v = elim (Bool-cases (keyed at id s)) [
  | inl same ↦ rw same (moved at id s rest same v.0, v.1)
  | inr other ↦ elim (Bool-cases (before at id s)) [
    | inl first ↦
        rw (other, first)
          (
            (before-Above at id s first, Above-trans at id s rest (before-Above at id s first) v.0),
            v,
          )
    | inr after ↦
        rw (other, after)
          (
            insert-All (Above s.deadline s.id) at id waker rest (ground arith) v.0,
            insert-IsSorted at id waker rest v.1,
          )
  ]
]

pub remove-IsSorted : (at id : ℕ) (xs : List Sleeper) → IsSorted xs → IsSorted (remove at id xs)
unfolding remove
remove-IsSorted at id [] v = tt
remove-IsSorted at id (s ∷ rest) v = elim (Bool-cases (keyed at id s)) [
  | inl same ↦ rw same v.1
  | inr other ↦
      rw other (remove-All (Above s.deadline s.id) at id rest v.0, remove-IsSorted at id rest v.1)
]

IsLater-All :
    (now at id : ℕ) (rest : List Sleeper)
    → now < at
    → All (Above at id) rest
    → All (IsLater now) rest
IsLater-All now at id [] h v = tt
IsLater-All now at id (s ∷ rest) h v = (ground (arith, v.0), IsLater-All now at id rest h v.1)

-- What `expire` does at a time: it wakes a first part of the sleepers, all of them due, in order,
-- and leaves the others, none of them due.
pub record Expired (now : ℕ) (xs : List Sleeper) (woken : List ℕ) (rest : List Sleeper)
    : Type 0 where
  pub due : List Sleeper
  pub shape : xs ≡ due ++ rest
  pub over : All (λ s. s.deadline ≤ now) due
  pub names : woken ≡ map Sleeper.waker due
  pub later : All (IsLater now) rest
  pub in_order : IsSorted rest

pub expire-Expired :
    (now : ℕ) (xs : List Sleeper) → IsSorted xs → Expired now xs (expire now xs).0 (expire now xs).1
unfolding expire
expire-Expired now [] v = record {
  due = [];
  shape = refl;
  over = tt;
  names = refl;
  later = tt;
  in_order = tt;
}
expire-Expired now (s ∷ rest) v = elim (Bool-cases (ltb now s.deadline)) [
  | inl early ↦
      let h = ltb→lt now s.deadline early in
      rw early (record {
        due = [];
        shape = refl;
        over = tt;
        names = refl;
        later = (h, IsLater-All now s.deadline s.id rest h v.0);
        in_order = v;
      })
  | inr late ↦
      let e = expire-Expired now rest v.1 in
      rw late (record {
        due = s ∷ e.due;
        shape = ap (◌∷◌ s) e.shape;
        over = (ground arith, e.over);
        names = ap (◌∷◌ s.waker) e.names;
        later = e.later;
        in_order = e.in_order;
      })
]

-- The clock between two events: the sleepers are in order, and none of them is due.
pub record IsClock (c : Clock) : Type 0 where
  pub ordered : IsSorted c.timers
  pub pending : All (IsLater (now_ms c.ticks)) c.timers

-- A tick wakes exactly the sleepers whose deadline is not after the new time, in the order of their
-- deadlines and ids, and leaves exactly the others asleep.
pub tick-Expired :
    (c : Clock)
    → IsClock c
    → (woken : List ℕ) × ((tick c).woken ≡ c.woken ++ woken)
      × Expired (now_ms (tick c).ticks) c.timers woken (tick c).timers
unfolding tick
tick-Expired c v =
    let now = now_ms (suc c.ticks % 2 ^ 64) in
    ((expire now c.timers).0, refl, expire-Expired now c.timers v.ordered)

poll-IsClock : (t : TimeTask) (waker : ℕ) (c : Clock) → IsClock c → IsClock (poll t waker c).1
unfolding poll
poll-IsClock t waker c v = elim (Bool-cases (leb t.deadline_ms (now_ms c.ticks))) [
  | inl over ↦ rw over (record {
    ordered = remove-IsSorted t.deadline_ms t.task_id c.timers v.ordered;
    pending = remove-All (IsLater (now_ms c.ticks)) t.deadline_ms t.task_id c.timers v.pending;
  })
  | inr later ↦ rw later (record {
    ordered = insert-IsSorted t.deadline_ms t.task_id waker c.timers v.ordered;
    pending =
        insert-All (IsLater (now_ms c.ticks)) t.deadline_ms t.task_id waker c.timers (ground arith)
          v.pending;
  })
]

pub step-IsClock : (event : Event) (c : Clock) → IsClock c → IsClock (step event c)
unfolding step
step-IsClock ticks c v =
    let (woken, said, e) = tick-Expired c v in record { ordered = e.in_order; pending = e.later }
step-IsClock (makes duration) c v = record { ordered = v.ordered; pending = v.pending }
step-IsClock (polls t waker) c v = poll-IsClock t waker c v
step-IsClock (drops t) c v = record {
  ordered = remove-IsSorted t.deadline_ms t.task_id c.timers v.ordered;
  pending = remove-All (IsLater (now_ms c.ticks)) t.deadline_ms t.task_id c.timers v.pending;
}

pub run-IsClock : (events : List Event) (c : Clock) → IsClock c → IsClock (run events c)
unfolding run
run-IsClock [] c v = v
run-IsClock (event ∷ events) c v = run-IsClock events (step event c) (step-IsClock event c v)
