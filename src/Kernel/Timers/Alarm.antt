-- ===== src/Kernel/Timers/Alarm.antt =====
-- A sleeper that waits is woken once its deadline has come, whatever else happens meanwhile.
use conc_os.Common.{
  ℕ, ◌≤◌, ◌<◌, ◌≡◌, ◌≢◌, ◌⊎◌, inl, inr, refl, List, [], ◌∷◌, ◌++◌, false, ltb, leb, Bool-cases, All,
  arith,
}
use conc_os.Kernel.Timers.{
  Sleeper, Clock, TimeTask, Event, ticks, makes, polls, drops, now_ms, before, keyed, insert,
  remove, expire, poll, tick, step, run,
}
use conc_os.Kernel.Timers.Expiry.{IsClock, IsLater, run-IsClock, step-IsClock}

-- That a key sleeps with a waker, and that a waker was woken.
abbrev pub Sleeps : ℕ → ℕ → ℕ → List Sleeper → Type 0
Sleeps at id waker [] = ⊥
Sleeps at id waker (s ∷ rest) =
    ((s.deadline ≡ at) × (s.id ≡ id) × (s.waker ≡ waker)) ⊎ Sleeps at id waker rest

abbrev pub Woke : ℕ → List ℕ → Type 0
Woke waker [] = ⊥
Woke waker (w ∷ rest) = (w ≡ waker) ⊎ Woke waker rest

Woke-append_left : (w : ℕ) (xs ys : List ℕ) → Woke w xs → Woke w (xs ++ ys)
Woke-append_left w [] ys h = elim h [ ]
Woke-append_left w (x ∷ xs) ys (inl e) = inl e
Woke-append_left w (x ∷ xs) ys (inr r) = inr (Woke-append_left w xs ys r)

Woke-append_right : (w : ℕ) (xs ys : List ℕ) → Woke w ys → Woke w (xs ++ ys)
Woke-append_right w [] ys h = h
Woke-append_right w (x ∷ xs) ys h = inr (Woke-append_right w xs ys h)

module _ (at id waker : ℕ) where
  insert-Sleeps : (xs : List Sleeper) → Sleeps at id waker (insert at id waker xs)
  unfolding insert
  insert-Sleeps [] = inl (refl, refl, refl)
  insert-Sleeps (s ∷ rest) = elim (Bool-cases (keyed at id s)) [
    | inl same ↦ rw same (inl (refl, refl, refl))
    | inr other ↦ elim (Bool-cases (before at id s)) [
      | inl first ↦ rw (other, first) (inl (refl, refl, refl))
      | inr after ↦ rw (other, after) (inr (insert-Sleeps rest))
    ]
  ]

  insert_other-Sleeps :
      (at' id' waker' : ℕ) (xs : List Sleeper)
      → id' ≢ id
      → Sleeps at id waker xs
      → Sleeps at id waker (insert at' id' waker' xs)
  unfolding insert
  insert_other-Sleeps at' id' waker' [] ne h = elim h [ ]
  insert_other-Sleeps at' id' waker' (s ∷ rest) ne h = elim (Bool-cases (keyed at' id' s)) [
    | inl same ↦ rw same (elim h [ inl e ↦ absurd (ne (ground arith)) | inr r ↦ inr r ])
    | inr other ↦ elim (Bool-cases (before at' id' s)) [
      | inl first ↦ rw (other, first) (inr h)
      | inr after ↦
          rw (other, after)
            (elim h [ inl e ↦ inl e | inr r ↦ inr (insert_other-Sleeps at' id' waker' rest ne r) ])
    ]
  ]

  remove_other-Sleeps :
      (at' id' : ℕ) (xs : List Sleeper)
      → id' ≢ id
      → Sleeps at id waker xs
      → Sleeps at id waker (remove at' id' xs)
  unfolding remove
  remove_other-Sleeps at' id' [] ne h = elim h [ ]
  remove_other-Sleeps at' id' (s ∷ rest) ne h = elim (Bool-cases (keyed at' id' s)) [
    | inl same ↦ rw same (elim h [ inl e ↦ absurd (ne (ground arith)) | inr r ↦ r ])
    | inr other ↦
        rw other (elim h [ inl e ↦ inl e | inr r ↦ inr (remove_other-Sleeps at' id' rest ne r) ])
  ]

  expire-Sleeps :
      (now : ℕ) (xs : List Sleeper)
      → Sleeps at id waker xs
      → Sleeps at id waker (expire now xs).1 ⊎ Woke waker (expire now xs).0
  unfolding expire
  expire-Sleeps now [] h = elim h [ ]
  expire-Sleeps now (s ∷ rest) h = elim (Bool-cases (ltb now s.deadline)) [
    | inl early ↦ rw early (inl h)
    | inr late ↦ rw late (elim h [
      | inl (a, i, e) ↦ inr (inl e)
      | inr r ↦ elim (expire-Sleeps now rest r) [ inl l ↦ inl l | inr w ↦ inr (inr w) ]
    ])
  ]

  not_over : (now : ℕ) (xs : List Sleeper) → All (IsLater now) xs → Sleeps at id waker xs → now < at
  not_over now [] v h = elim h [ ]
  not_over now (s ∷ rest) v (inl e) = omega (arith, v.0, e)
  not_over now (s ∷ rest) v (inr r) = not_over now rest v.1 r

  -- The sleeper still waits, or was woken.
  abbrev pub Attended : Clock → Type 0
  Attended c = Sleeps at id waker c.timers ⊎ Woke waker c.woken

  -- An event of some other sleeper.
  abbrev pub Other : Event → Type 0
  Other ticks = Unit
  Other (makes duration) = Unit
  Other (polls t w) = t.task_id ≢ id
  Other (drops t) = t.task_id ≢ id

  tick-Attended : (c : Clock) → Attended c → Attended (tick c)
  unfolding tick
  tick-Attended c (inr w) = inr (Woke-append_left waker c.woken _ w)
  tick-Attended c (inl s) = elim (expire-Sleeps (now_ms (tick c).ticks) c.timers s) [
    | inl l ↦ inl l
    | inr w ↦ inr (Woke-append_right waker c.woken _ w)
  ]

  poll-Attended :
      (t : TimeTask) (w : ℕ) (c : Clock) → t.task_id ≢ id → Attended c → Attended (poll t w c).1
  unfolding poll
  poll-Attended t w c ne h = elim (Bool-cases (leb t.deadline_ms (now_ms c.ticks))) [
    | inl over ↦ rw over (elim h [
      | inl s ↦ inl (remove_other-Sleeps t.deadline_ms t.task_id c.timers ne s)
      | inr v ↦ inr v
    ])
    | inr later ↦ rw later (elim h [
      | inl s ↦ inl (insert_other-Sleeps t.deadline_ms t.task_id w c.timers ne s)
      | inr v ↦ inr v
    ])
  ]

  step-Attended : (event : Event) (c : Clock) → Other event → Attended c → Attended (step event c)
  unfolding step
  step-Attended ticks c o h = tick-Attended c h
  step-Attended (makes duration) c o h = h
  step-Attended (polls t w) c o h = poll-Attended t w c o h
  step-Attended (drops t) c o (inl s) =
      inl (remove_other-Sleeps t.deadline_ms t.task_id c.timers o s)
  step-Attended (drops t) c o (inr w) = inr w

  run-Attended :
      (events : List Event) (c : Clock) → All Other events → Attended c → Attended (run events c)
  unfolding run
  run-Attended [] c o h = h
  run-Attended (event ∷ events) c o h =
      run-Attended events (step event c) o.1 (step-Attended event c o.0 h)

lt→leb : (a b : ℕ) → a < b → leb b a ≡ false
lt→leb a b h = ground arith

poll_later :
    (t : TimeTask) (waker : ℕ) (c : Clock)
    → now_ms c.ticks < t.deadline_ms
    → Sleeps t.deadline_ms t.task_id waker (poll t waker c).1.timers
unfolding poll
poll_later t waker c h =
    rw (lt→leb (now_ms c.ticks) t.deadline_ms h)
      (insert-Sleeps t.deadline_ms t.task_id waker c.timers)

-- No wake-up is lost: a task that polls a timer before its deadline, in a well-formed clock, has
-- been woken by the time the clock has reached the deadline, whatever other timers are made,
-- polled and dropped and however the ticks fall in between.
pub alarm-Woke :
    (t : TimeTask) (waker : ℕ) (c : Clock) (events : List Event)
    → IsClock c
    → now_ms c.ticks < t.deadline_ms
    → All (Other t.deadline_ms t.task_id waker) events
    → t.deadline_ms ≤ now_ms (run (polls t waker ∷ events) c).ticks
    → Woke waker (run (polls t waker ∷ events) c).woken
unfolding run
alarm-Woke t waker c events v h others over =
    let asleep = step (polls t waker) c in
    elim (run-Attended t.deadline_ms t.task_id waker events asleep others
      (inl (unfold step in poll_later t waker c h))) [
        | inr w ↦ w
        | inl s ↦
            let fresh = run-IsClock events asleep (step-IsClock (polls t waker) c v) in
            absurd (
              omega (
                arith,
                over,
                not_over t.deadline_ms t.task_id waker (now_ms (run events asleep).ticks)
                    (run events asleep).timers fresh.pending s,
              ))
      ]
