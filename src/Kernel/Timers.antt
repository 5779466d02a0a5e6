-- ===== src/Kernel/Timers.antt =====
-- kernel/src/task/time.rs and the clock of kernel/src/time.rs: the sleepers in the order of their
-- deadlines, and the tasks that the timer interrupt has woken. A waker is the id of its task.
pub mod Expiry
pub mod Alarm
use conc_os.Common.{
  ℕ, suc, ◌+◌, ◌*◌, ◌/◌, ◌%◌, ◌^◌, List, [], ◌∷◌, ◌++◌, Bool, true, false, ◌&&◌, ◌||◌, Option, none,
  some, ltb, leb, ◌==◌, if◌then◌else◌,
}

abbrev pub tick_hz : ℕ
tick_hz = 1000

-- A key `(deadline, id)` of the map with its waker.
pub record Sleeper : Type 0 where
  pub deadline : ℕ
  pub id : ℕ
  pub waker : ℕ

pub record TimeTask : Type 0 where
  pub deadline_ms : ℕ
  pub task_id : ℕ

-- `TIMERS` by its keys in order, `TICKS`, `NEXT_ID`, and what was woken, oldest first.
pub record Clock : Type 0 where
  pub timers : List Sleeper
  pub ticks : ℕ
  pub next_id : ℕ
  pub woken : List ℕ

-- `now_ms`
unfoldable pub now_ms : ℕ → ℕ
now_ms ticks = ticks * 1000 % 2 ^ 64 / tick_hz

-- The order and the equality of keys.
abbrev pub before : ℕ → ℕ → Sleeper → Bool
before at id s = ltb at s.deadline || (at == s.deadline && ltb id s.id)

abbrev pub keyed : ℕ → ℕ → Sleeper → Bool
keyed at id s = at == s.deadline && id == s.id

-- `BTreeMap::insert` and `BTreeMap::remove`
unfoldable pub insert : ℕ → ℕ → ℕ → List Sleeper → List Sleeper
insert at id waker [] = record { deadline = at; id = id; waker = waker } ∷ []
insert at id waker (s ∷ rest) =
    let new : Sleeper = record { deadline = at; id = id; waker = waker } in
    let later = insert at id waker rest in
    if keyed at id s then new ∷ rest else if before at id s then new ∷ (s ∷ rest) else s ∷ later

unfoldable pub remove : ℕ → ℕ → List Sleeper → List Sleeper
remove at id [] = []
remove at id (s ∷ rest) = let later = remove at id rest in if keyed at id s then rest else s ∷ later

-- `expire`: who is woken, and who goes on sleeping
unfoldable pub expire : ℕ → List Sleeper → List ℕ × List Sleeper
expire now [] = ([], [])
expire now (s ∷ rest) =
    let later = expire now rest in
    if ltb now s.deadline then ([], s ∷ rest) else (s.waker ∷ later.0, later.1)

-- `next_deadline`
unfoldable pub next_deadline : List Sleeper → Option ℕ
next_deadline [] = none
next_deadline (s ∷ rest) = some s.deadline

-- `TimeTask::new`, with the id that it draws
unfoldable pub new : ℕ → Clock → TimeTask × Clock
unfolding now_ms
new duration c = (
  record { deadline_ms = (now_ms c.ticks + duration) % 2 ^ 64; task_id = c.next_id },
  record c { next_id = suc c.next_id % 2 ^ 64 },
)

-- `TimeTask::poll`, by the waker of the context: whether it is ready
unfoldable pub poll : TimeTask → ℕ → Clock → Bool × Clock
unfolding now_ms insert remove
poll t waker c =
    if leb t.deadline_ms (now_ms c.ticks)
    then (true, record c { timers = remove t.deadline_ms t.task_id c.timers })
    else (false, record c { timers = insert t.deadline_ms t.task_id waker c.timers })

-- `TimeTask::drop`
unfoldable pub drop : TimeTask → Clock → Clock
unfolding remove
drop t c = record c { timers = remove t.deadline_ms t.task_id c.timers }

-- `tick`
unfoldable pub tick : Clock → Clock
unfolding now_ms expire
tick c =
    let ticks = suc c.ticks % 2 ^ 64 in
    let expired = expire (now_ms ticks) c.timers in
    record c { ticks = ticks; timers = expired.1; woken = c.woken ++ expired.0 }

-- What happens to the clock, and a sequence of it.
pub data Event : Type 0 where
  ticks : Event
  makes : ℕ → Event
  polls : TimeTask → ℕ → Event
  drops : TimeTask → Event

unfoldable pub step : Event → Clock → Clock
unfolding tick new poll drop
step ticks c = tick c
step (makes duration) c = (new duration c).1
step (polls t waker) c = (poll t waker c).1
step (drops t) c = drop t c

unfoldable pub run : List Event → Clock → Clock
run [] c = c
run (event ∷ events) c = run events (step event c)
