-- ===== src/Kernel/Executor.antt =====
-- kernel/src/task/executor.rs and kernel/src/task/mod.rs: the tasks, the queue of the woken ones,
-- and the cached wakers. What a future does when it is polled is a parameter. A waker is the id
-- that it pushes.
pub mod Drain
use conc_os.Common.{
  ℕ, zero, suc, ◌+◌, ◌%◌, ◌^◌, ◌≡◌, List, [], ◌∷◌, ◌++◌, Bool, true, false, Option, none, some, ltb,
  ◌==◌, ==_iff, refl, if◌then◌else◌, length,
}
use conc_os.Common.Map.{Eq, lookup, insert, remove}

pub id_sound : (a b : ℕ) → (a == b) ≡ true → a ≡ b
id_sound a b h = (==_iff a b).0 h

pub id_refl : (a : ℕ) → (a == a) ≡ true
id_refl a = (==_iff a a).1 refl

instance abbrev pub task_id : Eq ℕ
task_id = record { beq = λ a b. a == b; beq_sound = id_sound; beq_refl = id_refl }

-- The capacity of the queue, `ArrayQueue::new(100)`.
abbrev pub capacity : ℕ
capacity = 100

-- `Executor`, with the `NEXT_ID` of `TaskId::new`.
pub record Executor (F : Type 0) : Type 0 where
  pub tasks : List (ℕ × F)
  pub task_queue : List ℕ
  pub waker_cache : List (ℕ × ℕ)
  pub next_id : ℕ

-- What polling a future did: whether it is done, what it has become, the tasks that were woken
-- meanwhile, and the world after it.
pub record Polled (F S : Type 0) : Type 0 where
  pub ready : Bool
  pub future : F
  pub wakes : List ℕ
  pub world : S

-- `TaskWaker::wake_task`, one after another; `none` is the panic on a full queue.
unfoldable pub push_all : List ℕ → List ℕ → Option (List ℕ)
push_all [] queue = some queue
push_all (id ∷ ids) queue =
    if ltb (length queue) capacity then push_all ids (queue ++ (id ∷ [])) else none

module _ {F : Type 0} where
  -- `Executor::new`
  abbrev pub new : Executor F
  new = record { tasks = []; task_queue = []; waker_cache = []; next_id = 0 }

  -- `Executor::spawn` of a `Task::new`; `none` is a panic.
  abbrev spawned : F → Executor F → Option F → Option (List ℕ) → Option (Executor F)
  unfolding insert
  spawned f e (some old) queue = none
  spawned f e none none = none
  spawned f e none (some queue) = some (record e {
    tasks = insert e.next_id f e.tasks;
    task_queue = queue;
    next_id = (e.next_id + 1) % 2 ^ 64;
  })

  unfoldable pub spawn : F → Executor F → Option (Executor F)
  unfolding spawned lookup push_all
  spawn f e = spawned f e (lookup e.next_id e.tasks) (push_all (e.next_id ∷ []) e.task_queue)

-- `waker_cache.entry(task_id).or_insert_with(..)`
abbrev pub cached : ℕ → List (ℕ × ℕ) → Option ℕ → ℕ × List (ℕ × ℕ)
unfolding insert
cached id cache (some waker) = (waker, cache)
cached id cache none = (id, insert id id cache)

-- One round of `run_ready_tasks`: it stops, goes on, or panics.
pub data Round (F S : Type 0) : Type 0 where
  idle : Round F S
  goes : Executor F → S → Round F S
  crashed : Round F S

pub data Outcome (F S : Type 0) : Type 0 where
  drained : Executor F → S → Outcome F S
  panicked : Outcome F S
  unfinished : Executor F → S → Outcome F S

module _ {F S : Type 0} (poll : ℕ → F → S → Polled F S) where
  -- The match on what a poll gave, and the queue after it.
  abbrev pub settle : ℕ → Executor F → List (ℕ × ℕ) → Polled F S → Option (List ℕ) → Round F S
  unfolding insert remove
  settle id e cache p none = crashed
  settle id e cache p (some queue) =
      if p.ready
      then goes
          (record e {
            tasks = remove id e.tasks;
            task_queue = queue;
            waker_cache = remove id cache;
          })
          p.world
      else goes
          (record e { tasks = insert id p.future e.tasks; task_queue = queue; waker_cache = cache })
          p.world

  abbrev pub polled : ℕ → List ℕ → Executor F → S → Option F → Round F S
  unfolding settle cached push_all
  polled id rest e s none = goes (record e { task_queue = rest }) s
  polled id rest e s (some f) =
      let (waker, cache) = cached id e.waker_cache (lookup id e.waker_cache) in
      let p = poll waker f s in settle id e cache p (push_all p.wakes rest)

  abbrev pub round_from : List ℕ → Executor F → S → Round F S
  unfolding polled lookup
  round_from [] e s = idle
  round_from (id ∷ rest) e s = polled id rest e s (lookup id e.tasks)

  unfoldable pub round : Executor F → S → Round F S
  unfolding round_from
  round e s = round_from e.task_queue e s

  -- `run_ready_tasks`, with a bound on its rounds
  unfoldable pub run_ready_tasks : ℕ → Executor F → S → Outcome F S
  run_ready_tasks zero e s = unfinished e s
  run_ready_tasks (suc rounds) e s = elim (round e s) [
    | idle ↦ drained e s
    | goes e' s' ↦ run_ready_tasks rounds e' s'
    | crashed ↦ panicked
  ]
