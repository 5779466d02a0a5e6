-- ===== src/Kernel/Executor/Drain.antt =====
-- The executor keeps only the wakers of its tasks, and empties its queue when the wake-ups are
-- bounded.
use conc_os.Common.{
  ℕ, zero, suc, ◌+◌, ◌≤◌, ◌<◌, ◌≡◌, ◌≢◌, refl, sym, ap, append-nil, append_assoc, ==_iff, ◌∙◌, List,
  [], ◌∷◌, ◌++◌, true, false, Option, none, some, inl, inr, Bool-cases, lt→ltb, ◌==◌, length,
  length-append, arith,
}
use conc_os.Common.Map.{lookup, insert, remove, lookup-insert, lookup-remove}
use conc_os.Kernel.Executor.{
  task_id, Executor, Polled, push_all, cached, Round, idle, goes, settle, polled, round_from, round,
  drained, run_ready_tasks,
}
use conc_os.Common.{append-nil}
use conc_os.Common.{ap}
use conc_os.Common.{append_assoc}

-- Every cached waker is the one of its task, and the task is there.
pub record IsExecutor {F : Type 0} (e : Executor F) : Type 0 where
  pub own : (id waker : ℕ) → lookup id e.waker_cache ≡ some waker → waker ≡ id
  pub live :
      (id waker : ℕ) → lookup id e.waker_cache ≡ some waker → (f : F) × (lookup id e.tasks ≡ some f)

none≢some {ℓ} : {A : Type ℓ} {a : A} → ◌≢◌ {A = Option A} none (some a)
none≢some e = cc

some_injective {ℓ} : {A : Type ℓ} {a b : A} → ◌≡◌ {A = Option A} (some a) (some b) → a ≡ b
some_injective e = cc

push_all_fits :
    (ids queue : List ℕ)
    → length queue + length ids ≤ 100
    → push_all ids queue ≡ some (queue ++ ids)
unfolding push_all
push_all_fits [] queue h = rw (append-nil queue) refl
push_all_fits (id ∷ ids) queue h =
    let one = length-append queue (id ∷ []) in
    rw (lt→ltb (length queue) 100 (omega arith)) (
      push_all_fits ids (queue ++ (id ∷ [])) (omega (arith, one))
      ∙ ap some (append_assoc queue (id ∷ []) ids))

module _ {V : Type 0} (i j : ℕ) (v w : V) (c : List (ℕ × V)) where
  removed_kept : lookup j (remove i c) ≡ some w → ((i == j) ≡ false) × (lookup j c ≡ some w)
  removed_kept h = elim (Bool-cases (i == j)) [
    | inl t ↦ absurd (none≢some (sym (lookup-remove i j c ∙ rw t refl) ∙ h))
    | inr t ↦ (t, sym (lookup-remove i j c ∙ rw t refl) ∙ h)
  ]

  inserted_here : (i == j) ≡ true → lookup j (insert i v c) ≡ some v
  inserted_here t = lookup-insert i j v c ∙ rw t refl

  inserted_other : (i == j) ≡ false → lookup j (insert i v c) ≡ lookup j c
  inserted_other t = lookup-insert i j v c ∙ rw t refl

-- A cache whose wakers are their tasks' own, and of tasks that are there but for one.
pub record IsCached {F : Type 0} (id : ℕ) (tasks : List (ℕ × F)) (cache : List (ℕ × ℕ))
    : Type 0 where
  pub own : (j w : ℕ) → lookup j cache ≡ some w → w ≡ j
  pub live :
      (j w : ℕ) → (id == j) ≡ false → lookup j cache ≡ some w → (f : F) × (lookup j tasks ≡ some f)

module _ {F : Type 0} (id : ℕ) (e : Executor F) (queue : List ℕ) (cache : List (ℕ × ℕ)) where
  removed-IsExecutor :
      IsCached id e.tasks cache
      → IsExecutor (record e {
        tasks = remove id e.tasks;
        task_queue = queue;
        waker_cache = remove id cache;
      })
  removed-IsExecutor v = record {
    own = λ j w h. v.own j w (removed_kept id j w w cache h).1;
    live = λ j w h.
        let (other, before) = removed_kept id j w w cache h in
        let (f, there) = v.live j w other before in
        (f, lookup-remove id j e.tasks ∙ rw other there);
  }

  stored-IsExecutor :
      (f : F)
      → IsCached id e.tasks cache
      → IsExecutor
          (record e { tasks = insert id f e.tasks; task_queue = queue; waker_cache = cache })
  stored-IsExecutor f v = record {
    own = v.own;
    live = λ j w h. elim (Bool-cases (id == j)) [
      | inl t ↦ (f, inserted_here id j f f e.tasks t)
      | inr t ↦ let (g, there) = v.live j w t h in (g, inserted_other id j f f e.tasks t ∙ there)
    ];
  }

fresh-IsCached :
    {F : Type 0} (id : ℕ) (e : Executor F)
    → IsExecutor e
    → IsCached id e.tasks (insert id id e.waker_cache)
fresh-IsCached id e v = record {
  own = λ j w h. elim (Bool-cases (id == j)) [
    | inl t ↦ some_injective (sym h ∙ inserted_here id j id id e.waker_cache t) ∙ (==_iff id j).0 t
    | inr t ↦ v.own j w (sym (inserted_other id j id id e.waker_cache t) ∙ h)
  ];
  live = λ j w t h. v.live j w (sym (inserted_other id j id id e.waker_cache t) ∙ h);
}

cached-IsCached :
    {F : Type 0} (id : ℕ) (e : Executor F) (found : Option ℕ)
    → lookup id e.waker_cache ≡ found
    → IsExecutor e
    → IsCached id e.tasks (cached id e.waker_cache found).1
unfolding cached
cached-IsCached id e none h v = fresh-IsCached id e v
cached-IsCached id e (some w) h v = record { own = v.own; live = λ j u t k. v.live j u k }

module _ {F S : Type 0} (poll : ℕ → F → S → Polled F S) (budget : S → ℕ)
    (spends : (waker : ℕ) (f : F) (s : S)
      → length (poll waker f s).wakes + budget (poll waker f s).world ≤ budget s) where
  -- A round that goes on, with a smaller debt of queued and possible wake-ups.
  record Going (debt : ℕ) (r : Round F S) : Type 0 where
    to : Executor F
    world : S
    shape : r ≡ goes to world
    fine : IsExecutor to
    falls : length to.task_queue + budget world ≤ debt

  settle-Going :
      (id debt : ℕ) (rest : List ℕ) (e : Executor F) (cache : List (ℕ × ℕ)) (p : Polled F S)
      → IsCached id e.tasks cache
      → length rest + length p.wakes + budget p.world ≤ debt
      → Going debt (settle poll id e cache p (some (rest ++ p.wakes)))
  unfolding settle
  settle-Going id debt rest e cache p v h =
      let size = length-append rest p.wakes in
      elim (Bool-cases p.ready) [
        | inl over ↦ rw over (record {
          to = _;
          world = p.world;
          shape = refl;
          fine = removed-IsExecutor id e (rest ++ p.wakes) cache v;
          falls = omega (arith, size);
        })
        | inr more ↦ rw more (record {
          to = _;
          world = p.world;
          shape = refl;
          fine = stored-IsExecutor id e (rest ++ p.wakes) cache p.future v;
          falls = omega (arith, size);
        })
      ]

  polled-Going :
      (id debt : ℕ) (rest : List ℕ) (e : Executor F) (s : S) (found : Option F)
      → IsExecutor e
      → length rest + budget s ≤ debt
      → debt ≤ 100
      → Going debt (polled poll id rest e s found)
  unfolding polled
  polled-Going id debt rest e s none v h k = record {
    to = _;
    world = s;
    shape = refl;
    fine = record { own = v.own; live = v.live };
    falls = h;
  }
  polled-Going id debt rest e s (some f) v h k =
      let now = cached id e.waker_cache (lookup id e.waker_cache) in
      let p = poll now.0 f s in
      let cost = spends now.0 f s in
      rw (push_all_fits p.wakes rest (omega (arith, cost))) (
        settle-Going id debt rest e now.1 p (cached-IsCached id e (lookup id e.waker_cache) refl v)
          (omega (arith, cost)))

  run_step :
      (rounds : ℕ) (e to : Executor F) (s world : S)
      → round poll e s ≡ goes to world
      → run_ready_tasks poll (suc rounds) e s ≡ run_ready_tasks poll rounds to world
  unfolding run_ready_tasks
  run_step rounds e to s world h = rw (run_ready_tasks, h)

  run_idle :
      (rounds : ℕ) (e : Executor F) (s : S)
      → round poll e s ≡ idle
      → run_ready_tasks poll (suc rounds) e s ≡ drained e s
  unfolding run_ready_tasks
  run_idle rounds e s h = rw (run_ready_tasks, h)

  round_queue :
      (queue : List ℕ) (e : Executor F) (s : S)
      → e.task_queue ≡ queue
      → round poll e s ≡ round_from poll queue e s
  unfolding round
  round_queue queue e s q = ap (λ (xs : List ℕ). round_from poll xs e s) q

  run_from :
      (rounds : ℕ) (queue : List ℕ) (e : Executor F) (s : S)
      → e.task_queue ≡ queue
      → IsExecutor e
      → length queue + budget s < rounds
      → length queue + budget s ≤ 100
      → (e' : Executor F) × (s' : S) × (run_ready_tasks poll rounds e s ≡ drained e' s')
        × (e'.task_queue ≡ [])
        × IsExecutor e'
  unfolding round_from
  run_from zero queue e s q v h k = absurd (omega arith)
  run_from (suc rounds) [] e s q v h k = (e, s, run_idle rounds e s (round_queue [] e s q), q, v)
  run_from (suc rounds) (id ∷ rest) e s q v h k =
      let g =
        polled-Going id (length rest + budget s) rest e s (lookup id e.tasks) v (omega arith)
          (omega arith) in
      let (e', s', run, empty, fine) =
        run_from rounds g.to.task_queue g.to g.world refl g.fine (omega (arith, g.falls))
          (omega (arith, g.falls)) in
      (
        e',
        s',
        run_step rounds e g.to s g.world (round_queue (id ∷ rest) e s q ∙ g.shape) ∙ run,
        empty,
        fine,
      )

  -- When every wake-up that a poll makes is paid from a budget of the world, and the queue has room
  -- for what is queued and what is left of the budget, `run_ready_tasks` ends, after at most that
  -- many polls: without a panic, with an empty queue, and with cached wakers for tasks alone.
  pub run_ready_tasks_drains :
      (rounds : ℕ) (e : Executor F) (s : S)
      → IsExecutor e
      → length e.task_queue + budget s < rounds
      → length e.task_queue + budget s ≤ 100
      → (e' : Executor F) × (s' : S) × (run_ready_tasks poll rounds e s ≡ drained e' s')
        × (e'.task_queue ≡ [])
        × IsExecutor e'
  run_ready_tasks_drains rounds e s v h k = run_from rounds e.task_queue e s refl v h k
