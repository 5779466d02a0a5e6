-- ===== src/Kernel/Streams/Arrival.antt =====
-- kernel/src/task/network.rs and kernel/src/task/serial.rs: what a reachable stream promises the
-- handler that fills it.
use conc_os.Common.{
  ℕ, ◌≤◌, ◌≡◌, ◌≢◌, ◌⊎◌, refl, sym, subst, List, [], ◌∷◌, ◌++◌, append_assoc, Bool, true, false,
  ◌||◌, inl, inr, arith, length,
}
use conc_os.Kernel.Streams.{
  AtomicWaker, Consumer, parked, popping, registering, rechecking, taking, Stream, stream_capacity,
  poll_next, Reach, alone,
}
use conc_os.Kernel.Streams.Delivery.{held, Armed, Awaited, IsStream, Reach-IsStream}

only_left : (b : Bool) → (b || false) ≡ true → b ≡ true
only_left true h = refl
only_left false h = h

module _ {E W : Type 0} (a : AtomicWaker W) where
  -- What is true of a task that waits though there are items.
  due :
      (queue : List E) (w : W) (scheduled waking : Bool)
      → queue ≢ []
      → Armed {E = E} a parked w scheduled
      → Awaited a parked queue scheduled waking
      → (scheduled ≡ true) ⊎ ((waking ≡ true) × (a.wakes w ≡ true))
  due [] w scheduled waking any armed awaited = absurd (any refl)
  due (e ∷ queue) w true waking any armed awaited = inl refl
  due (e ∷ queue) w false true any armed awaited = inr (refl, only_left (a.wakes w) armed)
  due (e ∷ queue) w false false any armed awaited = cc

  -- The task gets the first item of the queue.
  abbrev Arrives : Stream E W → List E → Type 0
  Arrives s items = (n : ℕ) × (n ≤ 3) × ((alone a n s).delivered ≡ s.delivered ++ items)

  parked-Arrives :
      (scheduled : Bool) (s : Stream E W) (e : E) (rest : List E)
      → scheduled ≡ true
      → (alone a 2
          (record s { queue = e ∷ rest; consumer = parked; scheduled = scheduled })).delivered
        ≡ s.delivered ++ (e ∷ [])
  unfolding alone poll_next
  parked-Arrives true s e rest h = refl
  parked-Arrives false s e rest h = cc

  consumer-Arrives :
      (k : Consumer E) (s : Stream E W) (e : E) (rest : List E)
      → IsStream a (record s { queue = e ∷ rest; consumer = k; waking = false })
      → Arrives (record s { queue = e ∷ rest; consumer = k; waking = false }) (held k ++ (e ∷ []))
  unfolding alone poll_next
  consumer-Arrives parked s e rest v =
      (2, omega arith, parked-Arrives s.scheduled (record s { waking = false }) e rest v.awaited)
  consumer-Arrives popping s e rest v = (1, omega arith, refl)
  consumer-Arrives registering s e rest v = (3, omega arith, refl)
  consumer-Arrives rechecking s e rest v = (2, omega arith, refl)
  consumer-Arrives (taking x) s e rest v =
      (2, omega arith, append_assoc s.delivered (x ∷ []) (e ∷ []))

-- In every state that handler and task reach, however their accesses to the queue and the waker
-- interleave, and whatever wakes the task besides: the items that the queue accepted are those that
-- the task got, then the one that it has popped, then those in the queue, in order; the queue holds
-- at most 100; and a task that waits though there are items is to be polled, or the handler is about
-- to wake it and will.
pub accepted_in_order :
    {E W : Type 0} (a : AtomicWaker W) {w : W} {s : Stream E W}
    → Reach a w s
    → (s.accepted ≡ s.delivered ++ (held s.consumer ++ s.queue))
      × (length s.queue ≤ stream_capacity)
      × (s.consumer ≡ parked
          → s.queue ≢ []
          → (s.scheduled ≡ true) ⊎ ((s.waking ≡ true) × (a.wakes s.waker ≡ true)))
accepted_in_order a {s} r =
    let v = Reach-IsStream a r in
    (
      v.flow,
      v.fits,
      (λ e any.
          due a s.queue s.waker s.scheduled s.waking any
            (subst (λ k. Armed a k s.waker s.scheduled) e v.armed)
            (subst (λ k. Awaited a k s.queue s.scheduled s.waking) e v.awaited)),
    )

-- In every state that handler and task reach in which the queue has a first item and the handler
-- has finished: if the task runs alone, it gets what it has popped and then that item, and nothing
-- else before, within three accesses, the executor's poll of a waiting task counted as one.
pub delivered_soon :
    {E W : Type 0} (a : AtomicWaker W) {w : W} {s : Stream E W} (e : E) (rest : List E)
    → Reach a w s
    → s.waking ≡ false
    → s.queue ≡ e ∷ rest
    → Arrives a s (held s.consumer ++ (e ∷ []))
delivered_soon {E} a {s} e rest r quiet first =
    subst (λ b. IsStream a (record s { waking = b }) → Arrives a (record s { waking = b }) items)
      (sym quiet)
      (subst
        (λ q.
          IsStream a (record s { waking = false; queue = q })
          → Arrives a (record s { waking = false; queue = q }) items)
        (sym first) (consumer-Arrives a s.consumer s e rest))
      (Reach-IsStream a r)
  where
    items : List E
    items = held s.consumer ++ (e ∷ [])
