-- ===== src/Kernel/Streams/Delivery.antt =====
-- kernel/src/task/network.rs and kernel/src/task/serial.rs: every accepted item is delivered once
-- and in order, and no wake-up is lost.
use conc_os.Common.{
  ◌≤◌, ◌<◌, ◌≡◌, refl, sym, ◌∙◌, subst, ap, List, [], ◌∷◌, ◌++◌, Bool, true, false, ◌||◌,
  if◌then◌else◌, arith, length, ltb,
}
use conc_os.Kernel.Streams.{
  AtomicWaker, Consumer, parked, popping, registering, rechecking, taking, Stream, stream_capacity,
  access, new, add, wake, poll_next, Step, adds, finishes, polls, nudges, Reach, start, later,
}
use conc_os.Common.{append_assoc}
use conc_os.Kernel.Streams.{second_pop}
use conc_os.Common.{length-append}
use conc_os.Kernel.Streams.{first_pop}
use conc_os.Kernel.Streams.{push}
use conc_os.Common.{ltb→lt}
use conc_os.Kernel.Streams.{access}

-- What the task has popped and not got yet.
abbrev pub held : {E : Type 0} → Consumer E → List E
held (taking e) = e ∷ []
held parked = []
held popping = []
held registering = []
held rechecking = []

or_true : (b : Bool) → (b || true) ≡ true
or_true true = refl
or_true false = refl

module _ {E W : Type 0} (a : AtomicWaker W) where
  -- A task that rechecks or waits is registered, or is to be polled.
  abbrev pub Armed : Consumer E → W → Bool → Type 0
  Armed parked w scheduled = (a.wakes w || scheduled) ≡ true
  Armed rechecking w scheduled = (a.wakes w || scheduled) ≡ true
  Armed popping w scheduled = Unit
  Armed registering w scheduled = Unit
  Armed (taking e) w scheduled = Unit

  -- A task that waits though there are items is to be polled, or is about to be woken.
  abbrev pub Awaited : Consumer E → List E → Bool → Bool → Type 0
  Awaited parked (e ∷ queue) scheduled waking = (waking || scheduled) ≡ true
  Awaited parked [] scheduled waking = Unit
  Awaited popping queue scheduled waking = Unit
  Awaited registering queue scheduled waking = Unit
  Awaited rechecking queue scheduled waking = Unit
  Awaited (taking e) queue scheduled waking = Unit

  pub record IsStream (s : Stream E W) : Type 0 where
    pub flow : s.accepted ≡ s.delivered ++ (held s.consumer ++ s.queue)
    pub fits : length s.queue ≤ stream_capacity
    pub armed : Armed s.consumer s.waker s.scheduled
    pub awaited : Awaited s.consumer s.queue s.scheduled s.waking

  Armed-now : (k : Consumer E) (w : W) (b : Bool) → (a.wakes w || b) ≡ true → Armed k w b
  Armed-now parked w b h = h
  Armed-now rechecking w b h = h
  Armed-now popping w b h = tt
  Armed-now registering w b h = tt
  Armed-now (taking e) w b h = tt

  Awaited-now :
      (k : Consumer E) (queue : List E) (b waking : Bool)
      → (waking || b) ≡ true
      → Awaited k queue b waking
  Awaited-now parked [] b waking h = tt
  Awaited-now parked (e ∷ queue) b waking h = h
  Awaited-now popping queue b waking h = tt
  Awaited-now registering queue b waking h = tt
  Awaited-now rechecking queue b waking h = tt
  Awaited-now (taking e) queue b waking h = tt

  -- A wake-up schedules a task that is registered.
  rung-Armed :
      (k : Consumer E) (w : W) (b : Bool) → Armed k w b → Armed k (a.take w) (a.wakes w || b)
  rung-Armed parked w b h =
      subst (λ c. (a.wakes (a.take w) || c) ≡ true) (sym h) (or_true (a.wakes (a.take w)))
  rung-Armed rechecking w b h =
      subst (λ c. (a.wakes (a.take w) || c) ≡ true) (sym h) (or_true (a.wakes (a.take w)))
  rung-Armed popping w b h = tt
  rung-Armed registering w b h = tt
  rung-Armed (taking e) w b h = tt

  rung-Awaited :
      (k : Consumer E) (queue : List E) (w : W) (b : Bool)
      → Armed k w b
      → Awaited k queue (a.wakes w || b) false
  rung-Awaited parked [] w b h = tt
  rung-Awaited parked (e ∷ queue) w b h = h
  rung-Awaited rechecking queue w b h = tt
  rung-Awaited popping queue w b h = tt
  rung-Awaited registering queue w b h = tt
  rung-Awaited (taking e) queue w b h = tt

  pushed :
      (e : E) (delivered held queue : List E) {accepted : List E}
      → accepted ≡ delivered ++ (held ++ queue)
      → accepted ++ (e ∷ []) ≡ delivered ++ (held ++ (queue ++ (e ∷ [])))
  pushed e delivered held queue f =
      ap (λ l. l ++ (e ∷ [])) f
      ∙ append_assoc delivered (held ++ queue) (e ∷ [])
      ∙ ap (λ l. delivered ++ l) (append_assoc held queue (e ∷ []))

  new-IsStream : (w : W) → IsStream (new a w)
  new-IsStream w = record {
    flow = refl;
    fits = omega arith;
    armed = or_true (a.wakes w);
    awaited = tt;
  }

  push-IsStream :
      (e : E) (s : Stream E W)
      → length s.queue < stream_capacity
      → IsStream s
      → IsStream (push a e s)
  push-IsStream e s room v = record {
    flow = pushed e s.delivered (held s.consumer) s.queue v.flow;
    fits = omega (arith, length-append s.queue (e ∷ []));
    armed = v.armed;
    awaited = Awaited-now s.consumer (s.queue ++ (e ∷ [])) s.scheduled true refl;
  }

  pushed_if :
      (room : Bool) (e : E) (s : Stream E W)
      → (room ≡ true → length s.queue < stream_capacity)
      → IsStream s
      → IsStream (if room then push a e s else s)
  pushed_if true e s h v = push-IsStream e s (h refl) v
  pushed_if false e s h v = v

  add-IsStream : (e : E) (s : Stream E W) → IsStream s → IsStream (add a e s)
  unfolding add
  add-IsStream e s v =
      pushed_if (ltb (length s.queue) stream_capacity) e s (ltb→lt (length s.queue) stream_capacity)
        v

  wake-IsStream : (s : Stream E W) → IsStream s → IsStream (wake a s)
  unfolding wake
  wake-IsStream s v = record {
    flow = v.flow;
    fits = v.fits;
    armed = rung-Armed s.consumer s.waker s.scheduled v.armed;
    awaited = rung-Awaited s.consumer s.queue s.waker s.scheduled v.armed;
  }

  first_pop-IsStream :
      (q : List E) (s : Stream E W)
      → IsStream (record s { queue = q; consumer = popping })
      → IsStream (first_pop a q s)
  first_pop-IsStream [] s v = record { flow = v.flow; fits = v.fits; armed = tt; awaited = tt }
  first_pop-IsStream (e ∷ rest) s v = record {
    flow = v.flow ∙ sym (append_assoc s.delivered (e ∷ []) rest);
    fits = omega (arith, v.fits);
    armed = tt;
    awaited = tt;
  }

  second_pop-IsStream :
      (q : List E) (s : Stream E W)
      → IsStream (record s { queue = q; consumer = rechecking })
      → IsStream (second_pop a q s)
  second_pop-IsStream [] s v = record {
    flow = v.flow;
    fits = v.fits;
    armed = v.armed;
    awaited = tt;
  }
  second_pop-IsStream (e ∷ rest) s v = record {
    flow = v.flow;
    fits = omega (arith, v.fits);
    armed = tt;
    awaited = tt;
  }

  polled_if :
      (b : Bool) (s : Stream E W)
      → IsStream (record s { consumer = parked; scheduled = b })
      → IsStream (record s { scheduled = false; consumer = if b then popping else parked })
  polled_if true s v = record { flow = v.flow; fits = v.fits; armed = tt; awaited = tt }
  polled_if false s v = v

  poll-IsStream :
      (k : Consumer E) (s : Stream E W)
      → IsStream (record s { consumer = k })
      → IsStream (access a k s)
  poll-IsStream parked s v = polled_if s.scheduled s v
  poll-IsStream popping s v = first_pop-IsStream s.queue s v
  poll-IsStream registering s v = record {
    flow = v.flow;
    fits = v.fits;
    armed = ap (λ b. b || s.scheduled) (a.wakes-register s.waker);
    awaited = tt;
  }
  poll-IsStream rechecking s v = second_pop-IsStream s.queue s v
  poll-IsStream (taking e) s v = record {
    flow = v.flow ∙ sym (append_assoc s.delivered (e ∷ []) s.queue);
    fits = v.fits;
    armed = tt;
    awaited = tt;
  }

  nudge-IsStream : (s : Stream E W) → IsStream s → IsStream (record s { scheduled = true })
  nudge-IsStream s v = record {
    flow = v.flow;
    fits = v.fits;
    armed = Armed-now s.consumer s.waker true (or_true (a.wakes s.waker));
    awaited = Awaited-now s.consumer s.queue true s.waking (or_true s.waking);
  }

  Step-IsStream : {s t : Stream E W} → Step a s t → IsStream s → IsStream t
  unfolding poll_next
  Step-IsStream {s} (adds e q f) v = subst IsStream (sym f) (add-IsStream e s v)
  Step-IsStream {s} (finishes q f) v = subst IsStream (sym f) (wake-IsStream s v)
  Step-IsStream {s} (polls f) v = subst IsStream (sym f) (poll-IsStream s.consumer s v)
  Step-IsStream {s} (nudges f) v = subst IsStream (sym f) (nudge-IsStream s v)

  pub Reach-IsStream : {w : W} {s : Stream E W} → Reach a w s → IsStream s
  Reach-IsStream {w} start = new-IsStream w
  Reach-IsStream (later r m) = Step-IsStream m (Reach-IsStream r)
