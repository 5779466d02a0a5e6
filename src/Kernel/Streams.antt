-- ===== src/Kernel/Streams.antt =====
-- kernel/src/task/network.rs and kernel/src/task/serial.rs: the queue that an interrupt handler
-- fills (`add_event`, `add_byte`) and that a task reads as a stream (`poll_next`), as a step
-- relation in which the two interleave at every access to the queue or to the waker. `AtomicWaker`
-- is not code of the repository: it is a parameter with its documented behaviour.
pub mod Delivery
pub mod Arrival
use conc_os.Common.{
  ℕ, zero, suc, ◌≡◌, List, [], ◌∷◌, ◌++◌, Bool, true, false, ◌||◌, if◌then◌else◌, length, ltb,
}
use conc_os.Common.{suc}

-- `AtomicWaker`, as far as a stream with one task uses it. Both `take` and `wake` empty it, and
-- `wake` wakes the task that is in it.
pub record AtomicWaker (W : Type 0) : Type 0 where
  pub register : W → W
  pub take : W → W
  pub wakes : W → Bool
  pub wakes-register : (w : W) → wakes (register w) ≡ true
  pub wakes-take : (w : W) → wakes (take w) ≡ false

-- Where the task is: waiting to be polled, or before an access of `poll_next`.
pub data Consumer (E : Type 0) : Type 0 where
  parked : Consumer E
  popping : Consumer E
  registering : Consumer E
  rechecking : Consumer E
  taking : E → Consumer E

-- `scheduled` is whether the executor is to poll the task, and `waking` whether the handler has
-- pushed and not woken yet. `accepted` and `delivered` are all items that were pushed and that the
-- task got.
pub record Stream (E W : Type 0) : Type 0 where
  pub queue : List E
  pub waker : W
  pub scheduled : Bool
  pub consumer : Consumer E
  pub waking : Bool
  pub accepted : List E
  pub delivered : List E

-- `ArrayQueue::new(100)`
abbrev pub stream_capacity : ℕ
stream_capacity = 100

module _ {E W : Type 0} (a : AtomicWaker W) where
  -- `NetworkStream::new`, `SerialStream::new`, and the task is spawned.
  abbrev pub new : W → Stream E W
  new w = record {
    queue = [];
    waker = w;
    scheduled = true;
    consumer = parked;
    waking = false;
    accepted = [];
    delivered = [];
  }

  -- `add_event`, `add_byte`: the push, which a full queue refuses, and then the waker.
  abbrev push : E → Stream E W → Stream E W
  push e s = record s {
    queue = s.queue ++ (e ∷ []);
    waking = true;
    accepted = s.accepted ++ (e ∷ []);
  }

  unfoldable pub add : E → Stream E W → Stream E W
  add e s = if ltb (length s.queue) stream_capacity then push e s else s

  unfoldable pub wake : Stream E W → Stream E W
  wake s = record s {
    waker = a.take s.waker;
    scheduled = a.wakes s.waker || s.scheduled;
    waking = false;
  }

  -- `poll_next`, one access after another; the task loops on what it gets.
  abbrev first_pop : List E → Stream E W → Stream E W
  first_pop [] s = record s { queue = []; consumer = registering }
  first_pop (e ∷ rest) s = record s {
    queue = rest;
    consumer = popping;
    delivered = s.delivered ++ (e ∷ []);
  }

  abbrev second_pop : List E → Stream E W → Stream E W
  second_pop [] s = record s { queue = []; consumer = parked }
  second_pop (e ∷ rest) s = record s { queue = rest; consumer = taking e }

  abbrev access : Consumer E → Stream E W → Stream E W
  access parked s = record s {
    scheduled = false;
    consumer = if s.scheduled then popping else parked;
  }
  access popping s = first_pop s.queue s
  access registering s = record s { waker = a.register s.waker; consumer = rechecking }
  access rechecking s = second_pop s.queue s
  access (taking e) s = record s {
    waker = a.take s.waker;
    consumer = popping;
    delivered = s.delivered ++ (e ∷ []);
  }

  unfoldable pub poll_next : Stream E W → Stream E W
  poll_next s = access s.consumer s

  -- The handler runs once at a time; the task may also be polled for another reason.
  pub data Step (s : Stream E W) : Stream E W → Type 0 where
    adds : (e : E) {t : Stream E W} → s.waking ≡ false → t ≡ add e s → Step s t
    finishes : {t : Stream E W} → s.waking ≡ true → t ≡ wake s → Step s t
    polls : {t : Stream E W} → t ≡ poll_next s → Step s t
    nudges : {t : Stream E W} → t ≡ record s { scheduled = true } → Step s t

  pub data Reach (w : W) : Stream E W → Type 0 where
    start : Reach w (new w)
    later : {s t : Stream E W} → Reach w s → Step s t → Reach w t

  -- The task runs alone for some accesses.
  unfoldable pub alone : ℕ → Stream E W → Stream E W
  alone zero s = s
  alone (suc n) s = alone n (poll_next s)
