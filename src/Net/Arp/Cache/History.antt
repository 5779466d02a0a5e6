-- ===== src/Net/Arp/Cache/History.antt =====
-- The cache against its history: the calls made so far and what each returned, newest first.
use conc_os.Common.{
  ℕ, ◌≡◌, ◌≢◌, refl, List, [], ◌∷◌, ◌++◌, Option, none, some, arith, if◌then◌else◌, Bool, true,
  false, ◌&&◌, ap, ◌∙◌,
}
use conc_os.Common.Map.{lookup as get, lookup-insert, lookup-remove}
use conc_os.Net.Addr.{MacAddress, Ipv4Addr, addr_key, addr_eq, addr_eq_sound}
use conc_os.Net.Arp.Cache.Invariant.{
  IsCache, new-IsCache, insert-IsCache, queue_pending-IsCache, remove-IsCache, get-IsBounded,
}
use conc_os.Net.Arp.Cache.{
  ArpCache, ArpEntry, resolved, pending, new, insert, queue_pending, queue_on, remove, waiting,
  Call, inserts, queues, removes, Answer, drained, queued, done, Queued, request_needed,
  already_pending, dropped, step,
}

abbrev pub History : Type 0
History = List (Call × Answer)

abbrev was_parked : Queued → Bool
was_parked dropped = false
was_parked _ = true

-- What waits on an address, told from the history alone: the frames parked on it, oldest first,
-- since it was last resolved or removed.
unfoldable pub expected : Ipv4Addr → History → List (List ℕ)
expected ip [] = []
expected ip ((inserts j mac, answer) ∷ older) = if addr_eq j ip then [] else expected ip older
expected ip ((removes j, answer) ∷ older) = if addr_eq j ip then [] else expected ip older
expected ip ((queues j frame, queued q) ∷ older) =
    if addr_eq j ip && was_parked q then expected ip older ++ (frame ∷ []) else expected ip older
expected ip ((queues j frame, _) ∷ older) = expected ip older

-- A resolution hands over exactly what waits; a request is asked for by the first frame that
-- waits on an address, and by no later one.
abbrev pub IsFaithful : History → Type 0
IsFaithful [] = Unit
IsFaithful ((inserts ip mac, drained frames) ∷ older) =
    (frames ≡ expected ip older) × IsFaithful older
IsFaithful ((queues ip frame, queued request_needed) ∷ older) =
    (expected ip older ≡ []) × IsFaithful older
IsFaithful ((queues ip frame, queued already_pending) ∷ older) =
    (expected ip older ≢ []) × IsFaithful older
IsFaithful ((_, _) ∷ older) = IsFaithful older

-- The cache after a history, with the history grown by each call.
unfoldable pub record_run : ArpCache → History → List Call → ArpCache × History
record_run c past [] = (c, past)
record_run c past (call ∷ calls) =
    let (c', answer) = step c call in record_run c' ((call, answer) ∷ past) calls

pub waiting-insert :
    (c : ArpCache) (ip j : Ipv4Addr) (mac : MacAddress)
    → waiting (insert c ip mac).0 j ≡ (if addr_eq ip j then [] else waiting c j)
unfolding waiting insert
waiting-insert c ip j mac = ground (arith, lookup-insert ip j (resolved mac) c.entries)

waiting-remove :
    (c : ArpCache) (ip j : Ipv4Addr)
    → waiting (remove c ip) j ≡ (if addr_eq ip j then [] else waiting c j)
unfolding waiting remove
waiting-remove c ip j = ground (arith, lookup-remove ip j c.entries)

waiting-queue_on :
    (c : ArpCache) (ip j : Ipv4Addr) (frame : List ℕ) (found : Option ArpEntry)
    → get ip c.entries ≡ found
    → waiting (queue_on c ip frame found).0 j ≡ (
        if addr_eq ip j && was_parked (queue_on c ip frame found).1
        then waiting c j ++ (frame ∷ [])
        else waiting c j)
unfolding waiting queue_on
waiting-queue_on c ip j frame (some (resolved mac)) e = ground arith
waiting-queue_on c ip j frame (some (pending queue)) e =
    ground
      (arith, lookup-insert ip j (pending (queue ++ (frame ∷ []))) c.entries, addr_eq_sound ip j)
waiting-queue_on c ip j frame none e =
    ground (arith, lookup-insert ip j (pending (frame ∷ [])) c.entries, addr_eq_sound ip j)

pub record Agrees (c : ArpCache) (past : History) : Type 0 where
  pub waits : (ip : Ipv4Addr) → waiting c ip ≡ expected ip past
  pub faithful : IsFaithful past
  pub bounds : IsCache c

inserts-Agrees :
    (c : ArpCache) (past : History) (ip : Ipv4Addr) (mac : MacAddress)
    → Agrees c past
    → Agrees (insert c ip mac).0 ((inserts ip mac, drained (insert c ip mac).1) ∷ past)
unfolding expected
inserts-Agrees c past ip mac v = record {
  waits = λ j. waiting-insert c ip j mac ∙ ap (if◌then◌else◌ (addr_eq ip j) []) (v.waits j);
  faithful = (unfold insert waiting in v.waits ip, v.faithful);
  bounds = insert-IsCache c ip mac v.bounds;
}

removes-Agrees :
    (c : ArpCache) (past : History) (ip : Ipv4Addr)
    → Agrees c past
    → Agrees (remove c ip) ((removes ip, done) ∷ past)
unfolding expected
removes-Agrees c past ip v = record {
  waits = λ j. waiting-remove c ip j ∙ ap (if◌then◌else◌ (addr_eq ip j) []) (v.waits j);
  faithful = v.faithful;
  bounds = remove-IsCache c ip v.bounds;
}

-- Why each answer to `queue_pending` was given.
queue_on-IsFaithful :
    (c : ArpCache) (past : History) (ip : Ipv4Addr) (frame : List ℕ) (found : Option ArpEntry)
    → get ip c.entries ≡ found
    → Agrees c past
    → IsFaithful ((queues ip frame, queued (queue_on c ip frame found).1) ∷ past)
unfolding queue_on
queue_on-IsFaithful c past ip frame (some (resolved mac)) e v = v.faithful
queue_on-IsFaithful c past ip frame none e v =
    let empty : waiting c ip ≡ [] = unfold waiting in rw e in
    ground (arith, v.waits ip, v.faithful, empty)
queue_on-IsFaithful c past ip frame (some (pending queue)) e v =
    let held : waiting c ip ≡ queue = unfold waiting in rw e in
    let bound = get-IsBounded ip c.entries (pending queue) v.bounds.queues e in
    ground (arith, v.waits ip, v.faithful, held, bound)

queues-Agrees :
    (c : ArpCache) (past : History) (ip : Ipv4Addr) (frame : List ℕ)
    → Agrees c past
    → Agrees
        (queue_pending c ip frame).0
        ((queues ip frame, queued (queue_pending c ip frame).1) ∷ past)
unfolding expected queue_pending
queues-Agrees c past ip frame v = record {
  waits = λ j. waiting-queue_on c ip j frame (get ip c.entries) refl ∙ rw (v.waits j);
  faithful = queue_on-IsFaithful c past ip frame (get ip c.entries) refl v;
  bounds = queue_pending-IsCache c ip frame v.bounds;
}

step-Agrees :
    (c : ArpCache) (past : History) (call : Call)
    → Agrees c past
    → Agrees (step c call).0 ((call, (step c call).1) ∷ past)
unfolding step
step-Agrees c past (inserts ip mac) v = inserts-Agrees c past ip mac v
step-Agrees c past (queues ip frame) v = queues-Agrees c past ip frame v
step-Agrees c past (removes ip) v = removes-Agrees c past ip v

run-Agrees :
    (c : ArpCache) (past : History) (calls : List Call)
    → Agrees c past
    → let (c', past') = record_run c past calls in Agrees c' past'
unfolding record_run
run-Agrees c past [] v = v
run-Agrees c past (call ∷ calls) v =
    run-Agrees (step c call).0 ((call, (step c call).1) ∷ past) calls (step-Agrees c past call v)

-- After any calls on an empty cache: what waits on each address is what the history says, the
-- frames parked there since it was last resolved or removed, in order; every resolution handed
-- over exactly those frames; a request was asked for by the first frame to wait on an address
-- and by no other; and the cache is within its bounds.
pub record_run-Agrees :
    (calls : List Call) → let (c, past) = record_run new [] calls in Agrees c past
record_run-Agrees calls = run-Agrees new [] calls (record {
  waits = λ ip. unfold waiting get expected in refl;
  faithful = tt;
  bounds = new-IsCache;
})
