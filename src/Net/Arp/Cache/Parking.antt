-- ===== src/Net/Arp/Cache/Parking.antt =====
-- `ArpCache::queue_pending` of net/src/arp.rs: what each answer means for the frame.
use conc_os.Common.{
  ℕ, ◌≤◌, ◌<◌, ◌≡◌, ◌≢◌, ◌⊎◌, refl, sym, ◌∙◌, ap, List, [], ◌∷◌, ◌++◌, Option, none, some, false,
  Bool-cases, inl, inr, length, ltb, leb, arith,
}
use conc_os.Common.Map.{lookup as get, insert as put, lookup-insert}
use conc_os.Net.Arp.Cache.Invariant.{IsCache, get-IsBounded}
use conc_os.Net.Addr.{Ipv4Addr, addr_eq, addr_eq_refl, addr_key}
use conc_os.Net.Arp.Cache.{
  ArpCache, ArpEntry, Queued, request_needed, already_pending, dropped, pending, resolved, lookup,
  resolved_mac, waiting, pending_addresses, queue_on, queue_pending, max_pending_per_address,
  max_pending_addresses,
}

-- What waits on each address after a frame was parked on one.
pub record Parked (c c' : ArpCache) (ip : Ipv4Addr) (frame : List ℕ) : Type 0 where
  pub here : waiting c' ip ≡ waiting c ip ++ (frame ∷ [])
  pub elsewhere : (j : Ipv4Addr) → addr_eq ip j ≡ false → waiting c' j ≡ waiting c j

pub data Queues (c : ArpCache) (ip : Ipv4Addr) (frame : List ℕ) (r : ArpCache × Queued)
    : Type 0 where
  first : waiting c ip ≡ [] → Parked c r.0 ip frame → r.1 ≡ request_needed → Queues c ip frame r
  joined :
      waiting c ip ≢ []
      → length (waiting c ip) < 4
      → Parked c r.0 ip frame
      → r.1 ≡ already_pending
      → Queues c ip frame r
  refused :
      (4 ≤ length (waiting c ip)) ⊎ ((waiting c ip ≡ []) × (16 ≤ pending_addresses c))
      → r.0 ≡ c
      → r.1 ≡ dropped
      → Queues c ip frame r

module _ (c : ArpCache) (ip : Ipv4Addr) (frame : List ℕ) where
  -- The queue of an address is put in its place.
  put-Parked :
      (queue : List (List ℕ))
      → queue ≡ waiting c ip
      → Parked c (record { entries = put ip (pending (queue ++ (frame ∷ []))) c.entries }) ip frame
  unfolding waiting
  put-Parked queue e = record {
    here = rw (lookup-insert ip ip (pending (queue ++ (frame ∷ []))) c.entries, addr_eq_refl ip, e);
    elsewhere =
        λ j other. rw (lookup-insert ip j (pending (queue ++ (frame ∷ []))) c.entries, other);
  }

  queue_on-Queues :
      IsCache c
      → (found : Option ArpEntry) → get ip c.entries ≡ found
      → resolved_mac found ≡ none
      → Queues c ip frame (queue_on c ip frame found)
  unfolding queue_on
  queue_on-Queues v (some (resolved mac)) e unknown = absurd (cc)
  queue_on-Queues v (some (pending queue)) e unknown =
      let held : waiting c ip ≡ queue = unfold waiting in rw e in
      elim (Bool-cases (ltb (length queue) max_pending_per_address)) [
        | inl room ↦
            let bounds = get-IsBounded ip c.entries (pending queue) v.queues e in
            let some_wait : waiting c ip ≢ [] =
              λ z. omega (arith, bounds, ap length (sym held ∙ z)) in
            rw room (joined some_wait (rw held (ground arith)) (put-Parked queue (rw held)) refl)
        | inr full ↦ rw full (refused (inl (rw held (ground arith))) refl refl)
      ]
  queue_on-Queues v none e unknown =
      let nobody : waiting c ip ≡ [] = unfold waiting in rw e in
      elim (Bool-cases (leb max_pending_addresses (pending_addresses c))) [
        | inl full ↦ rw full (refused (inr (nobody, ground arith)) refl refl)
        | inr room ↦ rw room (first nobody (put-Parked [] (rw nobody)) refl)
      ]

  -- A frame for an address that is not resolved is parked behind those that wait for it, and the
  -- first one asks for a request; or there is no room, and nothing changes.
  pub queue_pending-Queues :
      IsCache c → lookup c ip ≡ none → Queues c ip frame (queue_pending c ip frame)
  unfolding queue_pending lookup
  queue_pending-Queues v unknown = queue_on-Queues v (get ip c.entries) refl unknown
