-- ===== src/Net/Arp/Cache/Invariant.antt =====
-- The cache stays within its bounds.
use conc_os.Common.{
  ℕ, ◌+◌, ◌≤◌, ◌<◌, ◌≡◌, refl, List, [], ◌∷◌, ◌++◌, Option, none, some, arith, ltb, leb, length,
  length-append, Bool-cases, inl, inr, subst,
}
use conc_os.Common.Map.{lookup as get, insert as put, remove as delete}
use conc_os.Net.Addr.{MacAddress, Ipv4Addr, addr_key, addr_eq}
use conc_os.Net.Arp.Cache.{
  ArpCache, ArpEntry, resolved, pending, new, insert, queue_pending, queue_on, remove,
  pending_addresses, count_pending, max_pending_addresses, max_pending_per_address,
}

-- A queue is never empty and never over its limit.
abbrev pub IsBounded : ArpEntry → Type 0
IsBounded (resolved _) = Unit
IsBounded (pending queue) = (0 < length queue) × (length queue ≤ max_pending_per_address)

abbrev pub AllBounded : List (Ipv4Addr × ArpEntry) → Type 0
AllBounded [] = Unit
AllBounded ((_, entry) ∷ rest) = IsBounded entry × AllBounded rest

pub record IsCache (c : ArpCache) : Type 0 where
  pub queues : AllBounded c.entries
  pub addresses : pending_addresses c ≤ max_pending_addresses

put-AllBounded :
    (ip : Ipv4Addr) (entry : ArpEntry) (m : List (Ipv4Addr × ArpEntry))
    → IsBounded entry
    → AllBounded m
    → AllBounded (put ip entry m)
unfolding put
put-AllBounded ip entry [] h v = (h, tt)
put-AllBounded ip entry ((j, old) ∷ m) h v = ground (arith, put-AllBounded ip entry m h v.1)

delete-AllBounded :
    (ip : Ipv4Addr) (m : List (Ipv4Addr × ArpEntry)) → AllBounded m → AllBounded (delete ip m)
unfolding delete
delete-AllBounded ip [] v = tt
delete-AllBounded ip ((j, old) ∷ m) v = ground (arith, delete-AllBounded ip m v.1)

pub get-IsBounded :
    (ip : Ipv4Addr) (m : List (Ipv4Addr × ArpEntry)) (entry : ArpEntry)
    → AllBounded m
    → get ip m ≡ some entry
    → IsBounded entry
unfolding get
get-IsBounded ip [] entry v e = absurd (cc)
get-IsBounded ip ((j, old) ∷ m) entry v e = elim (Bool-cases (addr_eq j ip)) [
  | inl here ↦ let same : old ≡ entry = ground arith in subst IsBounded same v.0
  | inr further ↦ get-IsBounded ip m entry v.1 (ground arith)
]

-- A resolved entry does not add to the count.
count-put_resolved :
    (ip : Ipv4Addr) (mac : MacAddress) (m : List (Ipv4Addr × ArpEntry))
    → count_pending (put ip (resolved mac) m) ≤ count_pending m
unfolding count_pending put
count-put_resolved ip mac [] = omega arith
count-put_resolved ip mac ((j, old) ∷ m) = ground (arith, count-put_resolved ip mac m)

-- A new address adds one at most; one that waits already adds none.
count-put_pending :
    (ip : Ipv4Addr) (queue : List (List ℕ)) (m : List (Ipv4Addr × ArpEntry))
    → count_pending (put ip (pending queue) m) ≤ 1 + count_pending m
unfolding count_pending put
count-put_pending ip queue [] = omega arith
count-put_pending ip queue ((j, old) ∷ m) = ground (arith, count-put_pending ip queue m)

count-put_again :
    (ip : Ipv4Addr) (queue old : List (List ℕ)) (m : List (Ipv4Addr × ArpEntry))
    → get ip m ≡ some (pending old)
    → count_pending (put ip (pending queue) m) ≡ count_pending m
unfolding count_pending put get
count-put_again ip queue old [] e = absurd (cc)
count-put_again ip queue old ((j, entry) ∷ m) e = ground (arith, count-put_again ip queue old m)

count-delete :
    (ip : Ipv4Addr) (m : List (Ipv4Addr × ArpEntry)) → count_pending (delete ip m) ≤ count_pending m
unfolding count_pending delete
count-delete ip [] = omega arith
count-delete ip ((j, entry) ∷ m) = ground (arith, count-delete ip m)

pub insert-IsCache :
    (c : ArpCache) (ip : Ipv4Addr) (mac : MacAddress) → IsCache c → IsCache (insert c ip mac).0
unfolding insert pending_addresses
insert-IsCache c ip mac v = record {
  queues = put-AllBounded ip (resolved mac) c.entries tt v.queues;
  addresses = omega (arith, v.addresses, count-put_resolved ip mac c.entries);
}

queue_on-IsCache :
    (c : ArpCache) (ip : Ipv4Addr) (frame : List ℕ) (found : Option ArpEntry)
    → get ip c.entries ≡ found
    → IsCache c
    → IsCache (queue_on c ip frame found).0
unfolding queue_on pending_addresses
queue_on-IsCache c ip frame (some (resolved mac)) e v = v
queue_on-IsCache c ip frame none e v =
    elim (Bool-cases (leb max_pending_addresses (count_pending c.entries))) [
      | inl full ↦ rw full v
      | inr room ↦ rw room (record {
        queues = put-AllBounded ip (pending (frame ∷ [])) c.entries (omega arith) v.queues;
        addresses = ground (arith, count-put_pending ip (frame ∷ []) c.entries);
      })
    ]
queue_on-IsCache c ip frame (some (pending queue)) e v =
    elim (Bool-cases (ltb (length queue) max_pending_per_address)) [
      | inr full ↦ rw full v
      | inl room ↦ rw room (
          let bounds = get-IsBounded ip c.entries (pending queue) v.queues e in
          record {
            queues =
                put-AllBounded ip (pending (queue ++ (frame ∷ []))) c.entries
                  (ground (arith, length-append queue (frame ∷ []))) v.queues;
            addresses =
                ground
                  (arith, v.addresses, count-put_again ip (queue ++ (frame ∷ [])) queue c.entries);
          })
    ]

pub queue_pending-IsCache :
    (c : ArpCache) (ip : Ipv4Addr) (frame : List ℕ)
    → IsCache c
    → IsCache (queue_pending c ip frame).0
unfolding queue_pending
queue_pending-IsCache c ip frame v = queue_on-IsCache c ip frame (get ip c.entries) refl v

pub remove-IsCache : (c : ArpCache) (ip : Ipv4Addr) → IsCache c → IsCache (remove c ip)
unfolding remove pending_addresses
remove-IsCache c ip v = record {
  queues = delete-AllBounded ip c.entries v.queues;
  addresses = omega (arith, v.addresses, count-delete ip c.entries);
}

pub new-IsCache : IsCache new
unfolding pending_addresses count_pending
new-IsCache = record { queues = tt; addresses = omega arith }
