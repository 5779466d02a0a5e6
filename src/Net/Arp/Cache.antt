-- ===== src/Net/Arp/Cache.antt =====
-- `ArpCache` of net/src/arp.rs. The `BTreeMap` is an association list.
pub mod Invariant
pub mod History
pub mod Parking
use conc_os.Common.{
  ℕ, zero, suc, ◌+◌, List, [], ◌∷◌, ◌++◌, Bool, true, false, Option, none, some, ltb, leb,
  if◌then◌else◌, length,
}
use conc_os.Common.Map.{lookup as get, insert as put, remove as delete}
use conc_os.Net.Addr.{MacAddress, Ipv4Addr, addr_key}

abbrev pub max_pending_per_address : ℕ
max_pending_per_address = 4

abbrev pub max_pending_addresses : ℕ
max_pending_addresses = 16

-- A parked frame is the bytes of an IPv4 packet.
pub data ArpEntry : Type 0 where
  resolved : MacAddress → ArpEntry
  pending : List (List ℕ) → ArpEntry

pub data Queued : Type 0 where
  request_needed already_pending dropped : Queued

pub record ArpCache : Type 0 where
  pub entries : List (Ipv4Addr × ArpEntry)

abbrev pub new : ArpCache
new = record { entries = [] }

abbrev resolved_mac : Option ArpEntry → Option MacAddress
resolved_mac (some (resolved mac)) = some mac
resolved_mac (some (pending _)) = none
resolved_mac none = none

-- `ArpCache::lookup`
unfoldable pub lookup : ArpCache → Ipv4Addr → Option MacAddress
lookup c ip = resolved_mac (get ip c.entries)

abbrev parked : Option ArpEntry → List (List ℕ)
parked (some (pending queue)) = queue
parked (some (resolved _)) = []
parked none = []

-- `ArpCache::insert`: the new cache, and the frames to send.
unfoldable pub insert : ArpCache → Ipv4Addr → MacAddress → ArpCache × List (List ℕ)
insert c ip mac = (record { entries = put ip (resolved mac) c.entries }, parked (get ip c.entries))

-- Whether an entry is `Pending`, and how many are.
abbrev is_pending : ArpEntry → Bool
is_pending (resolved _) = false
is_pending (pending _) = true

unfoldable pub count_pending : List (Ipv4Addr × ArpEntry) → ℕ
count_pending [] = 0
count_pending ((ip, entry) ∷ rest) = (if is_pending entry then 1 else 0) + count_pending rest

-- `ArpCache::pending_addresses`
unfoldable pub pending_addresses : ArpCache → ℕ
unfolding count_pending
pending_addresses c = count_pending c.entries

-- `ArpCache::queue_pending`, by what `get_mut` finds.
queue_on : ArpCache → Ipv4Addr → List ℕ → Option ArpEntry → ArpCache × Queued
unfolding pending_addresses
queue_on c ip frame (some (pending queue)) =
    if ltb (length queue) max_pending_per_address
    then (record { entries = put ip (pending (queue ++ (frame ∷ []))) c.entries }, already_pending)
    else (c, dropped)
queue_on c ip frame (some (resolved _)) = (c, dropped)
queue_on c ip frame none =
    if leb max_pending_addresses (pending_addresses c)
    then (c, dropped)
    else (record { entries = put ip (pending (frame ∷ [])) c.entries }, request_needed)

unfoldable pub queue_pending : ArpCache → Ipv4Addr → List ℕ → ArpCache × Queued
unfolding queue_on
queue_pending c ip frame = queue_on c ip frame (get ip c.entries)

-- `ArpCache::remove`
unfoldable pub remove : ArpCache → Ipv4Addr → ArpCache
remove c ip = record { entries = delete ip c.entries }

abbrev is_some : Option MacAddress → Bool
is_some (some _) = true
is_some none = false

-- `ArpCache::contains`
unfoldable pub contains : ArpCache → Ipv4Addr → Bool
unfolding lookup
contains c ip = is_some (lookup c ip)

-- `ArpCache::pending_len`
unfoldable pub pending_len : ArpCache → Ipv4Addr → ℕ
pending_len c ip = length (parked (get ip c.entries))

-- The frames parked on an address.
unfoldable pub waiting : ArpCache → Ipv4Addr → List (List ℕ)
waiting c ip = parked (get ip c.entries)

-- The calls that change the cache, and what each returns.
pub data Call : Type 0 where
  inserts : Ipv4Addr → MacAddress → Call
  queues : Ipv4Addr → List ℕ → Call
  removes : Ipv4Addr → Call

pub data Answer : Type 0 where
  drained : List (List ℕ) → Answer
  queued : Queued → Answer
  done : Answer

unfoldable pub step : ArpCache → Call → ArpCache × Answer
step c (inserts ip mac) = let (c', frames) = insert c ip mac in (c', drained frames)
step c (queues ip frame) = let (c', q) = queue_pending c ip frame in (c', queued q)
step c (removes ip) = (remove c ip, done)
