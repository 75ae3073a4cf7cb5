-- ===== src/Metering/Meter.antt =====
-- The open buckets: Meter of orchestrator/internal/metering/meter.go. The meter is not nil, and
-- each method is one step, since a request holds the shard's lock. A key of a shard's map, a
-- minute and a workload, is the text of the two.
use Prim.Native.Nat.{bit_xor}
use orchd.Prelude.{
  ℕ, ◌-◌, ◌*◌, ◌/◌, ◌%◌, ◌^◌, Text, ◌&&◌, not, Option, none, some, List, [], ◌∷◌, ◌++◌, map, leb,
  ◌==◌, if◌then◌else◌, get_or, set, replicate, keep,
}
use orchd.Table.{Table, lookup, insert, remove_if}
use orchd.Metering.Counters.{Counters, zero_counters, ◌⊕◌, status_class, mark_status}

pub record Bucket : Type 0 where
  pub minute : ℕ
  pub workload : Text
  pub project : Text
  pub counters : Counters

-- bucketKey
abbrev pub bucket_key : ℕ → Text → Text
bucket_key minute workload = minute ∷ workload

-- bucketVal, with the key that it stands under
abbrev pub Shard : Type 0
Shard = Table Bucket

-- countingConn: a hijacked connection and its bytes since the last drain.
pub record Conn : Type 0 where
  pub id : ℕ
  pub workload : Text
  pub project : Text
  pub bytes_in : ℕ
  pub bytes_out : ℕ

pub record Meter : Type 0 where
  pub shards : List Shard
  pub live : List Conn

abbrev pub shard_count : ℕ
shard_count = 32

unfoldable pub new_meter : Meter
new_meter = record { shards = replicate shard_count []; live = [] }

fnv : ℕ → Text → ℕ
fnv h [] = h
fnv h (b ∷ s) = fnv ((bit_xor h b * 16777619) % 2 ^ 32) s

unfoldable pub shard_of : Text → ℕ
unfolding fnv
shard_of workload = fnv 2166136261 workload % shard_count

-- A Unix time in seconds to its minute.
unfoldable pub unix_minute : ℕ → ℕ
unix_minute t = t / 60

-- The bucket that a look-up found, or a new one.
unfoldable pub open_bucket : ℕ → Text → Text → Option Bucket → Bucket
open_bucket minute workload project none = record {
  minute = minute;
  workload = workload;
  project = project;
  counters = zero_counters;
}
open_bucket minute workload project (some b) = b

-- The body of `add` under the shard's lock.
unfoldable pub add_to : ℕ → Text → Text → Counters → Shard → Shard
add_to minute workload project c s =
    let b = open_bucket minute workload project (lookup (bucket_key minute workload) s) in
    insert (bucket_key minute workload) (record b { counters = b.counters ⊕ c }) s

unfoldable pub add : ℕ → Text → Text → Counters → Meter → Meter
add minute workload project c m =
    let i = shard_of workload in
    record m { shards = set m.shards i (add_to minute workload project c (get_or m.shards i [])) }

-- The counters of one finished request.
unfoldable pub request_counters : ℕ → ℕ → ℕ → Counters
request_counters status bytes_in bytes_out =
    let c = record zero_counters { requests = 1; bytes_in = bytes_in; bytes_out = bytes_out } in
    elim (status_class status) [ none ↦ c | some i ↦ mark_status i c ]

-- Record: `now` is the meter's clock, in Unix seconds.
unfoldable pub record_request : ℕ → Text → Text → ℕ → ℕ → ℕ → Meter → Meter
record_request now workload project status bytes_in bytes_out m =
    add (unix_minute now) workload project (request_counters status bytes_in bytes_out) m

-- c.in.Swap(0), c.out.Swap(0)
unfoldable pub swapped : Conn → Conn
swapped c = record c { bytes_in = 0; bytes_out = 0 }

unfoldable pub conn_counters : Conn → Counters
conn_counters c = record zero_counters { bytes_in = c.bytes_in; bytes_out = c.bytes_out }

-- Books what a connection carried, if it carried anything.
unfoldable pub book : ℕ → Conn → Meter → Meter
book minute c m =
    if c.bytes_in == 0 && c.bytes_out == 0
    then m
    else add minute c.workload c.project (conn_counters c) m

-- The first loop of Drain, over the live connections.
unfoldable pub book_all : ℕ → List Conn → Meter → Meter
book_all minute [] m = m
book_all minute (c ∷ cs) m = book_all minute cs (book minute c m)

-- What the second loop takes out of one shard, and what it leaves.
unfoldable pub ripe : ℕ → Shard → List Bucket
ripe limit [] = []
ripe limit ((k, b) ∷ s) = let rest = ripe limit s in if leb limit b.minute then rest else b ∷ rest

unfoldable pub unripe : ℕ → Shard → Shard
unripe limit s = remove_if (λ _ b. not (leb limit b.minute)) s

unfoldable pub ripe_all : ℕ → List Shard → List Bucket
ripe_all limit [] = []
ripe_all limit (s ∷ ss) = ripe limit s ++ ripe_all limit ss

-- `1<<62 - 1`, the limit of a drain of everything
abbrev pub no_limit : ℕ
no_limit = 2 ^ 62 - 1

abbrev pub drain_limit : Option ℕ → ℕ
drain_limit none = no_limit
drain_limit (some before) = unix_minute before

abbrev pub live_minute : Option ℕ → ℕ → ℕ
live_minute none now = unix_minute now
live_minute (some before) now = unix_minute now - 1

-- Drain; `none` is the zero time.
unfoldable pub drain : Option ℕ → ℕ → Meter → List Bucket × Meter
drain before now m =
    let booked =
      book_all (live_minute before now) m.live (record m { live = map swapped m.live }) in
    (
      ripe_all (drain_limit before) booked.shards,
      record booked { shards = map (unripe (drain_limit before)) booked.shards },
    )

-- track, untrack
unfoldable pub track : Conn → Meter → Meter
track c m = record m { live = c ∷ m.live }

unfoldable pub untrack : ℕ → Conn → Meter → Meter
untrack now c m =
    book (unix_minute now) c (record m { live = keep (λ d. not (d.id == c.id)) m.live })
