-- ===== src/Metering/Reporter.antt =====
-- Reporter of orchestrator/internal/metering/reporter.go: what is drained goes into an outbox,
-- which is posted in batches with backoff. Times and durations are in nanoseconds, 0 the zero
-- time. What the website answers, the clock, random ids and the resolver are parameters; a
-- method is one step, but for the posts, whose answers are numbered by the posts made.
use orchd.Prelude.{
  ℕ, zero, suc, ◌+◌, ◌-◌, ◌*◌, ◌/◌, Text, codes, text_eq, Bool, true, false, not, ◌&&◌, ◌||◌,
  Option, none, some, List, [], ◌∷◌, ◌++◌, ltb, ◌==◌, if◌then◌else◌, length, drop, keep, min, max,
}
use orchd.Table.{Table, lookup, insert}
use orchd.Metering.Counters.{Counters, add64}
use orchd.Metering.Meter.{Bucket}

pub record Aggregate : Type 0 where
  pub id : Text
  pub minute : ℕ
  pub project_id : Option Text
  pub workload : Text
  pub counters : Counters

pub record Target : Type 0 where
  pub url : Text
  pub header : Text
  pub value : Text

-- The part of ReporterConfig that NewReporter leaves set.
pub record Config : Type 0 where
  pub buffer : ℕ
  pub max_pending : ℕ
  pub resolve : Text → Option Text

pub record Reporter : Type 0 where
  pub outbox : List Aggregate
  pub backoff : ℕ
  pub next_try : ℕ
  pub sent : ℕ
  pub dropped : ℕ
  pub last_err : Text
  pub last_sent : ℕ
  pub last : List Aggregate
  pub last_url : Text
  pub resolved : Table (Option Text)
  pub minted : ℕ  -- the random ids drawn so far
  pub posts : ℕ  -- the posts made so far

abbrev pub second : ℕ
second = 1_000_000_000

abbrev pub max_batch : ℕ
max_batch = 500

abbrev pub min_backoff : ℕ
min_backoff = 5 * second

abbrev pub max_backoff : ℕ
max_backoff = 300 * second

-- The zero fields of a configuration are given their defaults (NewReporter).
unfoldable pub with_defaults : Config → Config
with_defaults cfg = record cfg {
  buffer = if cfg.buffer == 0 then 3600 * second else cfg.buffer;
  max_pending = if cfg.max_pending == 0 then 100_000 else cfg.max_pending;
}

-- The time at which a bucket's minute starts.
abbrev pub minute_time : ℕ → ℕ
minute_time minute = minute * (60 * second)

-- The project id of a bucket: from this drain, the last one, or the resolver.
unfoldable pub resolved_id :
    (Text → Option Text) → Table (Option Text) → Table (Option Text) → Text → Option Text
resolved_id resolve now before project = elim (lookup project now) [
  | some pid ↦ pid
  | none ↦ elim (lookup project before) [ some pid ↦ pid | none ↦ resolve project ]
]

-- collect's loop over the buckets: the aggregates, and what it resolved.
unfoldable pub aggregates :
    (ℕ → Text)
    → (Text → Option Text)
    → Table (Option Text)
    → ℕ
    → Table (Option Text)
    → List Bucket
    → List Aggregate × Table (Option Text)
aggregates new_id resolve before minted now [] = ([], now)
aggregates new_id resolve before minted now (b ∷ bs) =
    let pid = resolved_id resolve now before b.project in
    let rest = aggregates new_id resolve before (suc minted) (insert b.project pid now) bs in
    (
      record {
        id = new_id minted;
        minute = b.minute;
        project_id = pid;
        workload = b.workload;
        counters = b.counters;
      }
          ∷ rest.0,
      rest.1,
    )

-- The newest minute of a list of aggregates; 0 stands for the zero time.
unfoldable pub newest_minute : List Aggregate → ℕ
newest_minute [] = 0
newest_minute (a ∷ xs) = max a.minute (newest_minute xs)

-- noteTargetLocked, without the log
unfoldable pub note_target : Target → Reporter → Reporter
note_target t r = record r { last_url = t.url }

-- pruneLocked drops from the front what is past the buffer's age or beyond the count.
unfoldable pub is_past : Config → ℕ → List Aggregate → Bool
is_past cfg now [] = false
is_past cfg now (a ∷ xs) =
    ltb (minute_time a.minute + cfg.buffer) now || ltb cfg.max_pending (suc (length xs))

unfoldable pub pruned : Config → ℕ → List Aggregate → List Aggregate
pruned cfg now [] = []
pruned cfg now (a ∷ xs) =
    let rest = pruned cfg now xs in if is_past cfg now (a ∷ xs) then rest else a ∷ xs

unfoldable pub prune : Config → ℕ → Reporter → Reporter
prune cfg now r =
    let left = pruned cfg now r.outbox in
    record r { outbox = left; dropped = add64 r.dropped (length r.outbox - length left) }

-- collect, given what Drain returned and the target and the clock xs they were read
unfoldable pub collect : (ℕ → Text) → Config → List Bucket → Target → ℕ → Reporter → Reporter
collect new_id cfg buckets target now r =
    let (aggs, found) = aggregates new_id cfg.resolve r.resolved r.minted [] buckets in
    let newest = newest_minute aggs in
    let noted = note_target target (record r {
      resolved = if 0 == length buckets then r.resolved else found;
      last = if 0 == length aggs then r.last else keep (λ a. a.minute == newest) aggs;
      minted = r.minted + length buckets;
    }) in
    if text_eq target.url (codes "")
    then noted
    else prune cfg now (record noted { outbox = noted.outbox ++ aggs })

-- What a post gave: the status code, none if there was no response, and the error's text.
pub record Answer : Type 0 where
  pub code : Option ℕ
  pub error : Text

abbrev pub is_accepted : Answer → Bool
is_accepted a = elim a.code [ none ↦ false | some c ↦ c / 100 == 2 ]

abbrev pub is_refused : Answer → Bool
is_refused a = elim a.code [ none ↦ false | some c ↦ c == 400 ]

-- The branches after a post of `n` aggregates, with the clock xs it then reads.
unfoldable pub accepted : ℕ → ℕ → Reporter → Reporter
accepted n now r = record r {
  sent = add64 r.sent n;
  last_sent = now;
  last_err = codes "";
  outbox = drop n r.outbox;
  backoff = 0;
  next_try = 0;
}

unfoldable pub refused : ℕ → Reporter → Reporter
refused n r = record r {
  dropped = add64 r.dropped n;
  outbox = drop n r.outbox;
  backoff = 0;
  next_try = 0;
}

unfoldable pub failed : Text → ℕ → Reporter → Reporter
failed error now r =
    let wait = min (max (r.backoff * 2) min_backoff) max_backoff in
    record r { backoff = wait; next_try = now + wait; last_err = error }

-- The head of send's loop: nothing to send, or not yet.
unfoldable pub is_waiting : Bool → ℕ → Reporter → Bool
is_waiting force now r = length r.outbox == 0 || (not force && ltb now r.next_try)

module _ (answer : ℕ → Answer) (clock : ℕ → ℕ) (force : Bool) where
  -- One round of the loop, and whether it goes on.
  unfoldable pub send_round : Reporter → Reporter × Bool
  unfolding accepted refused failed
  send_round r =
      let n = min (length r.outbox) max_batch in
      let a = answer r.posts in
      let posted = record r { posts = suc r.posts } in
      if is_accepted a
      then (accepted n (clock posted.posts) posted, true)
      else if is_refused a
      then (refused n posted, true)
      else (failed a.error (clock posted.posts) posted, false)

  -- The loop, on fuel.
  unfoldable pub send_loop : ℕ → Reporter → Reporter
  send_loop zero r = r
  send_loop (suc fuel) r =
      let next = send_round r in
      let rest = send_loop fuel next.0 in
      if is_waiting force (clock r.posts) r then r else if next.1 then rest else next.0

  -- send: every round takes at least one aggregate, so the outbox bounds the rounds.
  unfoldable pub send : Target → Reporter → Reporter
  send target r =
      let noted = note_target target r in
      if text_eq target.url (codes "") then noted else send_loop (suc (length noted.outbox)) noted
