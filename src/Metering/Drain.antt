-- ===== src/Metering/Drain.antt =====
-- Which buckets a drain takes (orchestrator/internal/metering/meter.go).
use orchd.Prelude.{
  ℕ, ◌<◌, ◌≤◌, Option, List, [], ◌∷◌, ◌++◌, map, arith, leb, All, Bool-cases, inl, inr,
}
use orchd.Table.{remove_if}
use orchd.Metering.Meter.{
  Bucket, Shard, Meter, ripe, unripe, ripe_all, drain_limit, live_minute, drain, book_all, swapped,
}

abbrev pub IsRipe : ℕ → Bucket → Type 0
IsRipe limit b = b.minute < limit

-- Every bucket of a shard belongs to the limit's minute or a later one.
abbrev pub IsDrained : ℕ → Shard → Type 0
IsDrained limit s = All (λ e. limit ≤ e.1.minute) s

ripe-IsRipe : (limit : ℕ) (s : Shard) → All (IsRipe limit) (ripe limit s)
unfolding ripe
ripe-IsRipe limit [] = tt
ripe-IsRipe limit ((k, b) ∷ s) = elim (Bool-cases (leb limit b.minute)) [
  | inl e ↦ rw e (ripe-IsRipe limit s)
  | inr e ↦ rw e (ground (arith, e), ripe-IsRipe limit s)
]

unripe-IsDrained : (limit : ℕ) (s : Shard) → IsDrained limit (unripe limit s)
unfolding unripe remove_if
unripe-IsDrained limit [] = tt
unripe-IsDrained limit ((k, b) ∷ s) = elim (Bool-cases (leb limit b.minute)) [
  | inl e ↦ rw e (ground (arith, e), unripe-IsDrained limit s)
  | inr e ↦ rw e (unripe-IsDrained limit s)
]

All-append : (P : Bucket → Type 0) (bs cs : List Bucket) → All P bs → All P cs → All P (bs ++ cs)
All-append P [] cs h k = k
All-append P (b ∷ bs) cs h k = (h.0, All-append P bs cs h.1 k)

ripe_all-IsRipe : (limit : ℕ) (ss : List Shard) → All (IsRipe limit) (ripe_all limit ss)
unfolding ripe_all
ripe_all-IsRipe limit [] = tt
ripe_all-IsRipe limit (s ∷ ss) =
    All-append (IsRipe limit) (ripe limit s) (ripe_all limit ss) (ripe-IsRipe limit s)
      (ripe_all-IsRipe limit ss)

map-unripe-IsDrained : (limit : ℕ) (ss : List Shard) → All (IsDrained limit) (map (unripe limit) ss)
map-unripe-IsDrained limit [] = tt
map-unripe-IsDrained limit (s ∷ ss) = (unripe-IsDrained limit s, map-unripe-IsDrained limit ss)

-- A drain returns buckets of minutes before its limit only, and leaves none of those.
pub drain_splits :
    (before : Option ℕ) (now : ℕ) (m : Meter)
    → All (IsRipe (drain_limit before)) (drain before now m).0
      × All (IsDrained (drain_limit before)) (drain before now m).1.shards
unfolding drain
drain_splits before now m =
    let booked =
      book_all (live_minute before now) m.live (record m { live = map swapped m.live }) in
    (
      ripe_all-IsRipe (drain_limit before) booked.shards,
      map-unripe-IsDrained (drain_limit before) booked.shards,
    )
