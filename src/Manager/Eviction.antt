-- ===== src/Manager/Eviction.antt =====
-- The choice of the projects that ReapLRU evicts: orchestrator/internal/manager/eviction.go.
use orchd.Prelude.{
  ℕ, ◌+◌, ◌-◌, Text, Bool, ◌||◌, List, [], ◌∷◌, ltb, leb, ◌==◌, if◌then◌else◌, length, drop, any,
  map,
}
use orchd.Prelude.Lists.{reverse}
use orchd.Prelude.Int.{ℤ, pos_part}
use orchd.Prelude.Sorting.{sort_by}
use orchd.Store.Records.{Project}
use orchd.Store.Mem.{MemStore}
use orchd.Store.Query.{list_projects, list_workloads}
use orchd.Manager.State.{is_running}

-- evictCandidate
pub record Candidate : Type 0 where
  pub id : Text
  pub last_active : ℕ
  pub protected : Bool

-- cands[i].lastActive.After(cands[j].lastActive)
unfoldable pub fresher : Candidate → Candidate → Bool
fresher a b = ltb b.last_active a.last_active

-- The two `continue`s: it is protected, or now.Sub(lastActive) < minAge.
unfoldable pub is_skipped : ℕ → ℕ → Candidate → Bool
is_skipped min_age now c = c.protected || ltb now (c.last_active + min_age)

-- The loop, from the oldest upward; `room` is how many are still to be taken before the break.
unfoldable pub walk : ℕ → ℕ → ℕ → List Candidate → List Text
walk min_age now room [] = []
walk min_age now room (c ∷ cs) =
    let rest = walk min_age now (if is_skipped min_age now c then room else room - 1) cs in
    if is_skipped min_age now c then rest else c.id ∷ (if leb room 1 then [] else rest)

-- selectLRUEvictions, of Go's signed `keep` and `batch`
unfoldable pub select_lru_evictions : List Candidate → ℤ → ℤ → ℕ → ℕ → List Text
unfolding walk
select_lru_evictions cands keep batch min_age now =
    if (pos_part keep == 0 || pos_part batch == 0) || leb (length cands) (pos_part keep)
    then []
    else walk min_age now (pos_part batch) (reverse (drop (pos_part keep) (sort_by fresher cands)))

-- projectLastActive; the zero time is 0.
unfoldable pub project_last_active : Project → ℕ
project_last_active p = if p.last_active_at == 0 then p.created_at else p.last_active_at

module _ {D : Type 0} where
  -- projectProtected
  unfoldable pub project_protected : Text → MemStore D → Bool
  project_protected id s = any (λ w. w.keep_warm || is_running w.state) (list_workloads id s)

  unfoldable pub candidate_of : MemStore D → Project → Candidate
  unfolding project_last_active project_protected
  candidate_of s p = record {
    id = p.id;
    last_active = project_last_active p;
    protected = project_protected p.id s;
  }

  -- ReapLRU up to its loop: the projects to evict.
  unfoldable pub lru_victims : ℤ → ℕ → ℕ → MemStore D → List Text
  unfolding candidate_of select_lru_evictions
  lru_victims batch min_age now s =
      if pos_part s.settings.lru_keep_max == 0
      then []
      else select_lru_evictions (map (candidate_of s) (list_projects s)) s.settings.lru_keep_max
          batch min_age now
