-- ===== src/Manager/Reaper.antt =====
-- ReapIdle and reconcileStates of orchestrator/internal/manager/manager.go. The suspends of one
-- pass are taken one after another, each under its workload's lock; they are those of a manager
-- that has no dump-backed workload types, for which dumpBeforeSuspend does nothing.
use orchd.Prelude.{
  ℕ, ◌+◌, Text, codes, Bool, true, false, not, ◌&&◌, ◌||◌, Option, none, some, List, [], ◌∷◌, ◌++◌,
  ltb, ◌==◌, if◌then◌else◌, keep, is_some,
}
use orchd.Table.{Table, lookup, insert, remove, keys}
use orchd.Store.Records.{Snapshot, Workload, running, suspended}
use orchd.Store.Query.{get_workload, list_workloads}
use orchd.Manager.State.{
  Runtime, Manager, Config, LiveInstance, is_running, is_kept_warm, forget, set_state,
  note_project_activity,
}

-- now.Sub(li.lastSeen) > IdleTimeout
abbrev pub is_over : ℕ → ℕ → Option ℕ → Bool
is_over timeout now none = false
is_over timeout now (some t) = ltb (t + timeout) now

abbrev pub seen_at : Option LiveInstance → Option ℕ
seen_at none = none
seen_at (some li) = some li.last_seen

-- The first loop: the live instances that were not used for the timeout.
unfoldable pub stale_live : ℕ → ℕ → Table LiveInstance → List Text
stale_live timeout now live =
    keep (λ id. is_over timeout now (seen_at (lookup id live))) (keys live)

-- The second loop: running workloads without a live entry, after one timeout of grace.
unfoldable pub sweep_one : ℕ → ℕ → Table LiveInstance → Workload → Table ℕ → Table ℕ × List Text
sweep_one timeout now live w unowned =
    if not (is_running w.state) || is_some (lookup w.id live)
    then (remove w.id unowned, [])
    else elim (lookup w.id unowned) [
      | none ↦ (insert w.id now unowned, [])
      | some first ↦
          if is_over timeout now (some first)
          then (remove w.id unowned, w.id ∷ [])
          else (unowned, [])
    ]

unfoldable pub sweep_unowned :
    ℕ → ℕ → Table LiveInstance → List Workload → Table ℕ → Table ℕ × List Text
unfolding sweep_one
sweep_unowned timeout now live [] unowned = (unowned, [])
sweep_unowned timeout now live (w ∷ ws) unowned =
    let (next, found) = sweep_one timeout now live w unowned in
    let (final, later) = sweep_unowned timeout now live ws next in (final, found ++ later)

module _ {D : Type 0} (rt : Runtime) (save : D → Snapshot → Option D) (cfg : Config) (now : ℕ) where
  open rt use {Host, status, suspend}

  abbrev pub Fleet : Type 0
  Fleet = Manager D Host

  -- Both loops under the manager's lock: who is to be suspended, and the new grace periods.
  unfoldable pub stale : Fleet → Table ℕ × List Text
  stale m =
      let (unowned, found) =
        sweep_unowned cfg.idle_timeout now m.live (list_workloads (codes "") m.store) m.unowned in
      (unowned, stale_live cfg.idle_timeout now m.live ++ found)

  -- The suspend of one workload, after which the activity of its project is noted.
  unfoldable pub put_to_sleep : Text → Fleet → Fleet
  put_to_sleep id m =
      let (done, host) = suspend id m.host in
      if done
      then (let m' = forget id (set_state save id suspended (record m { host = host })) in
          elim (get_workload id m'.store) [
            | none ↦ m'
            | some w ↦ note_project_activity save cfg now w.project_id true m'
          ])
      else record m { host = host }

  unfoldable pub reap_one : Text → Fleet → Fleet
  reap_one id m = if is_kept_warm (get_workload id m.store) then m else put_to_sleep id m

  unfoldable pub reap_all : List Text → Fleet → Fleet
  reap_all [] m = m
  reap_all (id ∷ ids) m = reap_all ids (reap_one id m)

  unfoldable pub reap_idle : Fleet → Fleet
  reap_idle m =
      if cfg.idle_timeout == 0
      then m
      else (let (unowned, ids) = stale m in reap_all ids (record m { unowned = unowned }))

  -- reconcileStates, given the references that RunningRefs listed; every lock is free.
  unfoldable pub reconcile_one : (Text → Bool) → Workload → Fleet → Fleet × ℕ
  reconcile_one listed w m =
      if is_running w.state || not (listed w.id) then (m, 0) else elim (get_workload w.id m.store) [
        | none ↦ (m, 0)
        | some cur ↦
            if not (is_running cur.state) && is_running (status m.host w.id)
            then (set_state save w.id running m, 1)
            else (m, 0)
      ]

  unfoldable pub reconcile_all : (Text → Bool) → List Workload → Fleet → Fleet × ℕ
  unfolding reconcile_one
  reconcile_all listed [] m = (m, 0)
  reconcile_all listed (w ∷ ws) m =
      let (next, fixed) = reconcile_one listed w m in
      let (final, more) = reconcile_all listed ws next in (final, fixed + more)

  unfoldable pub reconcile_states : (Text → Bool) → Fleet → Fleet × ℕ
  unfolding reconcile_all
  reconcile_states listed m = reconcile_all listed (list_workloads (codes "") m.store) m
