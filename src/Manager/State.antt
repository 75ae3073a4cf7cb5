-- ===== src/Manager/State.antt =====
-- The manager's state and the runtime driver that it calls: Manager of
-- orchestrator/internal/manager/manager.go and Runtime of
-- orchestrator/internal/runtime/runtime.go. A driver is any record `Runtime`; its Start and Create
-- take the workload, of which specFor makes the driver's Spec. Events and logs are left out.
use orchd.Prelude.{
  ℕ, ◌+◌, Text, codes, text_eq, Bool, true, false, ◌||◌, Option, none, some, ltb, leb,
  if◌then◌else◌, is_some,
}
use orchd.Table.{Table, lookup, insert, remove}
use orchd.Store.Records.{Snapshot, Workload, State, running}
use orchd.Store.Mem.{MemStore, put_project, set_workload_state}
use orchd.Store.Query.{get_project}

pub record Runtime : Type 1 where
  pub Host : Type 0
  pub status : Host → Text → State
  -- the address of the instance; `none` is an error
  pub start : Workload → Host → Option Text × Host
  pub create : Workload → Host → Option Text × Host
  -- whether it was suspended
  pub suspend : Text → Host → Bool × Host
  pub stop : Text → Host → Host

-- liveInstance
pub record LiveInstance : Type 0 where
  pub addr : Text
  pub last_seen : ℕ
  pub started_at : ℕ

pub record Config : Type 0 where
  pub idle_timeout : ℕ
  pub activity_coalesce : ℕ

pub record Manager (D H : Type 0) : Type 0 where
  pub store : MemStore D
  pub host : H
  pub live : Table LiveInstance
  pub unowned : Table ℕ
  pub activity_persist : Table ℕ

abbrev pub is_running : State → Bool
is_running running = true
is_running _ = false

-- What a missing entry of a map of times reads as: the zero time.
abbrev pub time_or_zero : Option ℕ → ℕ
time_or_zero none = 0
time_or_zero (some t) = t

-- Whether a workload was found and is always on.
abbrev pub is_kept_warm : Option Workload → Bool
is_kept_warm none = false
is_kept_warm (some w) = w.keep_warm

-- shouldPersistActivity
unfoldable pub should_persist_activity : ℕ → ℕ → ℕ → Bool → Bool
should_persist_activity last_persist now window force = force || leb (last_persist + window) now

module _ {D H : Type 0} where
  unfoldable pub is_live : Text → Manager D H → Bool
  is_live id m = is_some (lookup id m.live)

  unfoldable pub mark_live : Text → Text → ℕ → Manager D H → Manager D H
  mark_live id addr now m = record m {
    live = insert id (record { addr = addr; last_seen = now; started_at = now }) m.live;
    unowned = remove id m.unowned;
  }

  unfoldable pub forget : Text → Manager D H → Manager D H
  forget id m = record m { live = remove id m.live }

  unfoldable pub touch : Text → ℕ → Manager D H → Manager D H
  touch id now m = elim (lookup id m.live) [
    | none ↦ m
    | some li ↦ record m { live = insert id (record li { last_seen = now }) m.live }
  ]

module _ {D H : Type 0} (save : D → Snapshot → Option D) where
  -- `_ = m.store.SetWorkloadState(id, st)`: the error is dropped.
  unfoldable pub set_state : Text → State → Manager D H → Manager D H
  set_state id st m = record m { store = (set_workload_state save id st m.store).0 }

  -- SetProjectLastActive never moves the clock back; its error is dropped by the caller.
  unfoldable pub set_project_last_active : Text → ℕ → Manager D H → Manager D H
  set_project_last_active id t m = elim (get_project id m.store) [
    | none ↦ m
    | some p ↦
        if ltb p.last_active_at t
        then record m { store = (put_project save (record p { last_active_at = t }) m.store).0 }
        else m
  ]

  -- noteProjectActivity; the write that it starts in the background is taken at once.
  unfoldable pub note_project_activity : Config → ℕ → Text → Bool → Manager D H → Manager D H
  note_project_activity cfg now project_id force m =
      if text_eq project_id (codes "")
      then m
      else if should_persist_activity (time_or_zero (lookup project_id m.activity_persist)) now
          cfg.activity_coalesce force
      then set_project_last_active project_id now
          (record m { activity_persist = insert project_id now m.activity_persist })
      else m
