-- ===== src/Manager/Frames.antt =====
-- What the notes of activity and of states leave alone
-- (orchestrator/internal/manager/manager.go).
use orchd.Prelude.{
  ℕ, ◌≡◌, refl, Text, false, text_eq, text_eq_refl, codes, Bool, Option, some, if◌then◌else◌, ltb,
  Bool-cases, Option-cases, inl, inr,
}
use orchd.Table.{Table, lookup, lookup-insert}
use orchd.Store.Records.{Snapshot, Workload, State}
use orchd.Store.Mem.{put_project, set_workload_state, flush_state}
use orchd.Store.Query.{get_workload, get_project}
use orchd.Manager.State.{
  Manager, Config, set_state, set_project_last_active, note_project_activity, time_or_zero,
  should_persist_activity,
}

module _ {D H : Type 0} (save : D → Snapshot → Option D) where
  -- The parts of the manager that serve the calls, without its store and its clock of writes.
  pub record SameService (m m' : Manager D H) : Type 0 where
    pub host : m'.host ≡ m.host
    pub live : m'.live ≡ m.live
    pub unowned : m'.unowned ≡ m.unowned
    pub workload : (id : Text) → get_workload id m'.store ≡ get_workload id m.store

  unchanged : {m : Manager D H} → SameService m m
  unchanged = record { host = refl; live = refl; unowned = refl; workload = λ id. refl }

  past_clock :
      {m m' : Manager D H} (t : Table ℕ)
      → SameService (record m { activity_persist = t }) m'
      → SameService m m'
  past_clock t h = record {
    host = h.host;
    live = h.live;
    unowned = h.unowned;
    workload = h.workload;
  }

  set_project_last_active-SameService :
      (p : Text) (t : ℕ) (m : Manager D H) → SameService m (set_project_last_active save p t m)
  unfolding set_project_last_active put_project get_workload
  set_project_last_active-SameService p t m = elim (Option-cases (get_project p m.store)) [
    | inl e ↦ rw (e, set_project_last_active) unchanged
    | inr (q, e) ↦ elim (Bool-cases (ltb q.last_active_at t)) [
      | inl f ↦
          rw (e, set_project_last_active, f)
            record {
              host = refl;
              live = refl;
              unowned = refl;
              workload = λ id. rw flush_state refl;
            }
      | inr f ↦ rw (e, set_project_last_active, f) unchanged
    ]
  ]

  pub note_project_activity-SameService :
      (cfg : Config) (now : ℕ) (p : Text) (force : Bool) (m : Manager D H)
      → SameService m (note_project_activity save cfg now p force m)
  unfolding note_project_activity
  note_project_activity-SameService cfg now p force m = elim (Bool-cases (text_eq p (codes ""))) [
    | inl e ↦ rw (e) unchanged
    | inr e ↦
        elim (Bool-cases (
          should_persist_activity (time_or_zero (lookup p m.activity_persist)) now
            cfg.activity_coalesce force)) [
              | inl f ↦ rw (e, f) (past_clock _ (set_project_last_active-SameService p now _))
              | inr f ↦ rw (e, f) unchanged
            ]
  ]

  pub get_workload-set_state :
      (id j : Text) (st : State) (m : Manager D H) {w : Workload}
      → get_workload id m.store ≡ some w
      → get_workload j (set_state save id st m).store
        ≡ (if text_eq id j then some (record w { state = st }) else get_workload j m.store)
  unfolding set_state set_workload_state get_workload
  get_workload-set_state id j st m {w} e =
      rw (e, set_workload_state, flush_state, lookup-insert) refl

  pub get_workload-set_state_self :
      (id : Text) (st : State) (m : Manager D H) {w : Workload}
      → get_workload id m.store ≡ some w
      → get_workload id (set_state save id st m).store ≡ some (record w { state = st })
  get_workload-set_state_self id st m e =
      rw (get_workload-set_state id id st m e, text_eq_refl id) refl

  pub get_workload-set_state_ne :
      (id j : Text) (st : State) (m : Manager D H)
      → text_eq id j ≡ false
      → get_workload j (set_state save id st m).store ≡ get_workload j m.store
  unfolding set_state set_workload_state get_workload
  get_workload-set_state_ne id j st m n = elim (Option-cases (lookup id m.store.workloads)) [
    | inl e ↦ rw (e, set_workload_state) refl
    | inr (w, e) ↦ rw (e, set_workload_state, flush_state, lookup-insert, n) refl
  ]
