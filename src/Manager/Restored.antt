-- ===== src/Manager/Restored.antt =====
-- What a reset or a restore that went through leaves (orchestrator/internal/manager/manager.go).
use orchd.Prelude.{
  ℕ, ◌≡◌, sym, ap, ◌∙◌, subst, Text, Bool, true, false, Option, none, some, is_some, Bool-cases,
  Option-cases, inl, inr, false≢true,
}
use orchd.Table.{key-lookup}
use orchd.Store.Records.{Snapshot, Workload}
use orchd.Store.Mem.{workload_key}
use orchd.Store.Query.{get_workload}
use orchd.Store.Keyed.{IsWellKeyed}
use orchd.Manager.State.{Runtime, Config, is_running, forget}
use orchd.Manager.Lifecycle.{ok, running_addr}
use orchd.Manager.Wake.{came_up-IsUp, running_addr-IsUp}
use orchd.Manager.Vault.{Vault, BackupConfig, Site}
use orchd.Manager.Reset.{Tree, ResetError, cleared, started, unpack_and_start, restore_workload}

module _ {D : Type 0} (rt : Runtime) (v : Vault) (tree : Tree v.Files)
    (save : D → Snapshot → Option D) (config : Config) (cfg : BackupConfig) (now : ℕ)
    (starts : (w : Workload) (h : rt.Host) (a : Text)
      → (rt.start w h).0 ≡ some a
      → is_running (rt.status (rt.start w h).1 w.id) ≡ true) where
  abbrev IsAnswering : Text → Site D rt.Host v.Files → Type 0
  IsAnswering id s = (a : Text) × (running_addr rt save config now id s.fleet ≡ ok a)

  abbrev IfNone :
      (Site D rt.Host v.Files → Type 0) → Option ResetError × Site D rt.Host v.Files → Type 0
  IfNone P r = r.0 ≡ none → P r.1

  not_none : {B : Type 0} {e : ResetError} → some e ≡ none → B
  not_none h = absurd (false≢true (sym (ap is_some h)))

  started-IsAnswering :
      (w : Workload) (s : Site D rt.Host v.Files)
      → get_workload w.id s.fleet.store ≡ some w
      → IfNone (IsAnswering w.id) (started rt v tree save config cfg now w s)
  unfolding started
  started-IsAnswering w s g = elim (Option-cases (rt.start w s.fleet.host).0) [
    | inl e ↦ rw (started, e) not_none
    | inr (a, e) ↦
        rw (started, e)
          (λ h. (
            a,
            running_addr-IsUp rt save config now w.id a _ (
                came_up-IsUp rt save config now w.id a
                  (record s.fleet { host = (rt.start w s.fleet.host).1 }) w g
                  (starts w s.fleet.host a e)),
          ))
  ]

  unpack_and_start-IsAnswering :
      (refresh : Bool) (backup_id : Text) (w : Workload) (r : Bool × Site D rt.Host v.Files)
      → get_workload w.id r.1.fleet.store ≡ some w
      → IfNone
          (IsAnswering w.id)
          (unpack_and_start rt v tree save config cfg now refresh backup_id w r)
  unfolding unpack_and_start
  unpack_and_start-IsAnswering refresh backup_id w (false, s) g = not_none
  unpack_and_start-IsAnswering refresh backup_id w (true, s) g =
      elim (Bool-cases (tree.unpack backup_id w s.files).0) [
        | inr e ↦ rw (unpack_and_start, e) not_none
        | inl e ↦ rw (unpack_and_start, e) (started-IsAnswering w (record s { files = _ }) g)
      ]

  restore_found :
      (refresh : Bool) (id backup_id : Text) (w : Workload) (s : Site D rt.Host v.Files)
      → get_workload id s.fleet.store ≡ some w
      → w.id ≡ id
      → IfNone (IsAnswering id) (
          unpack_and_start rt v tree save config cfg now refresh backup_id w
            (cleared rt v tree save config cfg now w s))
  unfolding cleared forget
  restore_found refresh id backup_id w s g own =
      subst
        (λ i. IfNone (IsAnswering i) (
          unpack_and_start rt v tree save config cfg now refresh backup_id w
            (cleared rt v tree save config cfg now w s)))
        own
        (unpack_and_start-IsAnswering refresh backup_id w
          (cleared rt v tree save config cfg now w s)
          (ap (λ i. get_workload i s.fleet.store) own ∙ g))

  -- With a driver whose Start gives an address only for an instance that then runs, and with each
  -- record of the store under its own key: after a restore that returns no error, RunningAddr
  -- gives an address of the workload.
  pub restore_workload-running_addr :
      (refresh : Bool) (id backup_id : Text) (s : Site D rt.Host v.Files)
      → IsWellKeyed s.fleet.store
      → (restore_workload rt v tree save config cfg now refresh id backup_id s).0 ≡ none
      → (a : Text) × (running_addr rt save config now id
            (restore_workload rt v tree save config cfg now refresh id backup_id s).1.fleet
          ≡ ok a)
  unfolding restore_workload get_workload workload_key
  restore_workload-running_addr refresh id backup_id s k = elim (Bool-cases cfg.enabled) [
    | inr e ↦ rw (restore_workload, e) not_none
    | inl e ↦ elim (Option-cases (get_workload id s.fleet.store)) [
      | inl g ↦ rw (restore_workload, e, g) not_none
      | inr (w, g) ↦
          rw (restore_workload, e, g)
            (restore_found refresh id backup_id w s g
              (key-lookup workload_key id s.fleet.store.workloads k.workloads g))
    ]
  ]
