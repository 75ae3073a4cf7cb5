-- ===== src/Manager/Lifecycle.antt =====
-- Waking, stopping and restarting one workload
-- (orchestrator/internal/manager/manager.go). Each method holds the workload's lock from its
-- first runtime call to its last write, so it is one step.
use orchd.Prelude.{
  ℕ, Text, Bool, true, false, Option, none, some, List, [], ◌∷◌, if◌then◌else◌, or_else,
}
use orchd.Table.{lookup}
use orchd.Store.Records.{Snapshot, Workload, running, suspended, failed}
use orchd.Store.Mem.{put_workload}
use orchd.Store.Query.{get_project, get_workload, list_workloads}
use orchd.Manager.State.{
  Runtime, Manager, Config, is_running, mark_live, forget, touch, set_state, note_project_activity,
}

pub data Error : Type 0 where
  not_found not_running start_failed suspend_failed save_failed : Error

pub data Result (A : Type 0) : Type 0 where
  ok : A → Result A
  err : Error → Result A

module _ {D : Type 0} (rt : Runtime) (save : D → Snapshot → Option D) (cfg : Config) (now : ℕ) where
  open rt use {Host, status, start, create, suspend, stop}

  abbrev pub Fleet : Type 0
  Fleet = Manager D Host

  -- The end of a boot that gave an address.
  unfoldable pub came_up : Text → Text → Fleet → Fleet
  came_up id addr m = mark_live id addr now (set_state save id running m)

  -- EnsureRunning's way past the live map: Start, and its outcome.
  unfoldable pub wake : Workload → Fleet → Result Text × Fleet
  unfolding came_up
  wake w m =
      let (addr, host) = start w m.host in
      elim addr [
        | none ↦ (err start_failed, record m { host = host })
        | some a ↦ (
          ok a,
          note_project_activity save cfg now w.project_id true
              (came_up w.id a (record m { host = host })),
        )
      ]

  unfoldable pub ensure_running : Text → Fleet → Result Text × Fleet
  ensure_running id m = elim (get_workload id m.store) [
    | none ↦ (err not_found, m)
    | some w ↦ elim (lookup id m.live) [
      | none ↦ wake w m
      | some li ↦
          if is_running (status m.host id)
          then (ok li.addr, note_project_activity save cfg now w.project_id false (touch id now m))
          else wake w m
    ]
  ]

  -- RunningAddr, when the workload's lock is free
  unfoldable pub running_addr : Text → Fleet → Result Text
  running_addr id m = elim (get_workload id m.store) [
    | none ↦ err not_found
    | some w ↦ elim (lookup id m.live) [
      | none ↦ err not_running
      | some li ↦ if is_running (status m.host id) then ok li.addr else err not_running
    ]
  ]

  unfoldable pub start_workload : Text → Fleet → Option Error × Fleet
  unfolding came_up
  start_workload id m = elim (get_workload id m.store) [
    | none ↦ (some not_found, m)
    | some w ↦
        if is_running (status m.host id)
        then (none, m)
        else (let (addr, host) = start w m.host in
            elim addr [
              | none ↦ (some start_failed, set_state save id failed (record m { host = host }))
              | some a ↦ (none, came_up id a (record m { host = host }))
            ])
  ]

  unfoldable pub stop_workload : Text → Fleet → Option Error × Fleet
  stop_workload id m = elim (get_workload id m.store) [
    | none ↦ (some not_found, m)
    | some w ↦
        let (done, host) = suspend id m.host in
        if done
        then (none, forget id (set_state save id suspended (record m { host = host })))
        else (some suspend_failed, record m { host = host })
  ]

  -- rebootWorkload: a running instance is suspended before it is removed.
  unfoldable pub shut_down : Text → Host → Host
  shut_down id host = stop id (if is_running (status host id) then (suspend id host).1 else host)

  unfoldable pub boot : Workload → Fleet → Option Error × Fleet
  unfolding came_up
  boot w m =
      let (addr, host) = create w m.host in
      elim addr [
        | none ↦ (some start_failed, set_state save w.id failed (record m { host = host }))
        | some a ↦ (none, came_up w.id a (record m { host = host }))
      ]

  unfoldable pub reboot_workload : Workload → Fleet → Option Error × Fleet
  unfolding shut_down boot
  reboot_workload w m = boot w (forget w.id (record m { host = shut_down w.id m.host }))

  unfoldable pub restart_workload : Text → Fleet → Option Error × Fleet
  unfolding reboot_workload
  restart_workload id m = elim (get_workload id m.store) [
    | none ↦ (some not_found, m)
    | some w ↦ reboot_workload w m
  ]

  -- provision: nothing is done for a workload that was deleted before.
  unfoldable pub provision : Text → Fleet → Fleet
  unfolding boot
  provision id m = elim (get_workload id m.store) [ none ↦ m | some w ↦ (boot w m).1 ]

  -- forEachWorkload: every workload is tried, and the first error is returned.
  unfoldable pub for_each :
      (Text → Fleet → Option Error × Fleet) → List Workload → Fleet → Option Error × Fleet
  for_each f [] m = (none, m)
  for_each f (w ∷ ws) m =
      let (first, next) = f w.id m in
      let (later, final) = for_each f ws next in (or_else first later, final)

  unfoldable pub for_each_workload :
      (Text → Fleet → Option Error × Fleet) → Text → Fleet → Option Error × Fleet
  for_each_workload f project_id m = elim (get_project project_id m.store) [
    | none ↦ (some not_found, m)
    | some p ↦ for_each f (list_workloads project_id m.store) m
  ]

  unfoldable pub start_project : Text → Fleet → Option Error × Fleet
  start_project = for_each_workload start_workload

  unfoldable pub stop_project : Text → Fleet → Option Error × Fleet
  stop_project = for_each_workload stop_workload

  unfoldable pub restart_project : Text → Fleet → Option Error × Fleet
  restart_project = for_each_workload restart_workload

  -- SetKeepWarm: the flag is stored first, and enabling boots the workload.
  unfoldable pub set_keep_warm : Text → Bool → Fleet → Option Error × Fleet
  set_keep_warm id enabled m = elim (get_workload id m.store) [
    | none ↦ (some not_found, m)
    | some w ↦
        let (store, failure) = put_workload save (record w { keep_warm = enabled }) m.store in
        let m' = record m { store = store } in
        elim failure [
          | some e ↦ (some save_failed, m')
          | none ↦
              if enabled
              then (let (result, woken) = ensure_running id m' in
                  (elim result [ ok a ↦ none | err e ↦ some e ], woken))
              else (none, m')
        ]
  ]

  -- WakeKeepWarm's loop
  unfoldable pub wake_all : List Workload → Fleet → Fleet
  wake_all [] m = m
  wake_all (w ∷ ws) m = wake_all ws (if w.keep_warm then (ensure_running w.id m).1 else m)
