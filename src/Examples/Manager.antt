-- ===== src/Examples/Manager.antt =====
-- The manager over a driver that keeps the states of its instances in a table.
use orchd.Prelude.{
  Text, codes, text_eq, Bool, ◌≡◌, refl, true, false, Option, none, some, List, [], ◌∷◌, arith, inr,
  length, All, ◌≤◌, take, map,
}
use orchd.Prelude.Lists.{reverse}
use orchd.Prelude.Sorting.{sort_by}
use orchd.Prelude.Int.{pos}
use orchd.Table.{Table, lookup, insert, lookup-insert, lookup-insert_self}
use orchd.Store.Records.{Workload, State, running, suspended, stopped}
use orchd.Store.Mem.{MemStore, set_workload_state, restore, put_workload, put_project, flush}
use orchd.Store.Query.{get_workload}
use orchd.Store.Ops.{Op, project, workload, call, run}
use orchd.Store.Keyed.{IsWellKeyed, restore-IsWellKeyed, run-IsWellKeyed}
use orchd.Manager.State.{Runtime, Manager, Config, LiveInstance, is_running, set_state}
use orchd.Manager.Lifecycle.{
  ok, err, not_running, start_failed, stop_workload, wake, ensure_running, running_addr,
}
use orchd.Manager.Reaper.{seen_at, reap_idle}
use orchd.Manager.Wake.{ensure_running-running_addr, ensure_running-err, stop_workload-running_addr}
use orchd.Manager.Reap.{Same, reap_idle-spares}
use orchd.Manager.Sleep.{IsAsleep, reap_idle-IsAsleep}
use orchd.Manager.Eviction.{Candidate, walk, is_skipped, fresher, select_lru_evictions}
use orchd.Manager.Lru.{
  IsVictimId, evictable, select_lru_evictions-IsVictimId, select_lru_evictions_lem,
}
use mathlib.Core.List.{Memᴰ}
use orchd.Store.Cascade.{IsCascaded}
use orchd.Store.Ops.{settings}
use orchd.Store.Query.{get_project, list_projects, list_workloads}
use orchd.Table.{values}
use orchd.Store.Mem.{set_settings, project_before}
use orchd.Manager.State.{is_live}
use orchd.Manager.Reaper.{reconcile_states}
use orchd.Manager.Adopt.{IsAdopted, reconcile_states-IsAdopted}
use orchd.Manager.Eviction.{lru_victims}
use orchd.Manager.Routes.{delete_project}
use orchd.Manager.Victims.{delete_project-forgets}
use orchd.Examples.Store.{blog, Disk, keep_last, no_settings, shop, workload_of}

abbrev status_or_stopped : Option State → State
status_or_stopped none = stopped
status_or_stopped (some st) = st

abbrev pub driver : Runtime
driver = record {
  Host = Table State;
  status = λ h id. status_or_stopped (lookup id h);
  start = λ w h. (some (codes "10.0.0.2:80"), insert w.id running h);
  create = λ w h. (some (codes "10.0.0.2:80"), insert w.id running h);
  suspend = λ id h. (true, insert id suspended h);
  stop = λ id h. insert id stopped h;
}

pub driver-starts :
    (w : Workload) (h : Table State) (a : Text)
    → some (codes "10.0.0.2:80") ≡ some a
    → is_running (status_or_stopped (lookup w.id (insert w.id running h))) ≡ true
driver-starts w h a e = rw (lookup-insert_self w.id running h) refl

driver-suspends_one :
    (i j : Text) (h : Table State)
    → text_eq i j ≡ false
    → status_or_stopped (lookup j (insert i suspended h)) ≡ status_or_stopped (lookup j h)
driver-suspends_one i j h n = rw (lookup-insert i j suspended h, n) refl

abbrev pub fleet_calls : List Op
fleet_calls = project shop ∷ workload (workload_of (codes "w1") (codes "p1")) ∷ []

abbrev pub fleet_store : MemStore Disk
fleet_store = run keep_last fleet_calls (restore no_settings none none)

pub fleet_store-IsWellKeyed : IsWellKeyed fleet_store
fleet_store-IsWellKeyed =
    run-IsWellKeyed keep_last fleet_calls (restore no_settings none none)
      (restore-IsWellKeyed no_settings none none)

-- One workload that is down.
abbrev pub down : Manager Disk (Table State)
down = record { store = fleet_store; host = []; live = []; unowned = []; activity_persist = [] }

abbrev last_used : LiveInstance
last_used = record { addr = codes "10.0.0.2:80"; last_seen = 100; started_at = 90 }

-- The workload is up, and was used at 100.
abbrev pub up : Manager Disk (Table State)
up = record down { host = (codes "w1", running) ∷ []; live = (codes "w1", last_used) ∷ [] }

abbrev pub config : Config
config = record { idle_timeout = 600; activity_coalesce = 60 }

ensure_running-running_addr_example :
    (running_addr driver keep_last config 200
        (codes "w1")
        (ensure_running driver keep_last config 200 (codes "w1") down).1
      ≡ ok (codes "10.0.0.2:80"))
    × (seen_at (
          lookup (codes "w1") (ensure_running driver keep_last config 200 (codes "w1") down).1.live)
        ≡ some 200)
unfolding ensure_running wake get_workload lookup insert restore call run put_workload flush
    put_project text_eq
ensure_running-running_addr_example =
    ensure_running-running_addr driver keep_last config 200 driver-starts (codes "w1")
      (codes "10.0.0.2:80") down fleet_store-IsWellKeyed refl

-- A driver that starts nothing.
abbrev broken : Runtime
broken = record driver { start = λ w h. (none, h) }

ensure_running-err_example :
    (h : Table State) × ((ensure_running broken keep_last config 200 (codes "w1") down).1
      ≡ record down { host = h })
unfolding ensure_running wake get_workload lookup insert restore call run put_workload flush
    put_project text_eq
ensure_running-err_example =
    ensure_running-err broken keep_last config 200 (codes "w1") start_failed down refl

reap_idle-spares_example :
    Same driver keep_last config 650 (codes "w1") up (reap_idle driver keep_last config 650 up)
unfolding lookup text_eq
reap_idle-spares_example =
    reap_idle-spares driver keep_last config 650 driver-suspends_one (codes "w1") up
      (inr (last_used, refl, omega arith))

reap_idle-IsAsleep_example :
    IsAsleep driver keep_last config 800 (codes "w1") (reap_idle driver keep_last config 800 up)
unfolding get_workload lookup insert restore call run put_workload flush put_project text_eq
reap_idle-IsAsleep_example =
    reap_idle-IsAsleep driver keep_last config 800 driver-suspends_one (codes "w1") (λ h. refl) up
      (workload_of (codes "w1") (codes "p1")) last_used (omega arith) refl refl refl (omega arith)

-- Four projects: one of them is protected, one was active just now.
abbrev four : List Candidate
four =
    record { id = codes "a"; last_active = 10; protected = true }
    ∷ record { id = codes "b"; last_active = 990; protected = false }
    ∷ record { id = codes "c"; last_active = 30; protected = false }
    ∷ record { id = codes "d"; last_active = 20; protected = false }
    ∷ []

select_lru_evictions-IsVictimId_example :
    All (IsVictimId 1 100 1000 four) (select_lru_evictions four (pos 1) (pos 1) 100 1000)
    × (length (select_lru_evictions four (pos 1) (pos 1) 100 1000) ≤ 1)
select_lru_evictions-IsVictimId_example =
    select_lru_evictions-IsVictimId four (pos 1) (pos 1) 100 1000

select_lru_evictions_lem_example :
    select_lru_evictions four (pos 1) (pos 1) 100 1000
    ≡ take 1 (map (λ c. c.id) (evictable 1 100 1000 four))
select_lru_evictions_lem_example =
    select_lru_evictions_lem four (pos 1) (pos 1) 100 1000 (omega arith)

-- The oldest that may go is "d".
oldest_goes : select_lru_evictions four (pos 1) (pos 1) 100 1000 ≡ codes "d" ∷ []
unfolding select_lru_evictions walk is_skipped fresher reverse sort_by
oldest_goes = refl

-- A driver that lists "w1" and runs it, while the store calls it suspended.
abbrev found_running : Manager Disk (Table State)
found_running = record up {
  store =
      run keep_last
        (project shop
          ∷ workload (record (workload_of (codes "w1") (codes "p1")) { state = suspended })
          ∷ [])
        (restore no_settings none none);
}

abbrev listed_w1 : Text → Bool
listed_w1 id = text_eq id (codes "w1")

reconcile_states-IsAdopted_example :
    IsAdopted driver keep_last config 200 listed_w1
      (codes "w1")
      found_running
      (reconcile_states driver keep_last config 200 listed_w1 found_running).0
reconcile_states-IsAdopted_example =
    reconcile_states-IsAdopted driver keep_last config 200 listed_w1 (codes "w1") found_running

-- It is adopted.
found_adopted :
    get_workload
      (codes "w1")
      (reconcile_states driver keep_last config 200 listed_w1 found_running).0.store
    ≡ some (workload_of (codes "w1") (codes "p1"))
unfolding reconcile_states get_workload lookup list_workloads sort_by values run call put_workload
    flush insert put_project restore text_eq set_state set_workload_state
found_adopted = refl

stop_workload-running_addr_example :
    (running_addr driver keep_last config 200
        (codes "w1")
        (stop_workload driver keep_last config 200 (codes "w1") up).1
      ≡ err not_running)
    × ((w : Workload) × (get_workload (codes "w1") up.store ≡ some w)
        × (get_workload
              (codes "w1")
              (stop_workload driver keep_last config 200 (codes "w1") up).1.store
            ≡ some (record w { state = suspended })))
unfolding stop_workload get_workload lookup insert restore call run put_workload flush put_project
    text_eq
stop_workload-running_addr_example =
    stop_workload-running_addr driver keep_last config 200 (codes "w1") up refl

-- Two projects without workloads, of which one is to stay.
abbrev pub two_projects : MemStore Disk
two_projects =
    run keep_last
      (project shop ∷ project blog ∷ settings (record no_settings { lru_keep_max = pos 1 }) ∷ [])
      (restore no_settings none none)

-- The older of the two goes.
pub two_projects-IsWellKeyed : IsWellKeyed two_projects
two_projects-IsWellKeyed =
    run-IsWellKeyed keep_last
      (project shop ∷ project blog ∷ settings (record no_settings { lru_keep_max = pos 1 }) ∷ [])
      (restore no_settings none none) (restore-IsWellKeyed no_settings none none)

older_goes : lru_victims (pos 5) 100 1000 two_projects ≡ codes "p2" ∷ []
unfolding lru_victims run call set_settings flush list_projects sort_by values put_project insert
    restore text_eq project_before reverse fresher is_skipped list_workloads
older_goes = refl

delete_project-forgets_example :
    ((w : Workload)
      → Memᴰ w (list_workloads (codes "p1") up.store)
      → is_live w.id (delete_project driver keep_last (codes "p1") up).0 ≡ false)
    × IsCascaded (codes "p1") up.store (delete_project driver keep_last (codes "p1") up).0.store
unfolding get_project lookup insert restore call run put_workload flush put_project text_eq
delete_project-forgets_example =
    delete_project-forgets driver keep_last (codes "p1") up fleet_store-IsWellKeyed refl
