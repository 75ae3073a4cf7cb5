-- ===== src/Manager/Routes.antt =====
-- The route table as the manager keeps and reads it, and the deletion of projects and workloads
-- (orchestrator/internal/manager/manager.go). Directories, volumes, backups and events are left
-- out.
use orchd.Prelude.{
  ℕ, Text, codes, text_eq, to_lower, trim_space, Bool, false, not, Option, none, some, List, [],
  ◌∷◌, if◌then◌else◌, is_some,
}
use orchd.Store.Records.{Snapshot, Route, Workload}
use orchd.Store.Mem
use orchd.Store.Mem.{MemStore, put_route}
use orchd.Store.Query.{
  get_project, get_workload, get_route_by_host, get_route_by_key, list_workloads,
}
use orchd.Manager.State.{Runtime, Manager, forget}

pub data RouteError : Type 0 where
  host_required no_workload no_route taken save_failed : RouteError

-- Whether a route was found that leads to another workload.
abbrev pub is_taken : Text → Option Route → Bool
is_taken id none = false
is_taken id (some r) = not (text_eq r.workload_id id)

module _ {D : Type 0} where
  unfoldable pub workload_of_route : Option Route → MemStore D → Option Workload
  workload_of_route none s = none
  workload_of_route (some r) s = get_workload r.workload_id s

  -- ResolveHost; `none` is an error
  unfoldable pub resolve_host : Text → MemStore D → Option Workload
  unfolding workload_of_route
  resolve_host host s = workload_of_route (get_route_by_host host s) s

  unfoldable pub resolve_key : Text → MemStore D → Option Workload
  unfolding workload_of_route
  resolve_key key s = workload_of_route (get_route_by_key key s) s

module _ {D : Type 0} (save : D → Snapshot → Option D) where
  abbrev route_error : Option Mem.Error → Option RouteError
  route_error none = none
  route_error (some e) = some save_failed

  -- AddRoute at the time `now`
  unfoldable pub add_route : ℕ → Text → Text → MemStore D → MemStore D × Option RouteError
  add_route now given id s =
      let host = to_lower (trim_space given) in
      if text_eq host (codes "")
      then (s, some host_required)
      else if not (is_some (get_workload id s))
      then (s, some no_workload)
      else if is_taken id (get_route_by_host host s)
      then (s, some taken)
      else (let (s', failure) =
            put_route save (record { host = host; key = host; workload_id = id; created_at = now })
              s in
          (s', route_error failure))

  -- RemoveRoute
  unfoldable pub remove_route : Text → MemStore D → MemStore D × Option RouteError
  remove_route given s =
      let host = to_lower (trim_space given) in
      elim (get_route_by_host host s) [
        | none ↦ (s, some no_route)
        | some r ↦ (let (s', failure) = Mem.delete_route save host s in (s', route_error failure))
      ]

module _ {D : Type 0} (rt : Runtime) (save : D → Snapshot → Option D) where
  open rt use {Host, stop}

  -- DeleteProject's loop: each workload is stopped and forgotten.
  unfoldable pub stop_all : List Workload → Manager D Host → Manager D Host
  stop_all [] m = m
  stop_all (w ∷ ws) m = stop_all ws (forget w.id (record m { host = stop w.id m.host }))

  unfoldable pub delete_project : Text → Manager D Host → Manager D Host × Option Mem.Error
  unfolding stop_all
  delete_project id m =
      if is_some (get_project id m.store)
      then (let m' = stop_all (list_workloads id m.store) m in
          let (store, failure) = Mem.delete_project save id m'.store in
          (record m' { store = store }, failure))
      else (m, some Mem.not_found)

  unfoldable pub delete_workload : Text → Manager D Host → Manager D Host × Option Mem.Error
  delete_workload id m =
      if is_some (get_workload id m.store)
      then (let (store, failure) = Mem.delete_workload save id m.store in
          (forget id (record m { host = stop id m.host; store = store }), failure))
      else (m, some Mem.not_found)
