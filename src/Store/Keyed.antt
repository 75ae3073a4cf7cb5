-- ===== src/Store/Keyed.antt =====
-- Every record stands once in its map, under its own key: memStore of
-- orchestrator/internal/store/store.go.
use orchd.Prelude.{
  Text, text_eq, to_lower, to_lower_idem, refl, Bool, true, false, Option, none, some, List, [],
  ◌∷◌, if◌then◌else◌, is_some, Option-cases, Bool-cases, inl, inr,
}
use orchd.Table.{
  Table, lookup, remove, IsKeyed, insert-IsKeyed, remove-IsKeyed, remove_if-IsKeyed, fill-IsKeyed,
  key-lookup,
}
use orchd.Store.Records.{Snapshot, Workload, Settings, State, image_id}
use orchd.Store.Mem.{
  MemStore, not_found, project_key, workload_key, route_key, region_key, apikey_key, image_key,
  restore, flush, flush_state, next_disk, put_project, put_workload, put_route, put_region,
  put_apikey, put_image, set_settings, set_workload_state, delete_routes_for_workload, delete_owned,
  delete_workloads_of, delete_project, delete_workload, delete_route, delete_region, delete_apikey,
  delete_image,
}
use orchd.Store.Ops.{
  Op, project, workload, route, region, apikey, image, settings, workload_state, drop_project,
  drop_workload, drop_route, drop_region, drop_apikey, drop_image, call, run,
}

pub record IsWellKeyed {D : Type 0} (s : MemStore D) : Type 0 where
  pub projects : IsKeyed project_key s.projects
  pub workloads : IsKeyed workload_key s.workloads
  pub routes : IsKeyed route_key s.routes
  pub regions : IsKeyed region_key s.regions
  pub apikeys : IsKeyed apikey_key s.apikeys
  pub images : IsKeyed image_key s.images

pub restore-IsWellKeyed :
    {D : Type 0} (zero_settings : Settings) (d : D) (loaded : Option Snapshot)
    → IsWellKeyed (restore zero_settings d loaded)
unfolding restore
restore-IsWellKeyed zs d none = record {
  projects = tt;
  workloads = tt;
  routes = tt;
  regions = tt;
  apikeys = tt;
  images = tt;
}
restore-IsWellKeyed zs d (some snap) = record {
  projects = fill-IsKeyed project_key [] snap.projects tt;
  workloads = fill-IsKeyed workload_key [] snap.workloads tt;
  routes = fill-IsKeyed route_key [] snap.routes tt;
  regions = fill-IsKeyed region_key [] snap.regions tt;
  apikeys = fill-IsKeyed apikey_key [] snap.apikeys tt;
  images = fill-IsKeyed image_key [] snap.images tt;
}

-- A flush writes the disk and nothing else.
pub IsWellKeyed-disk :
    {D : Type 0} {s : MemStore D} (d : D) → IsWellKeyed s → IsWellKeyed (record s { disk = d })
IsWellKeyed-disk d h = assumption

module _ {D : Type 0} (save : D → Snapshot → Option D) where
  pub flush-IsWellKeyed : (s : MemStore D) → IsWellKeyed s → IsWellKeyed (flush save s).0
  flush-IsWellKeyed s h = rw (flush_state save s) (IsWellKeyed-disk (next_disk save s) h)

  delete_routes_for_workload-IsWellKeyed :
      (id : Text) (s : MemStore D)
      → IsWellKeyed s
      → IsWellKeyed (delete_routes_for_workload save id s)
  unfolding delete_routes_for_workload
  delete_routes_for_workload-IsWellKeyed id s h =
      assumption (remove_if-IsKeyed route_key (λ _ r. text_eq r.workload_id id) s.routes h.routes)

  remove_workload-IsWellKeyed :
      (id : Text) (s : MemStore D)
      → IsWellKeyed s
      → IsWellKeyed (record s { workloads = remove id s.workloads })
  remove_workload-IsWellKeyed id s h =
      assumption (remove-IsKeyed workload_key id s.workloads h.workloads)

  pub delete_owned-IsWellKeyed :
      (id wid : Text) (w : Workload) (s : MemStore D)
      → IsWellKeyed s
      → IsWellKeyed (delete_owned save id wid w s)
  unfolding delete_owned
  delete_owned-IsWellKeyed id wid w s h = elim (Bool-cases (text_eq w.project_id id)) [
    | inl e ↦
        rw (e, delete_owned)
          (delete_routes_for_workload-IsWellKeyed wid
            (record s { workloads = remove wid s.workloads }) (remove_workload-IsWellKeyed wid s h))
    | inr e ↦ rw (e, delete_owned) h
  ]

  pub delete_workloads_of-IsWellKeyed :
      (id : Text) (ws : Table Workload) (s : MemStore D)
      → IsWellKeyed s
      → IsWellKeyed (delete_workloads_of save id ws s)
  unfolding delete_workloads_of
  delete_workloads_of-IsWellKeyed id [] s h = h
  delete_workloads_of-IsWellKeyed id ((wid, w) ∷ ws) s h =
      delete_workloads_of-IsWellKeyed id ws (delete_owned save id wid w s)
        (delete_owned-IsWellKeyed id wid w s h)

  -- A method that refuses a missing record leaves the store alone.
  checked-IsWellKeyed :
      (b : Bool) (s t : MemStore D)
      → IsWellKeyed s
      → IsWellKeyed t
      → IsWellKeyed (if b then flush save t else (s, some not_found)).0
  checked-IsWellKeyed true s t h k = flush-IsWellKeyed t k
  checked-IsWellKeyed false s t h k = h

  set_workload_state-IsWellKeyed :
      (id : Text) (st : State) (s : MemStore D)
      → IsWellKeyed s
      → IsWellKeyed (set_workload_state save id st s).0
  unfolding set_workload_state workload_key
  set_workload_state-IsWellKeyed id st s h = elim (Option-cases (lookup id s.workloads)) [
    | inl e ↦ rw (e, set_workload_state) h
    | inr (w, e) ↦
        rw (e, set_workload_state)
          (flush-IsWellKeyed _ (
            assumption (
              insert-IsKeyed workload_key id (record w { state = st }) s.workloads
                (key-lookup workload_key id s.workloads h.workloads e) h.workloads)))
  ]

  -- Every method, failed or not, leaves a store in which each record stands under its own key.
  pub call-IsWellKeyed : (op : Op) (s : MemStore D) → IsWellKeyed s → IsWellKeyed (call save op s).0
  unfolding call put_project project_key put_workload workload_key put_route route_key put_region
      region_key put_apikey apikey_key put_image image_key set_settings delete_project
      delete_workload delete_route delete_region delete_apikey delete_image
  call-IsWellKeyed (project p) s h =
      flush-IsWellKeyed _
        (assumption (insert-IsKeyed project_key p.id p s.projects refl h.projects))
  call-IsWellKeyed (workload w) s h =
      flush-IsWellKeyed _
        (assumption (insert-IsKeyed workload_key w.id w s.workloads refl h.workloads))
  call-IsWellKeyed (route r) s h = flush-IsWellKeyed _ (
      assumption (
        insert-IsKeyed route_key (to_lower r.host) (record r { host = to_lower r.host }) s.routes
          (to_lower_idem r.host) h.routes))
  call-IsWellKeyed (region r) s h =
      flush-IsWellKeyed _ (assumption (insert-IsKeyed region_key r.id r s.regions refl h.regions))
  call-IsWellKeyed (apikey k) s h =
      flush-IsWellKeyed _ (assumption (insert-IsKeyed apikey_key k.id k s.apikeys refl h.apikeys))
  call-IsWellKeyed (image im) s h = flush-IsWellKeyed _ (
      assumption
        (insert-IsKeyed image_key (image_id im.template im.version) im s.images refl h.images))
  call-IsWellKeyed (settings st) s h = flush-IsWellKeyed _ (assumption h.projects)
  call-IsWellKeyed (workload_state id st) s h = set_workload_state-IsWellKeyed id st s h
  call-IsWellKeyed (drop_project id) s h =
      checked-IsWellKeyed (is_some (lookup id s.projects)) s _ h (
        delete_workloads_of-IsWellKeyed id s.workloads
          (record s { projects = remove id s.projects })
          (assumption (remove-IsKeyed project_key id s.projects h.projects)))
  call-IsWellKeyed (drop_workload id) s h =
      checked-IsWellKeyed (is_some (lookup id s.workloads)) s _ h (
        delete_routes_for_workload-IsWellKeyed id (record s { workloads = remove id s.workloads })
          (remove_workload-IsWellKeyed id s h))
  call-IsWellKeyed (drop_route host) s h =
      checked-IsWellKeyed _ s _ h
        (assumption (remove-IsKeyed route_key (to_lower host) s.routes h.routes))
  call-IsWellKeyed (drop_region id) s h =
      checked-IsWellKeyed _ s _ h (assumption (remove-IsKeyed region_key id s.regions h.regions))
  call-IsWellKeyed (drop_apikey id) s h =
      checked-IsWellKeyed _ s _ h (assumption (remove-IsKeyed apikey_key id s.apikeys h.apikeys))
  call-IsWellKeyed (drop_image t v) s h =
      checked-IsWellKeyed _ s _ h
        (assumption (remove-IsKeyed image_key (image_id t v) s.images h.images))

  -- In a store in which each record stands once in its map, under its own key, that is so after
  -- any sequence of calls, failed ones included.
  pub run-IsWellKeyed :
      (ops : List Op) (s : MemStore D) → IsWellKeyed s → IsWellKeyed (run save ops s)
  unfolding run
  run-IsWellKeyed [] s h = h
  run-IsWellKeyed (op ∷ ops) s h = run-IsWellKeyed ops (call save op s).0 (call-IsWellKeyed op s h)
