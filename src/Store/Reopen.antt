-- ===== src/Store/Reopen.antt =====
-- A store that is opened again (openWith of orchestrator/internal/store/store.go).
use orchd.Prelude.{
  Text, ◌≡◌, refl, Bool, true, false, Option, none, some, List, arith, Option-cases, inl, inr,
  if◌then◌else◌,
}
use orchd.Table.{lookup, lookup-fill-sort_by, lookup-fill-values}
use orchd.Store.Records.{Snapshot, Settings, State}
use orchd.Store.Mem.{
  MemStore, not_found, snapshot, restore, project_key, workload_key, route_key, region_key,
  apikey_key, image_key, project_before, workload_before, route_before, flush, put_project,
  put_workload, put_route, put_region, put_apikey, put_image, set_settings, set_workload_state,
  delete_project, delete_workload, delete_route, delete_region, delete_apikey, delete_image,
}
use orchd.Store.Ops.{
  Op, project, workload, route, region, apikey, image, settings, workload_state, drop_project,
  drop_workload, drop_route, drop_region, drop_apikey, drop_image, call, run,
}
use orchd.Store.Query.{get_route_by_key}
use orchd.Store.ByKey.{AreOfKey, get_route_by_key-AreOfKey}
use orchd.Store.Keyed.{IsWellKeyed, restore-IsWellKeyed, run-IsWellKeyed, call-IsWellKeyed}

-- What the persister's Load and json.Unmarshal give: an error, or the snapshot if there are bytes.
pub data Loaded : Type 0 where
  unreadable : Loaded
  loaded : Option Snapshot → Loaded

unfoldable pub open_with : {D : Type 0} → Settings → (D → Loaded) → D → Option (MemStore D)
open_with zero_settings load d = elim (load d) [
  | unreadable ↦ none
  | loaded found ↦ some (restore zero_settings d found)
]

-- Two stores that answer every Get by an id or a host alike, and every Get by a key with routes of
-- the second that have this key, or both with none.
pub record SameContents {D : Type 0} (s t : MemStore D) : Type 0 where
  pub projects : (k : Text) → lookup k s.projects ≡ lookup k t.projects
  pub workloads : (k : Text) → lookup k s.workloads ≡ lookup k t.workloads
  pub routes : (k : Text) → lookup k s.routes ≡ lookup k t.routes
  pub regions : (k : Text) → lookup k s.regions ≡ lookup k t.regions
  pub apikeys : (k : Text) → lookup k s.apikeys ≡ lookup k t.apikeys
  pub images : (k : Text) → lookup k s.images ≡ lookup k t.images
  pub settings : s.settings ≡ t.settings
  pub keyed : (k : Text) → AreOfKey t k (get_route_by_key k s) (get_route_by_key k t)

restore-snapshot :
    {D : Type 0} (zero_settings : Settings) (d : D) (s : MemStore D)
    → IsWellKeyed s
    → SameContents (restore zero_settings d (some (snapshot s))) s
unfolding restore snapshot
restore-snapshot zs d s h = record {
  projects = λ k. lookup-fill-sort_by project_key project_before k s.projects h.projects;
  workloads = λ k. lookup-fill-sort_by workload_key workload_before k s.workloads h.workloads;
  routes = λ k. lookup-fill-sort_by route_key route_before k s.routes h.routes;
  regions = λ k. lookup-fill-values region_key k s.regions h.regions;
  apikeys = λ k. lookup-fill-values apikey_key k s.apikeys h.apikeys;
  images = λ k. lookup-fill-values image_key k s.images h.images;
  settings = refl;
  keyed = λ k.
      get_route_by_key-AreOfKey (restore zs d (some (snapshot s))) s k
        (restore-IsWellKeyed zs d (some (snapshot s))).routes h.routes
        (λ j. lookup-fill-sort_by route_key route_before j s.routes h.routes);
}

module _ {D : Type 0} (save : D → Snapshot → Option D) (load : D → Loaded)
    (reads : (d : D) (snap : Snapshot) (d' : D)
      → save d snap ≡ some d'
      → load d' ≡ loaded (some snap)) where
  -- The disk holds what the memory holds.
  abbrev IsSaved : MemStore D → Type 0
  IsSaved s = load s.disk ≡ loaded (some (snapshot s))

  flush-IsSaved : (s : MemStore D) → (flush save s).1 ≡ none → IsSaved (flush save s).0
  unfolding flush snapshot
  flush-IsSaved s h = elim (Option-cases (save s.disk (snapshot s))) [
    | inl e ↦ absurd (ground arith)
    | inr (d, e) ↦ rw (e, flush) (reads s.disk (snapshot s) d e)
  ]

  checked-IsSaved :
      (b : Bool) (s t : MemStore D)
      → (if b then flush save t else (s, some not_found)).1 ≡ none
      → IsSaved (if b then flush save t else (s, some not_found)).0
  checked-IsSaved true s t h = flush-IsSaved t h
  checked-IsSaved false s t h = cc

  set_workload_state-IsSaved :
      (id : Text) (st : State) (s : MemStore D)
      → (set_workload_state save id st s).1 ≡ none
      → IsSaved (set_workload_state save id st s).0
  unfolding set_workload_state
  set_workload_state-IsSaved id st s h = elim (Option-cases (lookup id s.workloads)) [
    | inl e ↦ absurd (ground arith)
    | inr (w, e) ↦ rw (e, set_workload_state) (flush-IsSaved _ (rw (e, set_workload_state) at h))
  ]

  -- A method that returns no error has written what the memory then holds.
  pub call-IsSaved :
      (op : Op) (s : MemStore D) → (call save op s).1 ≡ none → IsSaved (call save op s).0
  unfolding call put_project put_workload put_route put_region put_apikey put_image set_settings
      delete_project delete_workload delete_route delete_region delete_apikey delete_image
  call-IsSaved (project p) s h = flush-IsSaved _ h
  call-IsSaved (workload_state id st) s h = set_workload_state-IsSaved id st s h
  call-IsSaved (workload w) s h = flush-IsSaved _ h
  call-IsSaved (route r) s h = flush-IsSaved _ h
  call-IsSaved (region r) s h = flush-IsSaved _ h
  call-IsSaved (apikey k) s h = flush-IsSaved _ h
  call-IsSaved (image im) s h = flush-IsSaved _ h
  call-IsSaved (settings st) s h = flush-IsSaved _ h
  call-IsSaved (drop_project id) s h = checked-IsSaved _ s _ h
  call-IsSaved (drop_workload id) s h = checked-IsSaved _ s _ h
  call-IsSaved (drop_route host) s h = checked-IsSaved _ s _ h
  call-IsSaved (drop_region id) s h = checked-IsSaved _ s _ h
  call-IsSaved (drop_apikey id) s h = checked-IsSaved _ s _ h
  call-IsSaved (drop_image t v) s h = checked-IsSaved _ s _ h

  -- With a persister that loads what it saved last: open a store, make any calls, failing or not,
  -- and one more that returns no error. Then opening the disk again succeeds, and gives a store that
  -- answers every Get by an id or a host, and of the settings, as the one in memory does. Asked for
  -- a key of routes, either both find none, or each finds a route that memory holds and that has
  -- this key.
  pub open_with-call :
      (zero_settings : Settings) (d : D) (found : Option Snapshot) (ops : List Op) (op : Op)
      → (call save op (run save ops (restore zero_settings d found))).1 ≡ none
      → (t : MemStore D) × (open_with zero_settings load
            (call save op (run save ops (restore zero_settings d found))).0.disk
          ≡ some t)
        × SameContents t (call save op (run save ops (restore zero_settings d found))).0
  unfolding open_with
  open_with-call zs d found ops op h =
      let before = run save ops (restore zs d found) in
      let s = (call save op before).0 in
      (
        restore zs s.disk (some (snapshot s)),
        rw (call-IsSaved op before h, open_with),
        restore-snapshot zs s.disk s (
            call-IsWellKeyed save op before
              (run-IsWellKeyed save ops (restore zs d found) (restore-IsWellKeyed zs d found))),
      )
