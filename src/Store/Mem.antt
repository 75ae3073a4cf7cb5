-- ===== src/Store/Mem.antt =====
-- memStore of orchestrator/internal/store/store.go: the state, and each method that changes it.
-- A method that takes the lock is one step. `save` stands for json.MarshalIndent and the
-- persister's Save: the new content of the disk, or `none` for an error.
use orchd.Prelude.{
  ◌≡◌, arith, Text, text_eq, text_ltb, to_lower, ltb, Bool, Option, none, some, [], ◌∷◌,
  if◌then◌else◌, is_some,
}
use orchd.Prelude.Sorting.{sort_by}
use orchd.Table.{Table, lookup, insert, remove, remove_if, values, fill}
use orchd.Store.Records.{
  ApiKey, Image, Region, Project, Workload, Settings, Route, Snapshot, State, image_id,
}

pub data Error : Type 0 where
  not_found save_failed : Error

pub record MemStore (D : Type 0) : Type 0 where
  pub disk : D
  pub projects : Table Project
  pub workloads : Table Workload
  pub routes : Table Route
  pub regions : Table Region
  pub apikeys : Table ApiKey
  pub images : Table Image
  pub settings : Settings

-- The key of a record in its map.
unfoldable pub project_key : Project → Text
project_key p = p.id

unfoldable pub workload_key : Workload → Text
workload_key w = w.id

unfoldable pub route_key : Route → Text
route_key r = to_lower r.host

unfoldable pub region_key : Region → Text
region_key r = r.id

unfoldable pub apikey_key : ApiKey → Text
apikey_key k = k.id

unfoldable pub image_key : Image → Text
image_key im = image_id im.template im.version

-- The orders of the sorts.
unfoldable pub project_before : Project → Project → Bool
project_before a b = ltb a.created_at b.created_at

unfoldable pub workload_before : Workload → Workload → Bool
workload_before a b = ltb a.created_at b.created_at

unfoldable pub route_before : Route → Route → Bool
route_before a b = text_ltb a.host b.host

-- The snapshot that flushLocked marshals.
unfoldable pub snapshot : {D : Type 0} → MemStore D → Snapshot
snapshot s = record {
  projects = sort_by project_before (values s.projects);
  workloads = sort_by workload_before (values s.workloads);
  routes = sort_by route_before (values s.routes);
  regions = values s.regions;
  apikeys = values s.apikeys;
  images = values s.images;
  settings = s.settings;
}

-- The store that openWith makes of what it loaded; `none` is an empty load.
unfoldable pub restore : {D : Type 0} → Settings → D → Option Snapshot → MemStore D
restore zero_settings d none = record {
  disk = d;
  projects = [];
  workloads = [];
  routes = [];
  regions = [];
  apikeys = [];
  images = [];
  settings = zero_settings;
}
restore zero_settings d (some snap) = record {
  disk = d;
  projects = fill project_key [] snap.projects;
  workloads = fill workload_key [] snap.workloads;
  routes = fill route_key [] snap.routes;
  regions = fill region_key [] snap.regions;
  apikeys = fill apikey_key [] snap.apikeys;
  images = fill image_key [] snap.images;
  settings = snap.settings;
}

module _ {D : Type 0} (save : D → Snapshot → Option D) where
  -- A method returns the state that it leaves and its error.
  abbrev pub Step : Type 0
  Step = MemStore D → MemStore D × Option Error

  -- flushLocked: a failed save leaves the memory as the method changed it.
  unfoldable pub flush : Step
  flush s = elim (save s.disk (snapshot s)) [
    | none ↦ (s, some save_failed)
    | some d ↦ (record s { disk = d }, none)
  ]

  -- The disk after a flush: as it was, if the save failed.
  unfoldable pub next_disk : MemStore D → D
  next_disk s = elim (save s.disk (snapshot s)) [ none ↦ s.disk | some d ↦ d ]

  unfoldable pub put_project : Project → Step
  put_project p s = flush (record s { projects = insert p.id p s.projects })

  unfoldable pub put_workload : Workload → Step
  put_workload w s = flush (record s { workloads = insert w.id w s.workloads })

  unfoldable pub put_route : Route → Step
  put_route r s =
      let cp = record r { host = to_lower r.host } in
      flush (record s { routes = insert cp.host cp s.routes })

  unfoldable pub put_region : Region → Step
  put_region r s = flush (record s { regions = insert r.id r s.regions })

  unfoldable pub put_apikey : ApiKey → Step
  put_apikey k s = flush (record s { apikeys = insert k.id k s.apikeys })

  unfoldable pub put_image : Image → Step
  put_image im s =
      flush (record s { images = insert (image_id im.template im.version) im s.images })

  unfoldable pub set_settings : Settings → Step
  set_settings st s = flush (record s { settings = st })

  unfoldable pub set_workload_state : Text → State → Step
  set_workload_state id st s = elim (lookup id s.workloads) [
    | none ↦ (s, some not_found)
    | some w ↦ flush (record s { workloads = insert id (record w { state = st }) s.workloads })
  ]

  -- deleteRoutesForWorkloadLocked
  unfoldable pub delete_routes_for_workload : Text → MemStore D → MemStore D
  delete_routes_for_workload id s = record s {
    routes = remove_if (λ _ r. text_eq r.workload_id id) s.routes;
  }

  -- The body of DeleteProject's loop over the workloads.
  unfoldable pub delete_owned : Text → Text → Workload → MemStore D → MemStore D
  delete_owned id wid w s =
      if text_eq w.project_id id
      then delete_routes_for_workload wid (record s { workloads = remove wid s.workloads })
      else s

  -- The loop, in the order of the range.
  unfoldable pub delete_workloads_of : Text → Table Workload → MemStore D → MemStore D
  delete_workloads_of id [] s = s
  delete_workloads_of id ((wid, w) ∷ ws) s = delete_workloads_of id ws (delete_owned id wid w s)

  unfoldable pub delete_project : Text → Step
  delete_project id s =
      if is_some (lookup id s.projects)
      then flush (delete_workloads_of id s.workloads (record s { projects = remove id s.projects }))
      else (s, some not_found)

  unfoldable pub delete_workload : Text → Step
  delete_workload id s =
      if is_some (lookup id s.workloads)
      then flush (delete_routes_for_workload id (record s { workloads = remove id s.workloads }))
      else (s, some not_found)

  unfoldable pub delete_route : Text → Step
  delete_route host s =
      if is_some (lookup (to_lower host) s.routes)
      then flush (record s { routes = remove (to_lower host) s.routes })
      else (s, some not_found)

  unfoldable pub delete_region : Text → Step
  delete_region id s =
      if is_some (lookup id s.regions)
      then flush (record s { regions = remove id s.regions })
      else (s, some not_found)

  unfoldable pub delete_apikey : Text → Step
  delete_apikey id s =
      if is_some (lookup id s.apikeys)
      then flush (record s { apikeys = remove id s.apikeys })
      else (s, some not_found)

  unfoldable pub delete_image : Text → Text → Step
  delete_image template version s =
      if is_some (lookup (image_id template version) s.images)
      then flush (record s { images = remove (image_id template version) s.images })
      else (s, some not_found)

  -- A flush writes the disk and nothing else.
  pub flush_state : (s : MemStore D) → (flush s).0 ≡ record s { disk = next_disk s }
  unfolding flush next_disk
  flush_state s = ground arith
