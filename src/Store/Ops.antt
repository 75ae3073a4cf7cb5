-- ===== src/Store/Ops.antt =====
-- The methods that change the store as one type, for statements about any sequence of calls
-- (the interface Store of orchestrator/internal/store/store.go).
use orchd.Prelude.{Text, List, [], ◌∷◌, Option}
use orchd.Store.Records.{ApiKey, Image, Region, Project, Workload, Settings, Route, Snapshot, State}
use orchd.Store.Mem.{
  MemStore, Error, put_project, put_workload, put_route, put_region, put_apikey, put_image,
  set_settings, set_workload_state, delete_project, delete_workload, delete_route, delete_region,
  delete_apikey, delete_image,
}

pub data Op : Type 0 where
  project : Project → Op
  workload : Workload → Op
  route : Route → Op
  region : Region → Op
  apikey : ApiKey → Op
  image : Image → Op
  settings : Settings → Op
  workload_state : Text → State → Op
  drop_project : Text → Op
  drop_workload : Text → Op
  drop_route : Text → Op
  drop_region : Text → Op
  drop_apikey : Text → Op
  drop_image : Text → Text → Op

module _ {D : Type 0} (save : D → Snapshot → Option D) where
  unfoldable pub call : Op → MemStore D → MemStore D × Option Error
  call (project p) = put_project save p
  call (workload w) = put_workload save w
  call (route r) = put_route save r
  call (region r) = put_region save r
  call (apikey k) = put_apikey save k
  call (image im) = put_image save im
  call (settings st) = set_settings save st
  call (workload_state id st) = set_workload_state save id st
  call (drop_project id) = delete_project save id
  call (drop_workload id) = delete_workload save id
  call (drop_route host) = delete_route save host
  call (drop_region id) = delete_region save id
  call (drop_apikey id) = delete_apikey save id
  call (drop_image template version) = delete_image save template version

  -- Calls one after another; an error ends only its own call.
  unfoldable pub run : List Op → MemStore D → MemStore D
  run [] s = s
  run (op ∷ ops) s = run ops (call op s).0
