-- ===== src/Store/Query.antt =====
-- The methods of memStore that only read (orchestrator/internal/store/store.go). `none` is
-- ErrNotFound. The copies that they return are not told from what the maps hold.
use orchd.Prelude.{
  Text, codes, text_eq, text_ltb, to_lower, ltb, Bool, ◌||◌, Option, none, some, List, [], ◌∷◌,
  if◌then◌else◌, keep,
}
use orchd.Prelude.Sorting.{sort_by}
use orchd.Table.{lookup, values}
use orchd.Store.Records.{ApiKey, Image, Region, Project, Workload, Route, image_id}
use orchd.Store.Mem.{MemStore, project_before, workload_before, route_before}

pub apikey_before : ApiKey → ApiKey → Bool
apikey_before a b = ltb a.created_at b.created_at

unfoldable pub region_before : Region → Region → Bool
region_before a b = ltb a.created_at b.created_at

-- By template, the newest of a template first.
image_before : Image → Image → Bool
image_before a b =
    if text_eq a.template b.template
    then ltb b.created_at a.created_at
    else text_ltb a.template b.template

-- The loop of GetRouteByKey: the first route of the range with the key.
unfoldable pub find_key : Text → List Route → Option Route
find_key key [] = none
find_key key (r ∷ rs) = if text_eq (to_lower r.key) key then some r else find_key key rs

module _ {D : Type 0} where
  unfoldable pub get_project : Text → MemStore D → Option Project
  get_project id s = lookup id s.projects

  unfoldable pub get_workload : Text → MemStore D → Option Workload
  get_workload id s = lookup id s.workloads

  unfoldable pub get_region : Text → MemStore D → Option Region
  get_region id s = lookup id s.regions

  unfoldable pub get_image : Text → Text → MemStore D → Option Image
  get_image template version s = lookup (image_id template version) s.images

  unfoldable pub get_route_by_host : Text → MemStore D → Option Route
  get_route_by_host host s = lookup (to_lower host) s.routes

  unfoldable pub get_route_by_key : Text → MemStore D → Option Route
  unfolding find_key
  get_route_by_key key s = find_key (to_lower key) (values s.routes)

  unfoldable pub list_projects : MemStore D → List Project
  list_projects s = sort_by project_before (values s.projects)

  unfoldable pub list_workloads : Text → MemStore D → List Workload
  list_workloads project_id s = sort_by workload_before (
      keep (λ w. text_eq project_id (codes "") || text_eq w.project_id project_id)
        (values s.workloads))

  unfoldable pub list_routes_for_workload : Text → MemStore D → List Route
  list_routes_for_workload workload_id s =
      sort_by route_before (keep (λ r. text_eq r.workload_id workload_id) (values s.routes))

  unfoldable pub list_regions : MemStore D → List Region
  unfolding region_before
  list_regions s = sort_by region_before (values s.regions)

  unfoldable pub list_apikeys : MemStore D → List ApiKey
  unfolding apikey_before
  list_apikeys s = sort_by apikey_before (values s.apikeys)

  unfoldable pub list_images : MemStore D → List Image
  unfolding image_before
  list_images s = sort_by image_before (values s.images)
