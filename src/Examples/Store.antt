-- ===== src/Examples/Store.antt =====
-- A small fleet, in a store on a disk that keeps the last snapshot.
use orchd.Prelude.{
  Text, codes, text_eq, to_lower, ◌≡◌, refl, true, false, Option, none, some, List, [], ◌∷◌,
  is_some,
}
use orchd.Prelude.Int.{pos}
use orchd.Table.{lookup, insert}
use orchd.Store.Records.{Snapshot, Settings, Project, Workload, Route, running}
use orchd.Store.Mem.{MemStore, restore, flush, put_project, put_workload, put_route, delete_project}
use orchd.Store.Query.{get_project, get_workload, get_route_by_host}
use orchd.Store.Ops.{Op, project, workload, route, drop_project, call, run}
use orchd.Store.Keyed.{call-IsWellKeyed, IsWellKeyed, restore-IsWellKeyed, run-IsWellKeyed}
use orchd.Store.Reopen.{Loaded, loaded, open_with, SameContents, open_with-call}
use orchd.Store.Cascade.{IsCascaded, delete_project-cascade}
use orchd.Store.Linked.{IsAllowed, IsLinked, call-IsLinked}

abbrev pub Disk : Type 0
Disk = Option Snapshot

abbrev pub keep_last : Disk → Snapshot → Option Disk
keep_last d snap = some (some snap)

abbrev read_back : Disk → Loaded
read_back d = loaded d

keep_last-reads :
    (d : Disk) (snap : Snapshot) (d' : Disk)
    → keep_last d snap ≡ some d'
    → read_back d' ≡ loaded (some snap)
keep_last-reads d snap d' e = cc

abbrev pub no_settings : Settings
no_settings = record {
  instance_name = [];
  backup = record {
    kind = [];
    endpoint = [];
    bucket = [];
    region = [];
    prefix = [];
    access_key = [];
    secret_key = [];
  };
  webhook = record { url = []; api_key = [] };
  metrics = record { kind = []; url = [] };
  templates = [];
  registry = [];
  lru_keep_max = pos 0;
}

abbrev pub shop : Project
shop = record {
  id = codes "p1";
  name = codes "shop";
  region = codes "local";
  env = [];
  created_at = 5;
  last_active_at = 0;
}

abbrev pub blog : Project
blog = record {
  id = codes "p2";
  name = codes "blog";
  region = codes "local";
  env = [];
  created_at = 3;
  last_active_at = 0;
}

abbrev pub workload_of : Text → Text → Workload
workload_of id project_id = record {
  id = id;
  project_id = project_id;
  kind = codes "tinbase-project";
  name = [];
  image = [];
  port = 0;
  host_port = 0;
  template = [];
  image_ver = [];
  workspace = [];
  env = [];
  memory_mb = 384;
  cpus = 500;
  keep_warm = false;
  state = running;
  data_dir = [];
  jwt_secret = [];
  anon_key = [];
  svc_key = [];
  created_at = 7;
}

abbrev route_to : Text → Text → Route
route_to host workload_id = record {
  host = host;
  key = host;
  workload_id = workload_id;
  created_at = 8;
}

abbrev calls : List Op
calls =
    project shop
    ∷ project blog
    ∷ workload (workload_of (codes "w1") (codes "p1"))
    ∷ workload (workload_of (codes "w2") (codes "p2"))
    ∷ route (route_to (codes "Shop.dev") (codes "w1"))
    ∷ route (route_to (codes "blog.dev") (codes "w2"))
    ∷ []

abbrev start : MemStore Disk
start = restore no_settings none none

abbrev fleet : MemStore Disk
fleet = run keep_last calls start

fleet_route :
    get_route_by_host (codes "SHOP.DEV") fleet
    ≡ some (record {
      host = codes "shop.dev";
      key = codes "Shop.dev";
      workload_id = codes "w1";
      created_at = 8;
    })
unfolding get_route_by_host run call put_project put_workload put_route flush restore insert lookup
    text_eq to_lower
fleet_route = refl

fleet-IsWellKeyed : IsWellKeyed fleet
fleet-IsWellKeyed =
    run-IsWellKeyed keep_last calls start (restore-IsWellKeyed no_settings none none)

fleet_has_shop : is_some (get_project (codes "p1") fleet) ≡ true
unfolding get_project run call put_project put_workload put_route flush restore insert lookup
    text_eq to_lower
fleet_has_shop = refl

fleet_has_w1 : is_some (get_workload (codes "w1") fleet) ≡ true
unfolding get_workload run call put_project put_workload put_route flush restore insert lookup
    text_eq to_lower
fleet_has_w1 = refl

run-IsWellKeyed_example : IsWellKeyed (run keep_last calls start)
run-IsWellKeyed_example =
    run-IsWellKeyed keep_last calls start (restore-IsWellKeyed no_settings none none)

delete_project-cascade_example :
    IsCascaded (codes "p1") fleet (delete_project keep_last (codes "p1") fleet).0
delete_project-cascade_example =
    delete_project-cascade keep_last (codes "p1") fleet fleet-IsWellKeyed fleet_has_shop

dropped : (call keep_last (drop_project (codes "p1")) fleet).1 ≡ none
unfolding call run put_project put_workload put_route delete_project flush restore insert lookup
    text_eq to_lower
dropped = refl

open_with-call_example :
    (t : MemStore Disk) × (open_with no_settings read_back
        (call keep_last (drop_project (codes "p1")) fleet).0.disk
      ≡ some t)
    × SameContents t (call keep_last (drop_project (codes "p1")) fleet).0
open_with-call_example =
    open_with-call keep_last read_back keep_last-reads no_settings none none calls
      (drop_project (codes "p1")) dropped

start-IsLinked : IsLinked start
unfolding get_project get_workload get_route_by_host restore lookup
start-IsLinked = record { routes = λ host r e. cc; workloads = λ id w e. cc }

-- Calls that keep what the manager checks, each on the store that the earlier ones left.
abbrev AreAllowed : List Op → MemStore Disk → Type 0
AreAllowed [] s = Unit
AreAllowed (op ∷ ops) s = IsAllowed op s × AreAllowed ops (call keep_last op s).0

run-IsLinked :
    (ops : List Op) (s : MemStore Disk)
    → AreAllowed ops s
    → IsWellKeyed s
    → IsLinked s
    → IsLinked (run keep_last ops s)
unfolding run
run-IsLinked [] s a h k = k
run-IsLinked (op ∷ ops) s a h k =
    run-IsLinked ops (call keep_last op s).0 a.1 (call-IsWellKeyed keep_last op s h)
      (call-IsLinked keep_last op s a.0 h k)

calls-AreAllowed : AreAllowed calls start
unfolding get_project get_workload call put_project put_workload put_route flush restore insert
    lookup text_eq to_lower
calls-AreAllowed = (tt, (tt, (refl, (refl, (refl, (refl, tt))))))

fleet-IsLinked : IsLinked fleet
fleet-IsLinked =
    run-IsLinked calls start calls-AreAllowed (restore-IsWellKeyed no_settings none none)
      start-IsLinked

-- The project has a workload, and the workload a route.
call-IsLinked_example : IsLinked (call keep_last (drop_project (codes "p1")) fleet).0
call-IsLinked_example =
    call-IsLinked keep_last (drop_project (codes "p1")) fleet tt fleet-IsWellKeyed fleet-IsLinked
