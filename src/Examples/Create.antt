-- ===== src/Examples/Create.antt =====
-- A workload that is registered in a project, from its preset to its port.
use orchd.Prelude.{
  ℕ, ◌+◌, ◌≡◌, refl, codes, text_eq, false, not, ◌&&◌, none, some, [], ◌∷◌, ◌++◌, ltb, ◌==◌, All,
}
use orchd.Prelude.Int.{pos}
use orchd.Prelude.Sorting.{sort_by, insert_by}
use orchd.Table.{values, lookup, insert}
use orchd.Store.Records.{Workload}
use orchd.Store.Ops.{run, call}
use orchd.Store.Mem.{put_workload, put_route, flush, put_project, restore}
use orchd.Store.Query.{get_workload, get_project, list_workloads}
use orchd.Manager.Routes.{resolve_host}
use orchd.Manager.Create.{
  WorkloadSpec, Supply, CreateConfig, done, catalog, resolve_preset, with_create_options, find_port,
  first_port, is_used, default_limits,
}
use orchd.Manager.Register.{
  host_of, secret_for, keys_for, alloc_host_port, new_workload, read_back, put_registered,
  register_spec, register_workload,
}
use orchd.Manager.Registered.{register_workload-IsRegistered}
use orchd.Examples.Store.{keep_last}
use orchd.Examples.Manager.{fleet_store}

-- The source counts what was asked of it; port 4000 is in use.
abbrev pub supply : Supply
supply = record {
  Source = ℕ;
  new_ref = λ n. (some (codes "w9"), n + 1);
  new_secret = λ n. (some (codes "s3cret"), n + 1);
  mint_keys_once = λ secret n. ((codes "anon", codes "svc"), n + 1);
  is_port_free = λ n p. not (p == 4000);
  data_dir = λ ref wid. codes "/data/" ++ wid;
}

abbrev pub create_config : CreateConfig
create_config = record {
  port_base = pos 4000;
  dev_mem_mb = 1024;
  dev_cpus = 1000;
  tinbase_mem_mb = 384;
  tinbase_cpus = 500;
  base_domain = codes "apps.dev";
  region = codes "local";
}

abbrev pub spec : WorkloadSpec
spec = record {
  preset = codes "api";
  kind = [];
  name = [];
  image = [];
  port = 0;
  memory_mb = 0;
  cpus = 250;
  template = [];
  image_version = [];
  workspace = [];
  env = [];
  jwt_secret = [];
}

short_secret : with_create_options (spec ∷ []) (codes "short" ∷ []) ≡ none
unfolding with_create_options text_eq
short_secret = refl

-- The spec with what its preset gives.
abbrev resolved : WorkloadSpec
resolved = record spec {
  kind = codes "rapidnative-dev";
  name = codes "api";
  image = codes "rn-api:dev";
  port = 8080;
}

abbrev w9 : Workload
w9 =
    new_workload supply create_config 9 (codes "p1") (codes "w9") resolved (codes "s3cret") ([], [])
      4001

w9-registered :
    (register_workload keep_last supply create_config 9 (codes "p1") spec 0 fleet_store).0 ≡ done w9
unfolding register_workload register_spec resolve_preset catalog secret_for keys_for alloc_host_port
    first_port find_port is_used new_workload default_limits put_registered read_back put_workload
    put_route flush put_project restore run call insert lookup get_project get_workload
    list_workloads text_eq sort_by insert_by values
w9-registered = refl

register_workload-IsRegistered_example :
    (get_workload
        (codes "w9")
        (register_workload keep_last supply create_config 9 (codes "p1") spec 0 fleet_store).2
      ≡ some w9)
    × (resolve_host
          (host_of create_config w9)
          (register_workload keep_last supply create_config 9 (codes "p1") spec 0 fleet_store).2
        ≡ some w9)
    × All (λ v. (ltb 0 v.host_port && v.host_port == 4001) ≡ false) (list_workloads [] fleet_store)
unfolding new_workload
register_workload-IsRegistered_example =
    register_workload-IsRegistered keep_last supply create_config 9 (codes "p1") spec w9 0
      fleet_store w9-registered
