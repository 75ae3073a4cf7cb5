-- ===== src/Manager/Register.antt =====
-- registerWorkload and CreateProject (orchestrator/internal/manager/manager.go).
use orchd.Prelude.{
  ℕ, suc, zero, Text, codes, text_eq, false, not, ◌&&◌, ◌||◌, Option, none, some, List, [], ◌∷◌,
  ◌++◌, ◌==◌, if◌then◌else◌, is_some,
}
use orchd.Prelude.Int.{pos_part, is_positive}
use orchd.Store.Records.{Snapshot, Workload, provisioning}
use orchd.Store.Mem.{MemStore, put_project, put_workload, put_route}
use orchd.Store.Query.{get_project, get_workload, get_region, list_workloads}
use orchd.Manager.Regions.{default_region_id}
use orchd.Manager.Interpolate.{key_for}
use orchd.Manager.Create.{
  WorkloadSpec, Supply, CreateConfig, CreateError, Outcome, done, failed, no_project,
  unknown_preset, no_entropy, save_failed, bad_secret, no_region, no_workload, tinbase_project,
  resolve_preset, with_create_options, first_port, is_used, default_limits, nat_or,
}

-- The default hostname of a workload.
unfoldable pub host_of : CreateConfig → Workload → Text
host_of cfg w = key_for w.project_id w.name ++ codes "." ++ cfg.base_domain

module _ (supply : Supply) where
  open supply use {Source, new_ref, new_secret, mint_keys_once, is_port_free}

  -- mintKeys, with the attempts that are left
  unfoldable pub mint_keys : ℕ → Text → Source → (Text × Text) × Source
  mint_keys zero secret src = (([], []), src)
  mint_keys (suc n) secret src =
      let (keys, src') = mint_keys_once secret src in
      let again = mint_keys n secret src' in
      if (not (text_eq keys.0 (codes "")) && not (text_eq keys.1 (codes ""))) || n == 0
      then (keys, src')
      else again

  unfoldable pub secret_for : WorkloadSpec → Source → Option Text × Source
  secret_for ws src =
      if text_eq ws.jwt_secret (codes "") then new_secret src else (some ws.jwt_secret, src)

  unfoldable pub keys_for : Text → Text → Source → (Text × Text) × Source
  unfolding mint_keys
  keys_for kind secret src =
      if text_eq kind tinbase_project then mint_keys 3 secret src else (([], []), src)

  unfoldable pub alloc_host_port : CreateConfig → List Workload → Source → ℕ
  alloc_host_port cfg ws src =
      if is_positive cfg.port_base
      then first_port (λ p. is_used p ws || not (is_port_free src p)) (pos_part cfg.port_base) 2000
      else 0

  unfoldable pub new_workload :
      CreateConfig → ℕ → Text → Text → WorkloadSpec → Text → Text × Text → ℕ → Workload
  unfolding default_limits
  new_workload cfg now project_id wid ws secret keys port = record {
    id = wid;
    project_id = project_id;
    kind = ws.kind;
    name = ws.name;
    image = ws.image;
    port = ws.port;
    host_port = port;
    template = ws.template;
    image_ver = ws.image_version;
    workspace = ws.workspace;
    env = ws.env;
    memory_mb = nat_or ws.memory_mb (default_limits cfg ws.kind).0;
    cpus = nat_or ws.cpus (default_limits cfg ws.kind).1;
    keep_warm = false;
    state = provisioning;
    data_dir = supply.data_dir project_id wid;
    jwt_secret = secret;
    anon_key = keys.0;
    svc_key = keys.1;
    created_at = now;
  }

module _ {D : Type 0} (save : D → Snapshot → Option D) (supply : Supply) (cfg : CreateConfig)
    (now : ℕ) where
  open supply use {Source, new_ref}

  -- The writes of registerWorkload: the record, its default route, and the record read back.
  unfoldable pub read_back : Option Workload → Outcome Workload
  read_back none = failed no_workload
  read_back (some w) = done w

  unfoldable pub put_registered : Workload → MemStore D → Outcome Workload × MemStore D
  unfolding read_back
  put_registered w s =
      let (s1, e1) = put_workload save w s in
      let (s2, e2) =
        put_route save
          (record {
            host = host_of cfg w;
            key = key_for w.project_id w.name;
            workload_id = w.id;
            created_at = now;
          })
          s1 in
      if is_some e1
      then (failed save_failed, s1)
      else if is_some e2
      then (failed save_failed, s2)
      else (read_back (get_workload w.id s2), s2)

  unfoldable pub register_spec :
      Text → WorkloadSpec → Source → MemStore D → Outcome Workload × Source × MemStore D
  unfolding put_registered
  register_spec project_id ws src s =
      let (wid, src1) = new_ref src in
      let (secret, src2) = secret_for supply ws src1 in
      elim wid [
        | none ↦ (failed no_entropy, src1, s)
        | some id ↦ elim secret [
          | none ↦ (failed no_entropy, src2, s)
          | some sec ↦
              let (keys, src3) = keys_for supply ws.kind sec src2 in
              let port = alloc_host_port supply cfg (list_workloads [] s) src3 in
              let (result, s') =
                put_registered (new_workload supply cfg now project_id id ws sec keys port) s in
              (result, src3, s')
        ]
      ]

  unfoldable pub register_workload :
      Text → WorkloadSpec → Source → MemStore D → Outcome Workload × Source × MemStore D
  unfolding register_spec
  register_workload project_id given src s = elim (get_project project_id s) [
    | none ↦ (failed no_project, src, s)
    | some proj ↦ elim (resolve_preset given) [
      | none ↦ (failed unknown_preset, src, s)
      | some ws ↦ register_spec proj.id ws src s
    ]
  ]

  -- The loop of CreateProject: it ends at the first failure, with what was created before.
  unfoldable pub register_all :
      Text
      → List WorkloadSpec
      → Source
      → MemStore D
      → (Option CreateError × List Workload) × Source × MemStore D
  unfolding register_workload
  register_all ref [] src s = ((none, []), src, s)
  register_all ref (ws ∷ specs) src s =
      let (one, src1, s1) = register_workload ref ws src s in
      let (rest, src2, s2) = register_all ref specs src1 s1 in
      elim one [ failed e ↦ ((some e, []), src1, s1) | done w ↦ ((rest.0, w ∷ rest.1), src2, s2) ]

  -- The region of a new project; `none` is an error.
  unfoldable pub region_for : Text → MemStore D → Option Text
  region_for given s =
      if text_eq given (codes "")
      then some (default_region_id cfg.region s)
      else if is_some (get_region given s)
      then some given
      else none

  abbrev pub one_database : WorkloadSpec
  one_database = record {
    preset = [];
    kind = tinbase_project;
    name = [];
    image = [];
    port = 0;
    memory_mb = 0;
    cpus = 0;
    template = [];
    image_version = [];
    workspace = [];
    env = [];
    jwt_secret = [];
  }

  abbrev pub specs_or_default : List WorkloadSpec → List WorkloadSpec
  specs_or_default [] = one_database ∷ []
  specs_or_default (ws ∷ specs) = ws ∷ specs

  unfoldable pub create_in :
      Text
      → Text
      → List WorkloadSpec
      → Source
      → MemStore D
      → (Option CreateError × List Workload) × Source × MemStore D
  unfolding register_all
  create_in name region specs src s =
      let (ref, src1) = new_ref src in
      elim ref [
        | none ↦ ((some no_entropy, []), src1, s)
        | some id ↦
            let (s1, e) =
              put_project save
                (record {
                  id = id;
                  name = name;
                  region = region;
                  env = [];
                  created_at = now;
                  last_active_at = 0;
                })
                s in
            let rest = register_all id specs src1 s1 in
            if is_some e then ((some save_failed, []), src1, s1) else rest
      ]

  -- CreateProject, with the workloads that it created
  unfoldable pub create_project :
      Text
      → Text
      → List WorkloadSpec
      → List Text
      → Source
      → MemStore D
      → (Option CreateError × List Workload) × Source × MemStore D
  unfolding create_in region_for
  create_project name given specs opts src s =
      elim (with_create_options (specs_or_default specs) opts) [
        | none ↦ ((some bad_secret, []), src, s)
        | some resolved ↦ elim (region_for given s) [
          | none ↦ ((some no_region, []), src, s)
          | some region ↦ create_in name region resolved src s
        ]
      ]
