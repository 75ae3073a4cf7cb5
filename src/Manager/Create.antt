-- ===== src/Manager/Create.antt =====
-- The creation of projects and workloads (orchestrator/internal/manager/manager.go). What is random
-- or asked of the box is the parameter `Supply`; the working tree that is materialized, the
-- background boot (provision) and the events are left out.
use orchd.Prelude.{
  ℕ, suc, zero, Text, codes, text_eq, Bool, ◌&&◌, ◌||◌, Option, none, some, List, [], ◌∷◌, ltb,
  ◌==◌, if◌then◌else◌, length, any,
}
use orchd.Prelude.Int.{ℤ}
use orchd.Table.{Table}
use orchd.Store.Records.{Workload}

pub record WorkloadSpec : Type 0 where
  pub preset : Text
  pub kind : Text
  pub name : Text
  pub image : Text
  pub port : ℕ
  pub memory_mb : ℕ
  pub cpus : ℕ
  pub template : Text
  pub image_version : Text
  pub workspace : Text
  pub env : Table Text
  pub jwt_secret : Text

pub record Supply : Type 1 where
  pub Source : Type 0
  -- newRef, newSecret and mintKeysOnce
  pub new_ref : Source → Option Text × Source
  pub new_secret : Source → Option Text × Source
  pub mint_keys_once : Text → Source → (Text × Text) × Source
  -- portFree
  pub is_port_free : Source → ℕ → Bool
  -- the data directory of a workload in a project (filepath.Join)
  pub data_dir : Text → Text → Text

pub record CreateConfig : Type 0 where
  pub port_base : ℤ
  pub dev_mem_mb : ℕ
  pub dev_cpus : ℕ
  pub tinbase_mem_mb : ℕ
  pub tinbase_cpus : ℕ
  pub base_domain : Text
  pub region : Text

pub data CreateError : Type 0 where
  no_project unknown_preset no_entropy save_failed bad_secret no_region no_workload : CreateError

pub data Outcome (A : Type 0) : Type 0 where
  done : A → Outcome A
  failed : CreateError → Outcome A

abbrev pub tinbase_project : Text
tinbase_project = codes "tinbase-project"

abbrev pub rapidnative_dev : Text
rapidnative_dev = codes "rapidnative-dev"

-- A preset's kind, name, image and port.
pub record Preset : Type 0 where
  pub kind : Text
  pub name : Text
  pub image : Text
  pub port : ℕ

unfoldable pub catalog : Text → Option Preset
catalog key =
    if text_eq key (codes "tinbase")
    then some (record { kind = tinbase_project; name = []; image = []; port = 0 })
    else if text_eq key (codes "expo")
    then some (record {
      kind = rapidnative_dev;
      name = codes "app";
      image = codes "rn-expo:dev";
      port = 8080;
    })
    else if text_eq key (codes "vite")
    then some (record {
      kind = rapidnative_dev;
      name = codes "web";
      image = codes "rn-vite:dev";
      port = 8080;
    })
    else if text_eq key (codes "api")
    then some (record {
      kind = rapidnative_dev;
      name = codes "api";
      image = codes "rn-api:dev";
      port = 8080;
    })
    else none

abbrev pub text_or : Text → Text → Text
text_or given otherwise = if text_eq given (codes "") then otherwise else given

abbrev pub nat_or : ℕ → ℕ → ℕ
nat_or given otherwise = if given == 0 then otherwise else given

-- The spec with its preset; an explicit field wins. `none` is an unknown preset.
unfoldable pub resolve_preset : WorkloadSpec → Option WorkloadSpec
unfolding catalog
resolve_preset ws =
    if text_eq ws.preset (codes "")
    then some (record ws { kind = text_or ws.kind tinbase_project })
    else elim (catalog ws.preset) [
      | none ↦ none
      | some p ↦ some (record ws {
        kind = text_or (text_or ws.kind p.kind) tinbase_project;
        name = text_or ws.name p.name;
        image = text_or ws.image p.image;
        port = nat_or ws.port p.port;
      })
    ]

abbrev kind_of : Text → Option Preset → Text
kind_of kind none = kind
kind_of kind (some p) = text_or kind p.kind

-- The loop of withCreateOptions over the specs, for a secret that is long enough.
unfoldable pub with_secret : Text → List WorkloadSpec → List WorkloadSpec
unfolding catalog
with_secret secret [] = []
with_secret secret (ws ∷ specs) =
    let t = kind_of ws.kind (catalog ws.preset) in
    (if text_eq t (codes "") || text_eq t tinbase_project
      then record ws { jwt_secret = secret }
      else ws)
    ∷ with_secret secret specs

-- withCreateOptions, of the secrets of the options; `none` is ErrBadJWTSecret.
unfoldable pub with_create_options : List WorkloadSpec → List Text → Option (List WorkloadSpec)
unfolding with_secret
with_create_options specs [] = some specs
with_create_options specs (secret ∷ opts) =
    let kept = with_create_options specs opts in
    let given = with_create_options (with_secret secret specs) opts in
    if text_eq secret (codes "") then kept else if ltb (length secret) 32 then none else given

-- The first port of a range that no workload has and that is free.
unfoldable pub find_port : (ℕ → Bool) → ℕ → ℕ → Option ℕ
find_port taken p zero = none
find_port taken p (suc n) =
    let later = find_port taken (suc p) n in if taken p then later else some p

-- The ports that allocHostPort counts as used.
unfoldable pub is_used : ℕ → List Workload → Bool
is_used p ws = any (λ w. ltb 0 w.host_port && w.host_port == p) ws

abbrev pub port_or_none : Option ℕ → ℕ
port_or_none none = 0
port_or_none (some p) = p

-- The port of a range that is taken, or 0.
unfoldable pub first_port : (ℕ → Bool) → ℕ → ℕ → ℕ
first_port taken p n = port_or_none (find_port taken p n)

unfoldable pub default_limits : CreateConfig → Text → ℕ × ℕ
default_limits cfg kind =
    if text_eq kind rapidnative_dev
    then (cfg.dev_mem_mb, cfg.dev_cpus)
    else (cfg.tinbase_mem_mb, cfg.tinbase_cpus)
