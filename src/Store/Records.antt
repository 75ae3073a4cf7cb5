-- ===== src/Store/Records.antt =====
-- The records of the control plane: orchestrator/internal/store/store.go, and the states of
-- orchestrator/internal/runtime/runtime.go. A time is a number of nanoseconds, 0 the zero time.
-- `cpus`, a float64 that the store only carries, is in thousandths of a CPU.
use orchd.Prelude.{ℕ, Text, codes, Bool, List, ◌++◌}
use orchd.Prelude.Int.{ℤ}
use orchd.Table.{Table}

abbrev pub Time : Type 0
Time = ℕ

pub data State : Type 0 where
  provisioning running suspended stopped failed : State

pub record ApiKey : Type 0 where
  pub id : Text
  pub name : Text
  pub role : Text
  pub hash : Text
  pub created_at : Time

pub record ImageWorkload : Type 0 where
  pub name : Text
  pub kind : Text
  pub workspace : Text
  pub image : Text
  pub env : Table Text
  pub primary : Bool
  pub port : ℕ
  pub dir : Text
  pub preset : Bool
  pub memory_mb : ℕ
  pub cpus : ℕ

pub record Image : Type 0 where
  pub template : Text
  pub version : Text
  pub tarball : Text
  pub dockers : Table Text
  pub registry : Table Text
  pub workloads : List ImageWorkload
  pub imported : Bool
  pub created_at : Time

-- ImageID: the "template@version" key of an image.
unfoldable pub image_id : Text → Text → Text
image_id template version = template ++ (codes "@" ++ version)

pub record Region : Type 0 where
  pub id : Text
  pub name : Text
  pub docker_host : Text
  pub is_default : Bool
  pub created_at : Time

pub record Project : Type 0 where
  pub id : Text
  pub name : Text
  pub region : Text
  pub env : Table Text
  pub created_at : Time
  pub last_active_at : Time

pub record Workload : Type 0 where
  pub id : Text
  pub project_id : Text
  pub kind : Text  -- Type, a runtime.WorkloadType
  pub name : Text
  pub image : Text
  pub port : ℕ
  pub host_port : ℕ
  pub template : Text
  pub image_ver : Text
  pub workspace : Text
  pub env : Table Text
  pub memory_mb : ℕ
  pub cpus : ℕ
  pub keep_warm : Bool
  pub state : State
  pub data_dir : Text
  pub jwt_secret : Text
  pub anon_key : Text
  pub svc_key : Text
  pub created_at : Time

pub record BackupTarget : Type 0 where
  pub kind : Text
  pub endpoint : Text
  pub bucket : Text
  pub region : Text
  pub prefix : Text
  pub access_key : Text
  pub secret_key : Text

pub record Webhook : Type 0 where
  pub url : Text
  pub api_key : Text

pub record MetricsTarget : Type 0 where
  pub kind : Text
  pub url : Text

pub record Settings : Type 0 where
  pub instance_name : Text
  pub backup : BackupTarget
  pub webhook : Webhook
  pub metrics : MetricsTarget
  pub templates : Table Text
  pub registry : Text
  pub lru_keep_max : ℤ

pub record Route : Type 0 where
  pub host : Text
  pub key : Text
  pub workload_id : Text
  pub created_at : Time

-- What a flush writes and a load reads.
pub record Snapshot : Type 0 where
  pub projects : List Project
  pub workloads : List Workload
  pub routes : List Route
  pub regions : List Region
  pub apikeys : List ApiKey
  pub images : List Image
  pub settings : Settings
