-- ===== src/Config/Load.antt =====
-- Config, Load and Validate (orchestrator/internal/config/config.go). Durations are in nanoseconds.
use orchd.Prelude.{
  Text, codes, Bool, not, ◌&&◌, Option, none, some, List, [], ◌++◌, if◌then◌else◌, is_some,
}
use orchd.Prelude.Int.{ℤ, pos, negsuc}
use orchd.Table.{Table, lookup}
use orchd.Config.Env.{
  System, split_csv, env_map, port_suffix, trim_right_byte, env, env_bool, env_int, env_float,
  env_duration, env_int_map, is_blank,
}

pub record Config (F : Type 0) : Type 0 where
  pub api_addr : Text
  pub gateway_addr : Text
  pub base_domain : Text
  pub templates_dir : Text
  pub port_base : ℤ
  pub alt_domains : List Text
  pub data_root : Text
  pub driver : Text
  pub tinbase_bin : Text
  pub engine : Text
  pub image : Text
  pub fc_workloads : Text
  pub fc_bin : Text
  pub fc_kernel : Text
  pub fc_root : Text
  pub fc_pool : Text
  pub fc_max_live : ℤ
  pub docker_runtime : Text
  pub docker_host : Text
  pub idle_timeout : ℤ
  pub startup_wait : ℤ
  pub workload_env : Table Text
  pub tinbase_env : Table Text
  pub tinbase_smtp_host : Text
  pub tinbase_smtp_port : ℤ
  pub tinbase_smtp_admin_email : Text
  pub tinbase_smtp_sender_name : Text
  pub tinbase_sms_api_url : Text
  pub build_env : Table Text
  pub host_aliases : Table Text
  pub read_only_mounts : Table Text
  pub image_min_memory_mb : Table ℤ
  pub region : Text
  pub api_key_file : Text
  pub public_url : Text
  pub public_scheme : Text
  pub tinbase_mem_mb : ℤ
  pub tinbase_cpus : F
  pub dev_mem_mb : ℤ
  pub dev_cpus : F
  pub pids_limit : ℤ
  pub backup_dir : Text
  pub backup_interval : ℤ
  pub backup_retain : ℤ
  pub backup_types : List Text
  pub backup_retain_deleted : ℤ
  pub backup_before_reset : Bool
  pub backup_before_evict : Bool
  pub backup_dump_types : List Text
  pub backup_dump_image : Text
  pub backup_sweep : ℤ
  pub backup_sweep_batch : ℤ
  pub backup_s3_endpoint : Text
  pub backup_s3_bucket : Text
  pub backup_s3_region : Text
  pub backup_s3_prefix : Text
  pub backup_s3_access_key : Text
  pub backup_s3_secret_key : Text
  pub metrics_interval : ℤ
  pub reprovision_hook_timeout : ℤ
  pub wake_hook_timeout : ℤ
  pub lru_interval : ℤ
  pub lru_min_age : ℤ
  pub lru_batch : ℤ
  pub lru_activity_coalesce : ℤ
  pub state_dsn : Text
  pub state_sqlite : Text
  pub rate_limit_per_min : ℤ
  pub website_url : Text
  pub website_token : Text
  pub usage_interval : ℤ
  pub usage_buffer : ℤ

module _ (os : System) where
  abbrev gateway : Text
  gateway = env os (codes "ORCHD_GATEWAY_ADDR") (codes "127.0.0.1:8081")

  -- Local mode: the defaults of a stack without a domain.
  abbrev is_local : Bool
  is_local = env_bool os (codes "ORCHD_LOCAL")

  abbrev base_default : Text
  base_default = if is_local then codes "localhost" else codes "lvh.me"

  abbrev public_url_default : Text
  public_url_default = if is_local then codes "http://localhost" ++ port_suffix gateway else []

  unfoldable pub load : Config os.Float
  load = record {
    api_addr = env os (codes "ORCHD_API_ADDR") (codes "127.0.0.1:8080");
    gateway_addr = gateway;
    base_domain = env os (codes "ORCHD_BASE_DOMAIN") base_default;
    templates_dir = env os (codes "ORCHD_TEMPLATES_DIR") [];
    port_base = env_int os (codes "ORCHD_PORT_BASE") (pos 0);
    alt_domains = split_csv (env os (codes "ORCHD_ALT_DOMAINS") []);
    data_root = env os (codes "ORCHD_DATA_ROOT") (os.join_path os.home (codes ".tinbase-cloud"));
    driver = env os (codes "ORCHD_DRIVER") (codes "local");
    tinbase_bin = env os (codes "ORCHD_TINBASE_BIN") (codes "tinbase");
    engine = env os (codes "ORCHD_ENGINE") [];
    image = env os (codes "ORCHD_IMAGE") (codes "tinbase:0.22.2");
    fc_workloads = env os (codes "ORCHD_FC_WORKLOADS") [];
    fc_bin = env os (codes "ORCHD_FC_BIN") (codes "/opt/orchd/fc/firecracker");
    fc_kernel = env os (codes "ORCHD_FC_KERNEL") (codes "/opt/orchd/fc/vmlinux");
    fc_root = env os (codes "ORCHD_FC_ROOT") (codes "/opt/orchd/data/fc");
    fc_pool = env os (codes "ORCHD_FC_POOL") (codes "fcorchd");
    fc_max_live = env_int os (codes "ORCHD_FC_MAX_LIVE") (pos 0);
    docker_runtime = env os (codes "ORCHD_DOCKER_RUNTIME") (codes "runsc");
    docker_host = env os (codes "ORCHD_DOCKER_HOST") [];
    idle_timeout = env_duration os (codes "ORCHD_IDLE_TIMEOUT") (pos 300000000000);
    startup_wait = env_duration os (codes "ORCHD_GATEWAY_STARTUP_WAIT") (pos 60000000000);
    workload_env = env_map (os.getenv (codes "ORCHD_WORKLOAD_ENV"));
    tinbase_env = env_map (os.getenv (codes "ORCHD_TINBASE_ENV"));
    tinbase_smtp_host = env os (codes "ORCHD_TINBASE_SMTP_HOST") [];
    tinbase_smtp_port = env_int os (codes "ORCHD_TINBASE_SMTP_PORT") (pos 587);
    tinbase_smtp_admin_email = env os (codes "ORCHD_TINBASE_SMTP_ADMIN_EMAIL") [];
    tinbase_smtp_sender_name = env os (codes "ORCHD_TINBASE_SMTP_SENDER_NAME") [];
    tinbase_sms_api_url = env os (codes "ORCHD_TINBASE_SMS_API_URL") [];
    build_env = env_map (os.getenv (codes "ORCHD_BUILD_ENV"));
    host_aliases = env_map (os.getenv (codes "ORCHD_HOST_ALIASES"));
    read_only_mounts = env_map (os.getenv (codes "ORCHD_READONLY_MOUNTS"));
    image_min_memory_mb = env_int_map os (env_map (os.getenv (codes "ORCHD_IMAGE_MIN_MEMORY_MB")));
    region = env os (codes "ORCHD_REGION") (codes "local");
    api_key_file = env os (codes "ORCHD_API_KEY_FILE") [];
    public_url = env os (codes "ORCHD_PUBLIC_URL") public_url_default;
    public_scheme = env os (codes "ORCHD_PUBLIC_SCHEME") (codes "http");
    tinbase_mem_mb = env_int os (codes "ORCHD_TINBASE_MEM_MB") (pos 384);
    tinbase_cpus = env_float os (codes "ORCHD_TINBASE_CPUS") (os.float_of (codes "0.5"));
    dev_mem_mb = env_int os (codes "ORCHD_DEV_MEM_MB") (pos 3072);
    dev_cpus = env_float os (codes "ORCHD_DEV_CPUS") (os.float_of (codes "2.0"));
    pids_limit = env_int os (codes "ORCHD_PIDS_LIMIT") (pos 512);
    backup_dir = env os (codes "ORCHD_BACKUP_DIR") (
        os.join_path
          (env os (codes "ORCHD_DATA_ROOT") (os.join_path os.home (codes ".tinbase-cloud")))
          (codes "backups"));
    backup_interval = env_duration os (codes "ORCHD_BACKUP_INTERVAL") (pos 0);
    backup_retain = env_int os (codes "ORCHD_BACKUP_RETAIN") (pos 5);
    backup_types = split_csv (os.getenv (codes "ORCHD_BACKUP_TYPES"));
    backup_retain_deleted = env_int os (codes "ORCHD_BACKUP_RETAIN_DELETED") (negsuc 0);
    backup_before_reset = env_bool os (codes "ORCHD_BACKUP_BEFORE_RESET");
    backup_before_evict = env_bool os (codes "ORCHD_BACKUP_BEFORE_EVICT");
    backup_dump_types = split_csv (os.getenv (codes "ORCHD_BACKUP_DUMP_TYPES"));
    backup_dump_image = env os (codes "ORCHD_BACKUP_DUMP_IMAGE") [];
    backup_sweep = env_duration os (codes "ORCHD_BACKUP_SWEEP") (pos 600000000000);
    backup_sweep_batch = env_int os (codes "ORCHD_BACKUP_SWEEP_BATCH") (pos 20);
    backup_s3_endpoint = env os (codes "ORCHD_BACKUP_S3_ENDPOINT") [];
    backup_s3_bucket = env os (codes "ORCHD_BACKUP_S3_BUCKET") [];
    backup_s3_region = env os (codes "ORCHD_BACKUP_S3_REGION") [];
    backup_s3_prefix = env os (codes "ORCHD_BACKUP_S3_PREFIX") [];
    backup_s3_access_key = env os (codes "ORCHD_BACKUP_S3_ACCESS_KEY_ID") [];
    backup_s3_secret_key = env os (codes "ORCHD_BACKUP_S3_SECRET_ACCESS_KEY") [];
    metrics_interval = env_duration os (codes "ORCHD_METRICS_INTERVAL") (pos 60000000000);
    reprovision_hook_timeout =
        env_duration os (codes "ORCHD_REPROVISION_HOOK_TIMEOUT") (pos 30000000000);
    wake_hook_timeout = env_duration os (codes "ORCHD_WAKE_HOOK_TIMEOUT") (pos 20000000000);
    lru_interval = env_duration os (codes "ORCHD_LRU_INTERVAL") (pos 300000000000);
    lru_min_age = env_duration os (codes "ORCHD_LRU_MIN_AGE") (pos 86400000000000);
    lru_batch = env_int os (codes "ORCHD_LRU_BATCH") (pos 25);
    lru_activity_coalesce =
        env_duration os (codes "ORCHD_LRU_ACTIVITY_COALESCE") (pos 600000000000);
    state_dsn = env os (codes "ORCHD_STATE_DSN") [];
    state_sqlite = env os (codes "ORCHD_STATE_SQLITE") [];
    rate_limit_per_min = env_int os (codes "ORCHD_RATE_LIMIT") (pos 0);
    website_url =
        trim_right_byte b'/' (env os (codes "ORCHD_WEBSITE_URL") (os.getenv (codes "WEBSITE_URL")));
    website_token =
        env os (codes "ORCHD_WEBSITE_INTERNAL_TOKEN") (os.getenv (codes "WEBSITE_INTERNAL_TOKEN"));
    usage_interval = env_duration os (codes "ORCHD_USAGE_INTERVAL") (pos 60000000000);
    usage_buffer = env_duration os (codes "ORCHD_USAGE_BUFFER") (pos 3600000000000);
  }

-- What Validate refuses.
pub data Refusal : Type 0 where
  mail_key sms_token sms_account : Refusal

abbrev pub has_key : Text → Table Text → Bool
has_key k m = is_some (lookup k m)

unfoldable pub validate : {F : Type 0} → Config F → Option Refusal
validate c =
    if not (is_blank c.tinbase_smtp_host) && has_key (codes "TINBASE_RESEND_API_KEY") c.tinbase_env
    then some mail_key
    else if is_blank c.tinbase_sms_api_url
    then none
    else if has_key (codes "TINBASE_SMS_TWILIO_AUTH_TOKEN") c.tinbase_env
    then some sms_token
    else if has_key (codes "TINBASE_SMS_TWILIO_ACCOUNT_SID") c.tinbase_env
    then some sms_account
    else none
