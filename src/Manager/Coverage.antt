-- ===== src/Manager/Coverage.antt =====
-- Whether the box holds anything that is not backed up: Coverage and DrainBackups of
-- orchestrator/internal/manager/schedule.go.
use orchd.Prelude.{
  ℕ, ◌+◌, Text, Bool, true, false, not, ◌&&◌, Option, none, some, List, [], ◌∷◌, ◌==◌,
  if◌then◌else◌, is_some,
}
use orchd.Table.{lookup}
use orchd.Store.Records.{Snapshot, Workload}
use orchd.Store.Query.{list_workloads}
use orchd.Manager.State.{Runtime}
use orchd.Manager.Vault.{
  DumpState, Backup, Vault, DumpError, DumpFailure, BackupRuns, BackupConfig, Site, backs_up, dumps,
}
use orchd.Manager.Dumps.{dump_current, runs_now}
use orchd.Manager.Schedule.{
  is_within, first_backup, unchanged_since_backup, newest_backup, state_backup_key, back_up,
  state_backup,
}

-- The statuses of a workload, and the count of those that are not backed up.
pub data Cover : Type 0 where
  current recent stale failed not_backed_up : Cover

-- WorkloadCoverage, with what the report does not take from the workload itself
pub record WorkloadCoverage : Type 0 where
  pub workload : Workload
  pub status : Cover
  pub pristine : Bool
  pub backup_at : Option ℕ
  pub backup_id : Text
  pub error : Option DumpError

pub record BackupCoverage : Type 0 where
  pub at : ℕ
  pub safe_to_wipe : Bool
  -- what Totals maps a status to
  pub totals : Cover → ℕ
  pub state_backup_at : Option ℕ
  pub workloads : List WorkloadCoverage

abbrev pub is_cover : Cover → Cover → Bool
is_cover current current = true
is_cover recent recent = true
is_cover stale stale = true
is_cover failed failed = true
is_cover not_backed_up not_backed_up = true
is_cover _ _ = false

-- c.Totals[status]++
unfoldable pub count : Cover → (Cover → ℕ) → Cover → ℕ
count status totals c = if is_cover status c then totals c + 1 else totals c

abbrev backup_of : Workload → Option Backup → WorkloadCoverage
backup_of w none = record {
  workload = w;
  status = stale;
  pristine = false;
  backup_at = none;
  backup_id = [];
  error = none;
}
backup_of w (some b) = record {
  workload = w;
  status = stale;
  pristine = false;
  backup_at = some b.created_at;
  backup_id = b.id;
  error = none;
}

abbrev dump_of : Workload → Option DumpState → WorkloadCoverage
dump_of w none = record {
  workload = w;
  status = stale;
  pristine = false;
  backup_at = none;
  backup_id = [];
  error = none;
}
dump_of w (some st) = record {
  workload = w;
  status = stale;
  pristine = st.pristine;
  backup_at = some st.at;
  backup_id = st.backup_id;
  error = none;
}

abbrev error_of : Option DumpFailure → Option DumpError
error_of none = none
error_of (some f) = some f.error

abbrev pub time_of : Option Backup → Option ℕ
time_of none = none
time_of (some b) = some b.created_at

abbrev pub is_recent : ℕ → ℕ → Option ℕ → Bool
is_recent now interval none = false
is_recent now interval (some at) = is_within now at interval

abbrev pub state_time : Option DumpState → Option ℕ
state_time none = none
state_time (some st) = some st.at

module _ (v : Vault) (cfg : BackupConfig) where
  open v use {Files, clock, read_state, list}

  -- The status of coverDump.
  unfoldable pub dump_status : ℕ → Bool → Workload → Files → BackupRuns → Cover
  dump_status now runs w f r =
      if dump_current v f w
      then current
      else if runs && is_recent now cfg.backup_interval (state_time (read_state f w.data_dir))
      then recent
      else if is_some (lookup w.id r.failed)
      then failed
      else stale

  -- The status of coverTar.
  unfoldable pub tar_status : ℕ → Workload → Files → Cover
  tar_status now w f =
      let at = time_of (first_backup (list f w.id)) in
      if is_some at && unchanged_since_backup v f w
      then current
      else if is_recent now cfg.backup_interval at
      then recent
      else stale

  unfoldable pub cover_dump : ℕ → Bool → Workload → Files → BackupRuns → WorkloadCoverage
  unfolding dump_status
  cover_dump now runs w f r = record (dump_of w (read_state f w.data_dir)) {
    status = dump_status now runs w f r;
    error = error_of (lookup w.id r.failed);
  }

  unfoldable pub cover_tar : ℕ → Workload → Files → WorkloadCoverage
  unfolding tar_status
  cover_tar now w f = record (backup_of w (first_backup (list f w.id))) {
    status = tar_status now w f;
  }

module _ {D : Type 0} (rt : Runtime) (v : Vault) (save : D → Snapshot → Option D)
    (cfg : BackupConfig) where
  unfoldable pub cover : ℕ → Workload → Site D rt.Host v.Files → WorkloadCoverage
  cover now w s =
      if dumps cfg w.kind
      then cover_dump v cfg now (runs_now rt v w s) w s.files s.runs
      else cover_tar v cfg now w s.files

  -- The loop of Coverage.
  unfoldable pub cover_all :
      ℕ → List Workload → Site D rt.Host v.Files → (Cover → ℕ) → (Cover → ℕ) × List WorkloadCoverage
  cover_all now [] s totals = (totals, [])
  cover_all now (w ∷ ws) s totals =
      let wc = cover now w s in
      let status = if backs_up cfg w.kind then wc.status else not_backed_up in
      let (totals', wcs) = cover_all now ws s (count status totals) in
      (totals', if backs_up cfg w.kind then wc ∷ wcs else wcs)

  -- Coverage; `none` is ErrBackupsDisabled.
  unfoldable pub coverage : Site D rt.Host v.Files → Option BackupCoverage
  unfolding cover_all
  coverage s =
      let now = v.clock s.files in
      let (totals, wcs) = cover_all now (list_workloads [] s.fleet.store) s (λ c. 0) in
      let at = newest_backup v s.files state_backup_key in
      if cfg.enabled
      then some (record {
        at = now;
        safe_to_wipe = (not (at == 0) && totals stale == 0) && totals failed == 0;
        totals = totals;
        state_backup_at = if at == 0 then none else some at;
        workloads = wcs;
      })
      else none

  -- One round of backupAll's loop; its error is dropped.
  unfoldable pub back_up_all : List Workload → Site D rt.Host v.Files → Site D rt.Host v.Files
  unfolding back_up
  back_up_all [] s = s
  back_up_all (w ∷ ws) s = back_up_all ws (
      if not (backs_up cfg w.kind)
      then s
      else if (not (dumps cfg w.kind) && cfg.enabled) && unchanged_since_backup v s.files w
      then s
      else (back_up rt v save cfg w s).1)

  -- DrainBackups, whose backupAll is the loop over all workloads and the state's backup
  unfoldable pub drain_backups :
      Site D rt.Host v.Files → Option BackupCoverage × Site D rt.Host v.Files
  unfolding back_up_all coverage
  drain_backups s =
      let s' = state_backup rt v save cfg (back_up_all (list_workloads [] s.fleet.store) s) in
      if cfg.enabled then (coverage s', s') else (none, s)
