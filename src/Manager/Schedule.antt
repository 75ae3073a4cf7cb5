-- ===== src/Manager/Schedule.antt =====
-- The backups that fall due (orchestrator/internal/manager/schedule.go), and BackupWorkload of
-- orchestrator/internal/manager/manager.go for the workloads that are archived.
use orchd.Prelude.{
  ℕ, suc, ◌+◌, Text, codes, text_eq, Bool, true, false, not, ◌&&◌, Option, none, some, List, [],
  ◌∷◌, ltb, leb, ◌==◌, if◌then◌else◌, is_some,
}
use orchd.Table.{lookup, insert}
use orchd.Store.Records.{Snapshot, Workload, running, suspended}
use orchd.Store.Query.{get_workload, list_workloads}
use orchd.Manager.State.{Runtime, Manager, set_state, forget, mark_live}
use orchd.Manager.Vault.{
  Backup, Vault, DumpError, disabled, workload_gone, archive_failed, DumpFailure, BackupRuns,
  BackupConfig, Site, backs_up, dumps, batch_of,
}
use orchd.Manager.Dumps.{dump_current, runs_now, daily_dump}

-- dumpRetryAfter, in nanoseconds
abbrev pub dump_retry_after : ℕ
dump_retry_after = 3600000000000

abbrev pub state_backup_key : Text
state_backup_key = codes "_control-plane"

-- now.Sub(at) < d
abbrev pub is_within : ℕ → ℕ → ℕ → Bool
is_within now at d = ltb now (at + d)

-- The head of a list of backups, the newest first; `none` for an error too.
abbrev pub first_backup : Option (List Backup) → Option Backup
first_backup none = none
first_backup (some []) = none
first_backup (some (b ∷ bs)) = some b

abbrev pub created_or_zero : Option Backup → ℕ
created_or_zero none = 0
created_or_zero (some b) = b.created_at

abbrev pub is_recent_failure : ℕ → Option DumpFailure → Bool
is_recent_failure now none = false
is_recent_failure now (some f) = is_within now f.at dump_retry_after

-- How a round of the sweep ends: with the next one, for the batch is full, or the disk is busy.
pub data Verdict : Type 0 where
  next full busy : Verdict

-- backupRuns.check
unfoldable pub check : Text → ℕ → BackupRuns → BackupRuns
check id at r = record r { checked = insert id at r.checked }

module _ (v : Vault) where
  open v use {Files, clock, read_state, list, archive, retain, is_unwritten}

  unfoldable pub newest_backup : Files → Text → ℕ
  newest_backup f id = created_or_zero (first_backup (list f id))

  unfoldable pub unchanged_since_backup : Files → Workload → Bool
  unchanged_since_backup f w = elim (first_backup (list f w.id)) [
    | none ↦ false
    | some b ↦ not (text_eq w.data_dir (codes "")) && is_unwritten f w.data_dir b.created_at
  ]

  -- checkedAt: what is remembered, else what the backup store says, which is then remembered.
  unfoldable pub checked_at : Files → Text → BackupRuns → ℕ × BackupRuns
  checked_at f id r = elim (lookup id r.checked) [
    | some at ↦ (at, r)
    | none ↦ (newest_backup f id, check id (newest_backup f id) r)
  ]

  unfoldable pub tar_due : BackupConfig → ℕ → Workload → Files → BackupRuns → Bool × BackupRuns
  unfolding checked_at
  tar_due cfg now w f r =
      let (at, r') = checked_at f w.id r in
      if is_within now at cfg.backup_interval
      then (false, r')
      else if unchanged_since_backup f w
      then (false, check w.id now r')
      else (true, r')

  unfoldable pub dump_due : BackupConfig → ℕ → Bool → Workload → Files → BackupRuns → Bool
  dump_due cfg now runs w f r =
      if dump_current v f w
      then false
      else if is_recent_failure now (lookup w.id r.failed)
      then false
      else elim (read_state f w.data_dir) [
        | none ↦ true
        | some st ↦ if not runs then true else not (is_within now st.at cfg.backup_interval)
      ]

module _ {D : Type 0} (rt : Runtime) (v : Vault) (save : D → Snapshot → Option D)
    (cfg : BackupConfig) where
  -- Whether a workload is due: the body of sweepBackups' loop up to `due`.
  unfoldable pub is_due : ℕ → Workload → Site D rt.Host v.Files → Bool × BackupRuns
  unfolding dump_due runs_now
  is_due now w s =
      if dumps cfg w.kind
      then (dump_due v cfg now (runs_now rt v w s) w s.files s.runs, s.runs)
      else tar_due v cfg now w s.files s.runs

  -- BackupWorkload of a workload that runs: it is suspended for the archive and started again.
  unfoldable pub paused : Text → Manager D rt.Host → Manager D rt.Host
  paused id m =
      forget id (set_state save id suspended (record m { host = (rt.suspend id m.host).1 }))

  unfoldable pub resumed : ℕ → Workload → Manager D rt.Host → Manager D rt.Host
  resumed now w m =
      let (addr, host) = rt.start w m.host in
      elim addr [
        | none ↦ record m { host = host }
        | some a ↦ mark_live w.id a now (set_state save w.id running (record m { host = host }))
      ]

  unfoldable pub archive_workload :
      Workload → Site D rt.Host v.Files → Option Backup × Site D rt.Host v.Files
  unfolding paused resumed runs_now
  archive_workload w s =
      let runs = runs_now rt v w s in
      let m = if runs then paused w.id s.fleet else s.fleet in
      let (b, f) = v.archive w.id w.data_dir s.files in
      let m' = if runs then resumed (v.clock f) w m else m in
      (b, record s { fleet = m'; files = if is_some b then v.retain w.id f else f })

  unfoldable pub tar_backup :
      Workload → Site D rt.Host v.Files → Option DumpError × Site D rt.Host v.Files
  unfolding archive_workload
  tar_backup listed s = elim (if cfg.enabled then get_workload listed.id s.fleet.store else none) [
    | none ↦ (some (if cfg.enabled then workload_gone else disabled), s)
    | some w ↦
        let (b, s') = archive_workload w s in
        elim b [
          | none ↦ (some archive_failed, s')
          | some bk ↦ (none, record s' { runs = check listed.id bk.created_at s'.runs })
        ]
  ]

  -- The backup of one workload in a sweep.
  unfoldable pub back_up :
      Workload → Site D rt.Host v.Files → Option DumpError × Site D rt.Host v.Files
  unfolding tar_backup
  back_up w s = if dumps cfg w.kind then daily_dump rt v cfg w s else tar_backup w s

  -- One round of sweepBackups' loop, with the number taken so far.
  unfoldable pub sweep_one :
      ℕ → ℕ → Workload → Site D rt.Host v.Files → Verdict × ℕ × Site D rt.Host v.Files
  sweep_one now n w s =
      let (due, r) = is_due now w s in
      let (failure, after) = back_up w (record s { runs = r }) in
      if leb (batch_of cfg.backup_sweep_batch) n
      then (full, n, s)
      else if not (backs_up cfg w.kind)
      then (next, n, s)
      else if not due
      then (next, n, record s { runs = r })
      else if v.is_busy s.files
      then (busy, n, record s { runs = r })
      else (next, if is_some failure then n else suc n, after)

  unfoldable pub sweep_all :
      ℕ → ℕ → List Workload → Site D rt.Host v.Files → Bool × ℕ × Site D rt.Host v.Files
  sweep_all now n [] s = (true, n, s)
  sweep_all now n (w ∷ ws) s =
      let (verdict, n', s') = sweep_one now n w s in
      let rest = sweep_all now n' ws s' in
      elim verdict [ next ↦ rest | full ↦ (true, n', s') | busy ↦ (false, n', s') ]

  -- stateBackupAt, and what it remembers
  unfoldable pub state_backup_at : Site D rt.Host v.Files → ℕ × Site D rt.Host v.Files
  state_backup_at s =
      if s.runs.state_at == 0
      then (
        newest_backup v s.files state_backup_key,
        record s { runs = record s.runs { state_at = newest_backup v s.files state_backup_key } },
      )
      else (s.runs.state_at, s)

  -- stateBackup, with a backup store
  unfoldable pub state_backup : Site D rt.Host v.Files → Site D rt.Host v.Files
  state_backup s =
      let (b, f) = v.archive state_backup_key cfg.state_dir s.files in
      elim b [
        | none ↦ record s { files = f }
        | some bk ↦ record s {
          files = v.retain state_backup_key f;
          runs = record s.runs { state_at = bk.created_at };
        }
      ]

  unfoldable pub sweep_state : ℕ → Site D rt.Host v.Files → Site D rt.Host v.Files
  unfolding state_backup_at state_backup
  sweep_state now s =
      let (at, s') = state_backup_at s in
      if is_within now at cfg.backup_interval then s' else state_backup s'

  -- sweepBackups: the number of workloads that it backed up
  unfoldable pub sweep_backups : ℕ → Site D rt.Host v.Files → ℕ × Site D rt.Host v.Files
  sweep_backups now s =
      let (ended, n, s') = sweep_all now 0 (list_workloads [] s.fleet.store) s in
      if cfg.enabled then (n, if ended then sweep_state now s' else s') else (0, s)
