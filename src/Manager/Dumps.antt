-- ===== src/Manager/Dumps.antt =====
-- The dumps of databases (orchestrator/internal/manager/dump.go).
use orchd.Prelude.{
  ℕ, Text, codes, text_eq, Bool, true, false, not, ◌&&◌, Option, none, some, List, [], ◌∷◌,
  if◌then◌else◌, is_some,
}
use orchd.Table.{insert, remove}
use orchd.Store.Records.{Workload}
use orchd.Store.Query.{get_workload}
use orchd.Manager.State.{Runtime, is_running}
use orchd.Manager.Vault.{
  DumpManifest, DumpState, Backup, Vault, DumpError, disabled, export_failed, put_failed,
  write_failed, seal_failed, workload_gone, BackupRuns, BackupConfig, Site,
}

unfoldable pub is_backup : Text → List Backup → Bool
is_backup id [] = false
is_backup id (b ∷ bs) = if text_eq b.id id then true else is_backup id bs

-- The dump state without its seal, and with one.
unfoldable pub new_state : ℕ → DumpManifest → Text → DumpState
new_state now man id = record {
  at = now;
  content_hash = man.content_hash;
  pristine = man.pristine;
  backup_id = id;
  pg_control = [];
}

unfoldable pub has_content : Text → Option DumpState → Bool
has_content hash none = false
has_content hash (some st) = text_eq st.content_hash hash && not (text_eq st.backup_id (codes ""))

abbrev pub backup_id_of : Option DumpState → Text
backup_id_of none = []
backup_id_of (some st) = st.backup_id

-- backupRuns.dumped
unfoldable pub dumped : Text → Option DumpError → ℕ → BackupRuns → BackupRuns
dumped id none now r = record r { failed = remove id r.failed }
dumped id (some e) now r = record r { failed = insert id (record { at = now; error = e }) r.failed }

module _ (v : Vault) where
  open v use {Files, clock, read_state, fingerprint, write_state, export_dump, list, put, retain}

  unfoldable pub dump_current : Files → Workload → Bool
  dump_current f w = elim (read_state f w.data_dir) [
    | none ↦ false
    | some st ↦
        if text_eq st.pg_control (codes "")
        then false
        else elim (fingerprint f w.data_dir) [ none ↦ false | some fp ↦ text_eq fp st.pg_control ]
  ]

  unfoldable pub write_or : DumpError → Text → DumpState → Files → Option DumpError × Files
  write_or e dir st f =
      let (written, f') = write_state dir st f in (if written then none else some e, f')

  -- sealDump
  unfoldable pub seal_dump : Workload → Files → Option DumpError × Files
  unfolding write_or
  seal_dump w f = elim (read_state f w.data_dir) [
    | none ↦ (some seal_failed, f)
    | some st ↦ elim (fingerprint f w.data_dir) [
      | none ↦ (some seal_failed, f)
      | some fp ↦ write_or seal_failed w.data_dir (record st { pg_control = fp }) f
    ]
  ]

  unfoldable pub has_backup : Files → Text → Text → Bool
  unfolding is_backup
  has_backup f workload_id id = elim (list f workload_id) [
    | none ↦ false
    | some bs ↦ is_backup id bs
  ]

  -- The last case of storeDump: the export is put into the backup store.
  unfoldable pub put_dump : Workload → ℕ → DumpManifest → Files → Option DumpError × Files
  unfolding write_or new_state
  put_dump w now man f =
      let (stored, f') = put w.id f in
      elim stored [
        | none ↦ (some put_failed, f')
        | some b ↦ write_or write_failed w.data_dir (new_state now man b.id) (retain w.id f')
      ]

  unfoldable pub store_dump : Workload → DumpManifest → Bool → Files → Option DumpError × Files
  unfolding put_dump has_content has_backup
  store_dump w man force f =
      let prev = read_state f w.data_dir in
      if man.pristine && not force
      then write_or write_failed w.data_dir (new_state (clock f) man []) f
      else if (not force && has_content man.content_hash prev)
          && has_backup f w.id (backup_id_of prev)
      then write_or write_failed w.data_dir (new_state (clock f) man (backup_id_of prev)) f
      else put_dump w (clock f) man f

  -- The end of backupDumpOnce: what a database that does not run is left with is sealed.
  unfoldable pub sealed_unless :
      Bool → Workload → Option DumpError × Files → Option DumpError × Files
  unfolding seal_dump
  sealed_unless runs w (some e, f) = (some e, f)
  sealed_unless runs w (none, f) = if runs then (none, f) else seal_dump w f

  -- backupDumpOnce, with a backup store
  unfoldable pub backup_dump_once : Workload → Bool → Bool → Files → Option DumpError × Files
  unfolding store_dump sealed_unless
  backup_dump_once w runs force f =
      let (man, f') = export_dump w runs f in
      elim man [
        | none ↦ (some export_failed, f')
        | some mf ↦ sealed_unless runs w (store_dump w mf force f')
      ]

-- Whether the driver says that a workload runs.
module _ {D : Type 0} (rt : Runtime) (v : Vault) where
  unfoldable pub runs_now : Workload → Site D rt.Host v.Files → Bool
  runs_now w s = is_running (rt.status s.fleet.host w.id)

module _ {D : Type 0} (rt : Runtime) (v : Vault) (cfg : BackupConfig) where
  -- backupDump; the stored backup and the note are left out.
  unfoldable pub backup_dump :
      Workload → Bool → Site D rt.Host v.Files → Option DumpError × Site D rt.Host v.Files
  unfolding backup_dump_once runs_now
  backup_dump w force s =
      let (e, f) =
        if cfg.enabled
        then backup_dump_once v w (runs_now rt v w s) force s.files
        else (some disabled, s.files) in
      (e, record s { files = f; runs = dumped w.id e (v.clock f) s.runs })

  -- dailyDump
  unfoldable pub daily_dump :
      Workload → Site D rt.Host v.Files → Option DumpError × Site D rt.Host v.Files
  unfolding backup_dump
  daily_dump w s =
      if not (is_some (get_workload w.id s.fleet.store))
      then (some workload_gone, s)
      else if not (runs_now rt v w s) && dump_current v s.files w
      then (none, s)
      else backup_dump w false s
