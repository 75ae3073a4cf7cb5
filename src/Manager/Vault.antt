-- ===== src/Manager/Vault.antt =====
-- What the backups read and write: the files of the workloads and the backup store, as parameters
-- (readDumpState, writeDumpState, pgControlFingerprint and exportDump of
-- orchestrator/internal/manager/dump.go, the interface Store of
-- orchestrator/internal/backup/store.go, ioBusy of orchestrator/internal/manager/schedule.go),
-- and the state of the scheduler.
use orchd.Prelude.{
  ℕ, zero, suc, Text, Bool, true, false, ◌&&◌, Option, List, [], ◌∷◌, text_eq, ◌||◌,
}
use orchd.Prelude.Int.{ℤ, pos, negsuc}
use orchd.Table.{Table}
use orchd.Store.Records.{Workload}
use orchd.Manager.State.{Manager}

-- The part of a tinbase export's manifest that is read
pub record DumpManifest : Type 0 where
  pub content_hash : Text
  pub pristine : Bool

pub record DumpState : Type 0 where
  pub at : ℕ
  pub content_hash : Text
  pub pristine : Bool
  pub backup_id : Text
  pub pg_control : Text

-- backup.Backup
pub record Backup : Type 0 where
  pub id : Text
  pub created_at : ℕ

pub record Vault : Type 1 where
  pub Files : Type 0
  -- time.Now
  pub clock : Files → ℕ
  -- ioBusy
  pub is_busy : Files → Bool
  -- of a data directory; `none` is an error
  pub read_state : Files → Text → Option DumpState
  pub fingerprint : Files → Text → Option Text
  -- whether the state was written
  pub write_state : Text → DumpState → Files → Bool × Files
  -- exportDump, of a workload that runs or not
  pub export_dump : Workload → Bool → Files → Option DumpManifest × Files
  -- whether the walk of unchangedSinceBackup ends well and finds nothing written after a time
  pub is_unwritten : Files → Text → ℕ → Bool
  -- List, Put with KindDump, Create and Retain of the backup store
  pub list : Files → Text → Option (List Backup)
  pub put : Text → Files → Option Backup × Files
  pub archive : Text → Text → Files → Option Backup × Files
  pub retain : Text → Files → Files

pub data DumpError : Type 0 where
  disabled export_failed put_failed write_failed seal_failed workload_gone archive_failed :
      DumpError

pub record DumpFailure : Type 0 where
  pub at : ℕ
  pub error : DumpError

pub record BackupRuns : Type 0 where
  pub failed : Table DumpFailure
  pub checked : Table ℕ
  pub state_at : ℕ

pub record BackupConfig : Type 0 where
  -- whether there is a backup store
  pub enabled : Bool
  -- whether the driver runs commands in a workload (execer)
  pub is_execer : Bool
  pub backup_types : List Text
  pub backup_dump_types : List Text
  pub backup_interval : ℕ
  pub backup_sweep_batch : ℤ
  pub state_dir : Text

pub record Site (D H F : Type 0) : Type 0 where
  pub fleet : Manager D H
  pub files : F
  pub runs : BackupRuns

unfoldable pub is_listed : Text → List Text → Bool
is_listed t [] = false
is_listed t (x ∷ xs) = text_eq x t || is_listed t xs

-- backsUp
unfoldable pub backs_up : BackupConfig → Text → Bool
unfolding is_listed
backs_up cfg t = elim cfg.backup_types [ [] ↦ true | x ∷ xs ↦ is_listed t (x ∷ xs) ]

-- dumps
unfoldable pub dumps : BackupConfig → Text → Bool
unfolding is_listed
dumps cfg t = cfg.is_execer && is_listed t cfg.backup_dump_types

-- The batch of a sweep: 20 when none is configured.
unfoldable pub batch_of : ℤ → ℕ
batch_of (negsuc n) = 20
batch_of (pos zero) = 20
batch_of (pos (suc n)) = suc n
