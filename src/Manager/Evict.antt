-- ===== src/Manager/Evict.antt =====
-- The eviction of projects with their backups: ReapLRU and backupBeforeEvict of
-- orchestrator/internal/manager/eviction.go.
use orchd.Prelude.{
  ℕ, Text, Bool, not, ◌&&◌, Option, none, some, List, [], ◌∷◌, if◌then◌else◌, is_some,
}
use orchd.Prelude.Int.{ℤ}
use orchd.Store.Records.{Snapshot, Workload}
use orchd.Store.Query.{get_workload, list_workloads}
use orchd.Manager.State.{Runtime}
use orchd.Manager.Eviction.{lru_victims}
use orchd.Manager.Routes.{delete_project}
use orchd.Manager.Vault.{
  Vault, DumpError, workload_gone, archive_failed, BackupConfig, Site, backs_up, dumps,
}
use orchd.Manager.Dumps.{daily_dump}
use orchd.Manager.Schedule.{unchanged_since_backup, archive_workload}

module _ {D : Type 0} (rt : Runtime) (v : Vault) (save : D → Snapshot → Option D)
    (cfg : BackupConfig) where
  -- BackupWorkload of a workload that is archived, with a backup store
  unfoldable pub backup_archive :
      Text → Site D rt.Host v.Files → Option DumpError × Site D rt.Host v.Files
  backup_archive id s = elim (get_workload id s.fleet.store) [
    | none ↦ (some workload_gone, s)
    | some w ↦
        let (b, s') = archive_workload rt v save cfg w s in
        (if is_some b then none else some archive_failed, s')
  ]

  -- One workload of backupBeforeEvict.
  unfoldable pub evict_backup :
      Workload → Site D rt.Host v.Files → Option DumpError × Site D rt.Host v.Files
  evict_backup w s =
      if not (backs_up cfg w.kind)
      then (none, s)
      else if dumps cfg w.kind
      then daily_dump rt v cfg w s
      else if unchanged_since_backup v s.files w
      then (none, s)
      else backup_archive w.id s

  -- backupBeforeEvict's loop, which ends at the first error.
  unfoldable pub evict_backups :
      List Workload → Site D rt.Host v.Files → Option DumpError × Site D rt.Host v.Files
  evict_backups [] s = (none, s)
  evict_backups (w ∷ ws) s =
      let (e, s') = evict_backup w s in
      let rest = evict_backups ws s' in if is_some e then (e, s') else rest

  -- backupBeforeEvict; `wanted` is BackupBeforeEvict.
  unfoldable pub backup_before_evict :
      Bool → Text → Site D rt.Host v.Files → Option DumpError × Site D rt.Host v.Files
  backup_before_evict wanted id s =
      let all = evict_backups (list_workloads id s.fleet.store) s in
      if not (wanted && cfg.enabled) then (none, s) else all

  -- One victim: it is deleted when its backups went through; the error of the deletion is logged.
  unfoldable pub evict_one : Bool → Text → Site D rt.Host v.Files → Site D rt.Host v.Files
  evict_one wanted id s =
      let (e, s') = backup_before_evict wanted id s in
      if is_some e then s' else record s' { fleet = (delete_project rt save id s'.fleet).0 }

  unfoldable pub evict_all : Bool → List Text → Site D rt.Host v.Files → Site D rt.Host v.Files
  evict_all wanted [] s = s
  evict_all wanted (id ∷ ids) s = evict_all wanted ids (evict_one wanted id s)

  -- ReapLRU at a time, with its batch and minimal age
  unfoldable pub reap_lru : Bool → ℤ → ℕ → ℕ → Site D rt.Host v.Files → Site D rt.Host v.Files
  reap_lru wanted batch min_age now s =
      evict_all wanted (lru_victims batch min_age now s.fleet.store) s
