-- ===== src/Manager/Reset.antt =====
-- Resetting and restoring a workload (orchestrator/internal/manager/manager.go). The working tree
-- is the parameter `Tree`: what wipes, fills and unpacks a data directory.
use orchd.Prelude.{
  ℕ, Text, Bool, true, false, not, ◌&&◌, Option, none, some, if◌then◌else◌, is_some,
}
use orchd.Store.Records.{Snapshot, Workload, failed}
use orchd.Store.Query.{get_workload}
use orchd.Manager.State.{Runtime, Config, forget, set_state}
use orchd.Manager.Lifecycle.{boot, came_up}
use orchd.Manager.Vault.{Vault, DumpError, workload_gone, BackupConfig, Site, backs_up, dumps}
use orchd.Manager.Dumps.{backup_dump}
use orchd.Manager.Evict.{backup_archive}

pub data ResetError : Type 0 where
  disabled no_workload backup_failed wipe_failed restore_failed boot_failed : ResetError

pub record Tree (F : Type 0) : Type 0 where
  -- reclaimPath and os.MkdirAll; whether the directory could be made
  pub wipe : Text → F → Bool × F
  -- materializeWorkload with the files that the caller sends
  pub materialize : Workload → F → F
  -- Fetch or Restore of a backup; whether it went through
  pub unpack : Text → Workload → F → Bool × F

module _ {D : Type 0} (rt : Runtime) (v : Vault) (tree : Tree v.Files)
    (save : D → Snapshot → Option D) (config : Config) (cfg : BackupConfig) (now : ℕ) where
  -- BackupWorkload, with a backup store
  unfoldable pub backup_workload :
      Text → Site D rt.Host v.Files → Option DumpError × Site D rt.Host v.Files
  backup_workload id s = elim (get_workload id s.fleet.store) [
    | none ↦ (some workload_gone, s)
    | some w ↦
        if dumps cfg w.kind
        then backup_dump rt v cfg w true s
        else backup_archive rt v save cfg id s
  ]

  -- The container is removed, and the data directory is wiped.
  unfoldable pub cleared : Workload → Site D rt.Host v.Files → Bool × Site D rt.Host v.Files
  cleared w s =
      let (made, f) = tree.wipe w.data_dir s.files in
      (
        made,
        record s {
          fleet = forget w.id (record s.fleet { host = rt.stop w.id s.fleet.host });
          files = f;
        },
      )

  -- The boot that ends a reset.
  unfoldable pub booted :
      Workload → Site D rt.Host v.Files → Option ResetError × Site D rt.Host v.Files
  booted w s =
      let (e, m) = boot rt save config now w s.fleet in
      (if is_some e then some boot_failed else none, record s { fleet = m })

  unfoldable pub refill_and_boot :
      Workload → Bool × Site D rt.Host v.Files → Option ResetError × Site D rt.Host v.Files
  refill_and_boot w (false, s) = (some wipe_failed, s)
  refill_and_boot w (true, s) = booted w (record s { files = tree.materialize w s.files })

  -- ResetWorkload; `backup_first` is BackupBeforeReset.
  unfoldable pub reset_workload :
      Bool → Text → Site D rt.Host v.Files → Option ResetError × Site D rt.Host v.Files
  reset_workload backup_first id s = elim (get_workload id s.fleet.store) [
    | none ↦ (some no_workload, s)
    | some w ↦
        let wanted = backup_first && (backs_up cfg w.kind && cfg.enabled) in
        let (e, backed) = backup_workload id s in
        if not wanted
        then refill_and_boot w (cleared w s)
        else if is_some e
        then (some backup_failed, backed)
        else refill_and_boot w (cleared w backed)
  ]

  -- RestoreWorkloadWith, of which `refresh` says whether files are refreshed or sent: it starts the workload, and a failed step leaves it marked as failed.
  unfoldable pub started :
      Workload → Site D rt.Host v.Files → Option ResetError × Site D rt.Host v.Files
  started w s =
      let (addr, host) = rt.start w s.fleet.host in
      let m = record s.fleet { host = host } in
      elim addr [
        | none ↦ (some boot_failed, record s { fleet = set_state save w.id failed m })
        | some a ↦ (none, record s { fleet = came_up rt save config now w.id a m })
      ]

  unfoldable pub unpack_and_start :
      Bool
      → Text
      → Workload
      → Bool × Site D rt.Host v.Files
      → Option ResetError × Site D rt.Host v.Files
  unpack_and_start refresh backup_id w (false, s) = (some wipe_failed, s)
  unpack_and_start refresh backup_id w (true, s) =
      let (unpacked, f) = tree.unpack backup_id w s.files in
      let f' = if refresh then tree.materialize w f else f in
      if unpacked
      then started w (record s { files = f' })
      else (some restore_failed, record s { fleet = set_state save w.id failed s.fleet; files = f })

  unfoldable pub restore_workload :
      Bool → Text → Text → Site D rt.Host v.Files → Option ResetError × Site D rt.Host v.Files
  restore_workload refresh id backup_id s =
      elim (if cfg.enabled then get_workload id s.fleet.store else none) [
        | none ↦ (some (if cfg.enabled then no_workload else disabled), s)
        | some w ↦ unpack_and_start refresh backup_id w (cleared w s)
      ]
