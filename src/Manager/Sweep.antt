-- ===== src/Manager/Sweep.antt =====
-- How much one sweep of the backup scheduler takes (orchestrator/internal/manager/schedule.go).
use orchd.Prelude.{ℕ, ◌+◌, ◌≤◌, arith, Option, List, [], ◌∷◌, length}
use orchd.Store.Records.{Snapshot, Workload}
use orchd.Store.Query.{list_workloads}
use orchd.Manager.State.{Runtime}
use orchd.Manager.Vault.{Vault, BackupConfig, Site, batch_of}
use orchd.Manager.Schedule.{sweep_one, sweep_all, sweep_backups}

module _ {D : Type 0} (rt : Runtime) (v : Vault) (save : D → Snapshot → Option D)
    (cfg : BackupConfig) where
  -- A round takes one at most, and none when the batch is full.
  sweep_one-le :
      (now n : ℕ) (w : Workload) (s : Site D rt.Host v.Files)
      → n ≤ batch_of cfg.backup_sweep_batch
      → ((sweep_one rt v save cfg now n w s).1 ≤ batch_of cfg.backup_sweep_batch)
        × ((sweep_one rt v save cfg now n w s).1 ≤ n + 1)
  unfolding sweep_one
  sweep_one-le now n w s h = ground arith

  sweep_all-le :
      (now n : ℕ) (ws : List Workload) (s : Site D rt.Host v.Files)
      → n ≤ batch_of cfg.backup_sweep_batch
      → ((sweep_all rt v save cfg now n ws s).1 ≤ batch_of cfg.backup_sweep_batch)
        × ((sweep_all rt v save cfg now n ws s).1 ≤ n + length ws)
  unfolding sweep_all
  sweep_all-le now n [] s h = (h, omega arith)
  sweep_all-le now n (w ∷ ws) s h =
      let one = sweep_one-le now n w s h in
      let rest =
        sweep_all-le now (sweep_one rt v save cfg now n w s).1 ws
          (sweep_one rt v save cfg now n w s).2 one.0 in
      ground (arith, one, rest)

  -- One sweep backs up no more workloads than its batch, and than there are.
  pub sweep_backups-le :
      (now : ℕ) (s : Site D rt.Host v.Files)
      → ((sweep_backups rt v save cfg now s).0 ≤ batch_of cfg.backup_sweep_batch)
        × ((sweep_backups rt v save cfg now s).0 ≤ length (list_workloads [] s.fleet.store))
  unfolding sweep_backups
  sweep_backups-le now s =
      let taken = sweep_all-le now 0 (list_workloads [] s.fleet.store) s (omega arith) in
      ground (arith, taken)
