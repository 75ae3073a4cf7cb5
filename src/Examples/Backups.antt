-- ===== src/Examples/Backups.antt =====
-- Backups over files and a backup store that are tables.
use orchd.Prelude.{
  ℕ, ◌+◌, ◌≡◌, refl, arith, subst, Text, codes, text_eq, Bool, true, false, not, ◌&&◌, Option, none,
  some, List, [], ◌∷◌, All, ◌⊎◌,
}
use orchd.Prelude.Int.{pos}
use orchd.Prelude.Sorting.{sort_by, insert_by}
use orchd.Table.{Table, values, lookup, insert, lookup-insert_self}
use orchd.Store.Records.{Workload, State}
use orchd.Store.Query.{list_workloads, get_workload, get_project}
use orchd.Store.Ops.{run, call}
use orchd.Store.Mem.{put_workload, flush, put_project, restore}
use orchd.Manager.Vault.{
  DumpManifest, DumpState, Backup, Vault, BackupRuns, BackupConfig, Site, backs_up, dumps,
  is_listed,
}
use orchd.Manager.Dumps.{runs_now, daily_dump, dump_current}
use orchd.Manager.Schedule.{dump_due, is_due, is_recent_failure, newest_backup, checked_at}
use orchd.Manager.Coverage.{count, cover, cover_dump, cover_all, dump_status, coverage}
use orchd.Manager.Due.{is_at_risk, is_safe, IsUpToDate, dump_due-at_risk, coverage-is_due}
use orchd.Manager.Dumped.{IsVault, daily_dump-dump_due}
use orchd.Manager.Evict.{reap_lru}
use orchd.Manager.Evicted.{reap_lru-get_project}
use orchd.Manager.Victims.{IsEvictable}
use orchd.Examples.Store.{Disk, keep_last, workload_of}
use orchd.Examples.Manager.{driver, up, two_projects, two_projects-IsWellKeyed}

pub record Box : Type 0 where
  time : ℕ
  states : Table DumpState
  archives : List Backup

abbrev backup_at : ℕ → Backup
backup_at t = record { id = codes "w1__a"; created_at = t }

abbrev exported : DumpManifest
exported = record { content_hash = codes "c0ffee"; pristine = false }

-- Every export holds the same; pg_control never changes; the store has one list for all.
abbrev pub vault : Vault
vault = record {
  Files = Box;
  clock = λ b. b.time;
  is_busy = λ b. false;
  read_state = λ b dir. lookup dir b.states;
  fingerprint = λ b dir. some (codes "ab");
  write_state = λ dir st b. (true, record b { states = insert dir st b.states });
  export_dump = λ w runs b. (some exported, record b { time = b.time + 5 });
  is_unwritten = λ b dir t. true;
  list = λ b id. some b.archives;
  put = λ id b. (some (backup_at b.time), record b { archives = backup_at b.time ∷ b.archives });
  archive =
      λ id dir b. (some (backup_at b.time), record b { archives = backup_at b.time ∷ b.archives });
  retain = λ id b. b;
}

abbrev is_print : Option Text → Bool
is_print none = false
is_print (some fp) = not (text_eq fp (codes ""))

is_print-not_empty : (fp : Text) → is_print (some fp) ≡ true → text_eq fp (codes "") ≡ false
is_print-not_empty fp h = ground (arith, h)

vault-IsVault : IsVault vault
unfolding text_eq
vault-IsVault = record {
  reads = λ dir st b h. lookup-insert_self dir st b.states;
  keeps_print = λ dir st b. refl;
  prints = λ dir fp b h. is_print-not_empty fp (subst (λ o. is_print o ≡ true) h refl);
  export_clock = λ w runs b. omega arith;
}

abbrev pub dump_config : BackupConfig
dump_config = record {
  enabled = true;
  is_execer = true;
  backup_types = [];
  backup_dump_types = codes "tinbase-project" ∷ [];
  backup_interval = 100;
  backup_sweep_batch = pos 0;
  state_dir = codes "state";
}

abbrev no_runs : BackupRuns
no_runs = record { failed = []; checked = []; state_at = 0 }

abbrev w1 : Workload
w1 = workload_of (codes "w1") (codes "p1")

-- A database that runs and was never dumped.
abbrev pub undumped : Site Disk (Table State) Box
undumped = record {
  fleet = up;
  files = record { time = 40; states = []; archives = backup_at 7 ∷ [] };
  runs = no_runs;
}

-- The same, dumped at 45.
abbrev fresh_dump : DumpState
fresh_dump = record {
  at = 45;
  content_hash = codes "c0ffee";
  pristine = false;
  backup_id = codes "w1__a";
  pg_control = [];
}

abbrev covered : Site Disk (Table State) Box
covered = record undumped {
  files = record { time = 60; states = ([], fresh_dump) ∷ []; archives = backup_at 45 ∷ [] };
}

daily_dump-dump_due_example :
    (is_at_risk (
        dump_status vault dump_config 139
          (runs_now driver vault w1 (daily_dump driver vault dump_config w1 undumped).1)
          w1
          (daily_dump driver vault dump_config w1 undumped).1.files
          (daily_dump driver vault dump_config w1 undumped).1.runs)
      ≡ false)
    × (dump_due vault dump_config 139
          (runs_now driver vault w1 (daily_dump driver vault dump_config w1 undumped).1)
          w1
          (daily_dump driver vault dump_config w1 undumped).1.files
          (daily_dump driver vault dump_config w1 undumped).1.runs
        ≡ false)
unfolding daily_dump get_workload lookup run call put_workload flush insert put_project restore
    text_eq
daily_dump-dump_due_example =
    daily_dump-dump_due driver vault vault-IsVault dump_config 139 w1 undumped refl (omega arith)

dump_due-at_risk_example : dump_due vault dump_config 200 true w1 undumped.files no_runs ≡ (
    is_at_risk (dump_status vault dump_config 200 true w1 undumped.files no_runs)
    && not (is_recent_failure 200 (lookup (codes "w1") no_runs.failed)))
dump_due-at_risk_example = dump_due-at_risk vault dump_config 200 true w1 undumped.files no_runs

covered-is_safe : is_safe (coverage driver vault keep_last dump_config covered) ≡ true
unfolding coverage newest_backup list_workloads sort_by insert_by values run call put_workload flush
    insert put_project restore text_eq count backs_up cover dumps cover_dump cover_all dump_status
    dump_current runs_now is_listed lookup
covered-is_safe = refl

nothing_remembered :
    (ws : List Workload) → All (λ w. IsUpToDate vault dump_config w covered.files no_runs) ws
unfolding newest_backup checked_at lookup
nothing_remembered [] = tt
nothing_remembered (w ∷ ws) = (omega arith, nothing_remembered ws)

coverage-is_due_example :
    All
      (λ w.
        backs_up dump_config w.kind ≡ true
        → (is_due driver vault keep_last dump_config 60 w covered).0 ≡ false)
      (list_workloads [] covered.fleet.store)
coverage-is_due_example =
    coverage-is_due driver vault keep_last dump_config covered covered-is_safe
      (nothing_remembered (list_workloads [] covered.fleet.store))

abbrev crowded : Site Disk (Table State) Box
crowded = record undumped { fleet = record up { store = two_projects } }

reap_lru-get_project_example :
    IsEvictable 100 1000 crowded.fleet.store (codes "p1")
    ⊎ (get_project
          (codes "p1")
          (reap_lru driver vault keep_last dump_config true (pos 5) 100 1000 crowded).fleet.store
        ≡ get_project (codes "p1") crowded.fleet.store)
reap_lru-get_project_example =
    reap_lru-get_project driver vault keep_last dump_config true (pos 5) 100 1000 (codes "p1")
      crowded two_projects-IsWellKeyed
