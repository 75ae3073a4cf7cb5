-- ===== src/Examples/Restore.antt =====
-- A workload whose backup is restored.
use orchd.Prelude.{◌≡◌, refl, codes, text_eq, Text, true, false, none}
use orchd.Table.{lookup, insert}
use orchd.Store.Ops.{run, call}
use orchd.Store.Mem.{put_workload, flush, put_project, restore}
use orchd.Store.Query.{get_workload}
use orchd.Manager.Lifecycle.{ok, running_addr}
use orchd.Manager.Reset.{Tree, cleared, started, unpack_and_start, restore_workload}
use orchd.Manager.Restored.{restore_workload-running_addr}
use orchd.Examples.Store.{keep_last}
use orchd.Examples.Manager.{driver, driver-starts, config, fleet_store-IsWellKeyed}
use orchd.Examples.Backups.{Box, vault, dump_config, undumped}

-- Directories without files.
abbrev tree : Tree Box
tree = record { wipe = λ dir b. (true, b); materialize = λ w b. b; unpack = λ id w b. (true, b) }

restored :
    (restore_workload driver vault tree keep_last config dump_config 300 false
      (codes "w1")
      (codes "w1__a")
      undumped).0
    ≡ none
unfolding restore_workload unpack_and_start cleared started get_workload lookup run call
    put_workload flush insert put_project restore text_eq
restored = refl

restore_workload-running_addr_example :
    (a : Text) × (running_addr driver keep_last config 300
        (codes "w1")
        (restore_workload driver vault tree keep_last config dump_config 300 false
          (codes "w1")
          (codes "w1__a")
          undumped).1.fleet
      ≡ ok a)
restore_workload-running_addr_example =
    restore_workload-running_addr driver vault tree keep_last config dump_config 300 driver-starts
      false (codes "w1") (codes "w1__a") undumped fleet_store-IsWellKeyed restored
