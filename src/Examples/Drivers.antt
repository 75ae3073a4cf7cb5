-- ===== src/Examples/Drivers.antt =====
-- A mux over two mock drivers, of which the second owns what it was told of.
use orchd.Prelude.{◌≡◌, refl, codes, text_eq, [], ◌∷◌, is_some}
use orchd.Table.{Table, lookup, insert, remove}
use orchd.Store.Records.{State, stopped}
use orchd.Manager.Vault.{is_listed}
use orchd.Drivers.Mock.{mock_driver, mock_create}
use orchd.Drivers.Mux.{Pilot, mux_create, mux_status}
use orchd.Examples.Store.{workload_of}

abbrev pilot : Pilot
pilot = record {
  driver = mock_driver;
  knows = λ h ref. is_some (lookup ref h);
  delete = λ ref h. remove ref h;
}

-- A workload that the allowlist named at its creation and does not name any more: it is created
-- anew on the default driver, but its status is still asked of the microVMs.
abbrev unlisted_start : Table State × Table State
unlisted_start = ([], (codes "w1", stopped) ∷ [])

created_elsewhere :
    mux_status mock_driver pilot []
      (mux_create mock_driver pilot [] (workload_of (codes "w1") (codes "p1")) unlisted_start).1
      (codes "w1")
    ≡ stopped
unfolding mux_status mux_create mock_create lookup insert text_eq is_listed
created_elsewhere = refl
