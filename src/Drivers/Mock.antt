-- ===== src/Drivers/Mock.antt =====
-- MockDriver (orchestrator/internal/runtime/mock.go), which keeps the states of its instances.
use orchd.Prelude.{Text, codes, true, Option, none, some}
use orchd.Table.{Table, lookup, insert}
use orchd.Store.Records.{Workload, State, running, suspended, stopped}
use orchd.Manager.State.{Runtime}

abbrev pub state_or_stopped : Option State → State
state_or_stopped none = stopped
state_or_stopped (some st) = st

unfoldable pub mock_create : Workload → Table State → Option Text × Table State
mock_create w h = (some (codes "127.0.0.1:1"), insert w.id running h)

abbrev pub mock_driver : Runtime
mock_driver = record {
  Host = Table State;
  status = λ h ref. state_or_stopped (lookup ref h);
  start = mock_create;
  create = mock_create;
  suspend = λ ref h. (true, insert ref suspended h);
  stop = λ ref h. insert ref stopped h;
}
