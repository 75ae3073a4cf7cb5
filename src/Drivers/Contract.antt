-- ===== src/Drivers/Contract.antt =====
-- What the manager relies on in a driver (Runtime of orchestrator/internal/runtime/runtime.go), for
-- the mock driver.
use orchd.Prelude.{◌≡◌, refl, Text, text_eq, true, false, some}
use orchd.Table.{Table, lookup, insert, lookup-insert, lookup-insert_self}
use orchd.Store.Records.{Workload, State, running, suspended, stopped}
use orchd.Manager.State.{Runtime, is_running}
use orchd.Drivers.Mock.{state_or_stopped, mock_create, mock_driver}

-- A workload that was started with an address runs, and no operation on one workload changes the
-- status of another.
pub record IsDriver (rt : Runtime) : Type 0 where
  pub starts :
      (w : Workload) (h : rt.Host) (a : Text)
      → (rt.start w h).0 ≡ some a
      → is_running (rt.status (rt.start w h).1 w.id) ≡ true
  pub starts_one :
      (w : Workload) (j : Text) (h : rt.Host)
      → text_eq w.id j ≡ false
      → rt.status (rt.start w h).1 j ≡ rt.status h j
  pub creates_one :
      (w : Workload) (j : Text) (h : rt.Host)
      → text_eq w.id j ≡ false
      → rt.status (rt.create w h).1 j ≡ rt.status h j
  pub suspends_one :
      (i j : Text) (h : rt.Host)
      → text_eq i j ≡ false
      → rt.status (rt.suspend i h).1 j ≡ rt.status h j
  pub stops_one :
      (i j : Text) (h : rt.Host) → text_eq i j ≡ false → rt.status (rt.stop i h) j ≡ rt.status h j

insert_other :
    (i j : Text) (st : State) (h : Table State)
    → text_eq i j ≡ false
    → state_or_stopped (lookup j (insert i st h)) ≡ state_or_stopped (lookup j h)
insert_other i j st h n = rw (lookup-insert i j st h, n) refl

-- The mock driver is a driver.
pub mock_driver-IsDriver : IsDriver mock_driver
unfolding mock_create
mock_driver-IsDriver = record {
  starts = λ w h a e. rw (lookup-insert_self w.id running h) refl;
  starts_one = λ w j h n. insert_other w.id j running h n;
  creates_one = λ w j h n. insert_other w.id j running h n;
  suspends_one = λ i j h n. insert_other i j suspended h n;
  stops_one = λ i j h n. insert_other i j stopped h n;
}
