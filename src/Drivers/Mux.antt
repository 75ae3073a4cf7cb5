-- ===== src/Drivers/Mux.antt =====
-- Mux (orchestrator/internal/runtime/mux.go): workloads that an allowlist names run on microVMs,
-- the rest on the default driver. FirecrackerDriver is the parameter `Pilot`: a driver that says
-- which workloads it owns and that can delete one.
use orchd.Prelude.{Text, codes, Bool, Option, none, some, List, ◌++◌, if◌then◌else◌}
use orchd.Store.Records.{Workload, State}
use orchd.Manager.State.{Runtime}
use orchd.Manager.Vault.{is_listed}

pub record Pilot : Type 1 where
  pub driver : Runtime
  pub knows : driver.Host → Text → Bool
  pub delete : Text → driver.Host → driver.Host

module _ (def : Runtime) (fc : Pilot) (allow : List Text) where
  abbrev pub MuxHost : Type 0
  MuxHost = def.Host × fc.driver.Host

  -- picksFC
  unfoldable pub picks_fc : Workload → Bool
  picks_fc w = is_listed (w.template ++ codes "/" ++ w.workspace) allow

  -- forRef(ref).Status
  unfoldable pub mux_status : MuxHost → Text → State
  mux_status h ref = if fc.knows h.1 ref then fc.driver.status h.1 ref else def.status h.0 ref

  unfoldable pub mux_start : Workload → MuxHost → Option Text × MuxHost
  mux_start w h =
      let (f, g) = fc.driver.start w h.1 in
      let (a, d) = def.start w h.0 in if fc.knows h.1 w.id then (f, (h.0, g)) else (a, (d, h.1))

  -- A create on the microVMs that fails deletes what it made.
  unfoldable pub mux_create : Workload → MuxHost → Option Text × MuxHost
  unfolding picks_fc
  mux_create w h =
      let (f, g) = fc.driver.create w h.1 in
      let (a, d) = def.create w h.0 in
      if picks_fc w
      then elim f [ some addr ↦ (some addr, (h.0, g)) | none ↦ (none, (h.0, fc.delete w.id g)) ]
      else (a, (d, h.1))

  unfoldable pub mux_suspend : Text → MuxHost → Bool × MuxHost
  mux_suspend ref h =
      let (f, g) = fc.driver.suspend ref h.1 in
      let (a, d) = def.suspend ref h.0 in if fc.knows h.1 ref then (f, (h.0, g)) else (a, (d, h.1))

  unfoldable pub mux_stop : Text → MuxHost → MuxHost
  mux_stop ref h =
      if fc.knows h.1 ref then (h.0, fc.driver.stop ref h.1) else (def.stop ref h.0, h.1)

  abbrev pub mux : Runtime
  mux = record {
    Host = MuxHost;
    status = mux_status;
    start = mux_start;
    create = mux_create;
    suspend = mux_suspend;
    stop = mux_stop;
  }
