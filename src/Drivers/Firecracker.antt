-- ===== src/Drivers/Firecracker.antt =====
-- The life of a microVM: create, start, suspend, compact, stop, delete and status of
-- FirecrackerDriver (orchestrator/internal/runtime/firecracker.go). The lock of a snapshot orders
-- a compaction and a wake, so each is one step here. A meta is one object that idx shares, so the
-- code's changes of it are read back from idx. The removal of a directory is taken to succeed.
use orchd.Prelude.{
  ℕ, ◌==◌, not, Text, codes, text_eq, Bool, true, false, ◌&&◌, ◌||◌, leb, map, Option, none, some,
  List, [], ◌∷◌, ◌++◌, if◌then◌else◌, is_some,
}
use orchd.Table.{lookup, insert, remove}
use orchd.Store.Records.{State, running, suspended, stopped}
use orchd.Drivers.Machine.{
  VmMeta, FcSpec, pause, resume, create_snapshot, load_snapshot, put, Machine, FcHost, Outcome,
  Action, next, ◌>>=◌, recover, pure, ask, run, snapshot_of, has_snapshot, drop_snapshot,
}

-- The paths of the calls that configure a VMM and start its guest.
unfoldable pub boot_steps : VmMeta → List Text
boot_steps m =
    codes "boot-source"
    ∷ codes "drives/rootfs"
    ∷ ((if text_eq m.deps [] then [] else codes "drives/deps" ∷ [])
        ++ (codes "network-interfaces/eth0" ∷ codes "machine-config" ∷ codes "actions" ∷ []))

-- sanitizeTagFC, of ASCII
abbrev is_tag_char : ℕ → Bool
is_tag_char c = (leb b'a' c && leb c b'z') || (leb b'0' c && leb c b'9') || c == b'-'

unfoldable pub sanitize_tag : Text → Text
sanitize_tag = map (λ c. if is_tag_char c then c else b'-')

module _ (mc : Machine) where
  abbrev pub VmHost : Type 0
  VmHost = FcHost mc.World

  -- m.PID != 0 && pidAlive(m.PID)
  unfoldable pub is_up : VmMeta → VmHost → Bool
  is_up m h = not (m.pid == 0) && mc.is_alive h.world m.pid

  unfoldable pub knows : VmHost → Text → Bool
  knows h ref = is_some (lookup ref h.idx)

  unfoldable pub save_meta : VmMeta → Action mc.World Unit
  save_meta m h = run (mc.write_meta m) (record h { idx = insert m.ref m h.idx })

  abbrev pub halted : VmMeta → VmMeta
  halted m = record m { pid = 0 }

  unfoldable pub kill : VmMeta → VmHost → VmHost
  kill m h =
      (save_meta (halted m)
        (record h { world = if is_up m h then mc.kill m.pid h.world else h.world })).1

  -- The drive of shared dependencies; a VM whose volume is gone is booted without it.
  unfoldable pub with_deps : VmMeta → Action mc.World VmMeta
  with_deps m = if text_eq m.deps [] then pure m else do
    present ← ask (mc.attach_deps m.deps)
    elim present [
      | true ↦ pure m
      | false ↦ λ h. (some (record m { deps = [] }), (save_meta (record m { deps = [] }) h).1)
    ]

  unfoldable pub launched : VmMeta → Action mc.World VmMeta
  launched m = do
    _ ← run (mc.attach m)
    attached ← with_deps m
    pid ← ask (mc.launch attached)
    pure (record attached { pid = pid })

  -- The slot of an admission is given back once the VMM started, and when it did not.
  unfoldable pub admitted : VmMeta → Action mc.World VmMeta
  admitted m h = let r = launched m h in (r.0, record r.1 { world = mc.admit_done r.1.world })

  unfoldable pub spawn : VmMeta → Action mc.World VmMeta
  spawn m = do
    _ ← run (mc.admit m.ref)
    started ← admitted m
    _ ← save_meta started
    _ ← run (mc.wait_socket m.ref)
    pure started

  -- A step that failed kills the VM.
  abbrev pub or_killed : VmMeta → Outcome mc.World Unit → Outcome mc.World Unit
  or_killed m (none, h) = (none, kill m h)
  or_killed m (some done, h) = (some done, h)

  abbrev pub or_kill : VmMeta → Action mc.World Unit → Action mc.World Unit
  or_kill m c h = or_killed m (c h)

  unfoldable pub configure : Text → List Text → Action mc.World Unit
  configure ref [] = pure tt
  configure ref (path ∷ paths) = run (mc.api ref (put path)) >>= λ _. configure ref paths

  unfoldable pub boot : VmMeta → FcSpec → Action mc.World Text
  boot m spec h = booted (record h { world = mc.ensure_guest m spec h.world })
    where
      booted : Action mc.World Text
      booted = do
        _ ← run mc.turn
        started ← spawn m
        _ ← or_kill started (configure m.ref (boot_steps started))
        _ ← or_kill started (run (mc.wait_http started))
        pure (mc.address started.net_idx)

  -- The raw memory file, unpacked if only its compressed form remains.
  unfoldable pub materialize : Text → Action mc.World Unit
  materialize ref h =
      if (snapshot_of ref h).mem
      then pure tt h
      else (do
        _ ← run (mc.decompress ref)
        λ g. (
          some tt,
          record g {
            snaps = insert ref (record (snapshot_of ref g) { mem = true; zst = false }) g.snaps;
          },
        ))
          h

  unfoldable pub restore : VmMeta → Action mc.World Text
  restore m = do
    _ ← materialize m.ref
    started ← spawn m
    _ ← or_kill started (run (mc.api m.ref load_snapshot))
    _ ← or_kill started (run (mc.wait_http started))
    λ h. (some (mc.address started.net_idx), drop_snapshot m.ref h)

  unfoldable pub status : VmHost → Text → State
  status h ref = elim (lookup ref h.idx) [
    | none ↦ stopped
    | some m ↦
        if is_up m h
        then if mc.is_paused h.world ref then suspended else running
        else if has_snapshot ref h
        then suspended
        else if m.ephemeral
        then suspended
        else stopped
  ]

  unfoldable pub delete : Text → VmHost → VmHost
  delete ref h = elim (lookup ref h.idx) [
    | none ↦ h
    | some m ↦
        let k = kill m h in
        record {
          idx = remove ref k.idx;
          snaps = remove ref k.snaps;
          world = mc.remove_dir ref (mc.release m k.world);
        }
  ]

  -- A ref that is created again starts from nothing.
  unfoldable pub cleared : Text → VmHost → VmHost
  cleared ref h = if knows h ref then delete ref h else h

  -- The warm volume of the image; a ref that is created again is cleared once it was found.
  unfoldable pub warm_volume : FcSpec → Action mc.World ℕ
  warm_volume spec h = elim (mc.warm_volume h.world (sanitize_tag spec.image)) [
    | none ↦ (none, h)
    | some warm ↦ (some warm, cleared spec.ref h)
  ]

  abbrev pub made_of : FcSpec → ℕ → Text → VmMeta
  made_of spec dev deps = record {
    ref = spec.ref;
    dev_id = dev;
    net_idx = dev;
    image = sanitize_tag spec.image;
    pid = 0;
    ephemeral = spec.ephemeral;
    deps = deps;
  }

  unfoldable pub provision : FcSpec → Action mc.World VmMeta
  provision spec = do
    warm ← warm_volume spec
    _ ← run (mc.make_dir spec.ref)
    dev ← ask (mc.clone spec.ref warm)
    deps ← ask (λ w. let r = mc.deps_volume spec.deps_host_dir w in (some r.0, r.1))
    _ ← save_meta (made_of spec dev deps)
    pure (made_of spec dev deps)

  unfoldable pub create : FcSpec → Action mc.World Text
  create spec = do made ← provision spec; _ ← run (mc.prepare made spec); boot made spec

  -- A VM that was paused by a suspend that did not end is resumed.
  unfoldable pub resume_paused : VmMeta → Action mc.World Text
  resume_paused m h =
      if mc.is_paused h.world m.ref
      then (do _ ← run (mc.api m.ref resume); _ ← run (mc.wait_http m); pure (mc.address m.net_idx))
          h
      else (none, h)

  abbrev pub meta_or : VmMeta → Option VmMeta → VmMeta
  meta_or m none = m
  meta_or m (some n) = n

  -- The meta with what a spawn changes of it.
  unfoldable pub reread : VmMeta → VmHost → VmMeta
  reread m h = let n = meta_or m (lookup m.ref h.idx) in record m { pid = n.pid; deps = n.deps }

  -- A snapshot is restored; when that fails it is dropped and the VM is booted afresh.
  unfoldable pub boot_without : VmMeta → FcSpec → Action mc.World Text
  boot_without m spec h = let g = drop_snapshot m.ref h in boot (reread m g) spec g

  unfoldable pub start_down : VmMeta → FcSpec → Action mc.World Text
  start_down m spec h =
      if has_snapshot m.ref h then recover (restore m h) (boot_without m spec) else boot m spec h

  unfoldable pub start_up : VmMeta → FcSpec → Action mc.World Text
  start_up m spec h = recover (resume_paused m h) λ g. start_down (halted m) spec (kill m g)

  abbrev pub start_from : State → VmMeta → FcSpec → Action mc.World Text
  start_from running m spec h = (some (mc.address m.net_idx), h)
  start_from _ m spec h = if is_up m h then start_up m spec h else start_down m spec h

  unfoldable pub start_known : VmMeta → FcSpec → Action mc.World Text
  start_known m spec h = start_from (status h m.ref) m spec h

  unfoldable pub start : FcSpec → Action mc.World Text
  start spec h = elim (lookup spec.ref h.idx) [
    | none ↦ create spec h
    | some m ↦ start_known m spec h
  ]

  -- A snapshot that failed: the VM is resumed, or killed when that fails too.
  unfoldable pub undo_pause : VmMeta → VmHost → VmHost
  undo_pause m h =
      let r = mc.api m.ref resume h.world in
      let g = record h { world = r.1 } in
      if r.0 then drop_snapshot m.ref g else drop_snapshot m.ref (kill m g)

  unfoldable pub take_snapshot : VmMeta → Action mc.World Unit
  take_snapshot m h =
      let r = mc.api m.ref create_snapshot h.world in
      let g = record h { world = r.1 } in
      let files = record (snapshot_of m.ref g) { mem = true; vm_state = true } in
      if r.0
      then (some tt, kill m (record g { snaps = insert m.ref files g.snaps }))
      else (none, undo_pause m g)

  -- An ephemeral VM is torn down, without a snapshot.
  abbrev pub suspend_as : Bool → VmMeta → Action mc.World Unit
  suspend_as true m h = (some tt, kill m h)
  suspend_as false m h = next (run (mc.api m.ref pause) h) λ _. take_snapshot m

  unfoldable pub suspend : Text → Action mc.World Unit
  suspend ref h = elim (lookup ref h.idx) [
    | none ↦ (none, h)
    | some m ↦ if is_up m h then suspend_as m.ephemeral m h else (some tt, h)
  ]

  -- A failed compression keeps the raw file.
  unfoldable pub compact : Text → Action mc.World Unit
  compact ref h =
      let r = mc.compress ref h.world in
      let g = record h { world = r.1 } in
      let files = snapshot_of ref h in
      if not files.mem
      then (some tt, h)
      else if not (mc.has_zstd h.world)
      then (none, h)
      else if r.0
      then (
        some tt,
        record g { snaps = insert ref (record files { mem = false; zst = true }) h.snaps },
      )
      else (none, record g { snaps = insert ref (record files { zst = false }) h.snaps })

  unfoldable pub stop : Text → VmHost → VmHost
  stop ref h = elim (lookup ref h.idx) [ none ↦ h | some m ↦ drop_snapshot ref (kill m h) ]
