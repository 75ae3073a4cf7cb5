-- ===== src/Drivers/Booted.antt =====
-- A microVM that was spawned and booted (spawn and boot of
-- orchestrator/internal/runtime/firecracker.go).
use orchd.Prelude.{
  ℕ, ◌==◌, ◌≡◌, refl, Text, Bool, true, false, none, some, List, [], ◌∷◌, arith, Bool-cases, inl,
  inr,
}
use orchd.Table.{lookup, Table, lookup-insert_self}
use orchd.Store.Records.{running}
use orchd.Drivers.Machine.{
  VmMeta, FcSpec, resume, put, Machine, SnapFiles, Outcome, Action, next, run,
}
use orchd.Drivers.Firecracker.{
  boot_steps, VmHost, is_up, save_meta, with_deps, launched, admitted, spawn, or_killed, configure,
  boot, status,
}
use orchd.Drivers.After.{After, next-After, run-next, ask-next}

-- What is relied on of the machine: a process that was started has a pid other than 0, a guest that
-- answers runs and is not paused, and a VM that was resumed is not paused.
pub record IsMachine (mc : Machine) : Type 0 where
  pub launches : (m : VmMeta) (w : mc.World) (p : ℕ) → (mc.launch m w).0 ≡ some p → (p == 0) ≡ false
  pub answers :
      (m : VmMeta) (w : mc.World)
      → (mc.wait_http m w).0 ≡ true
      → (mc.is_alive (mc.wait_http m w).1 m.pid ≡ true)
        × (mc.is_paused (mc.wait_http m w).1 m.ref ≡ false)
  pub resumes :
      (ref : Text) (w : mc.World)
      → (mc.api ref resume w).0 ≡ true
      → mc.is_paused (mc.api ref resume w).1 ref ≡ false

module _ (mc : Machine) (laws : IsMachine mc) where
  -- The VM of a ref as a spawn leaves it, with the snapshots as they were.
  pub record IsSpawned (ref : Text) (snaps : Table SnapFiles) (m : VmMeta) (h : VmHost mc)
      : Type 0 where
    pub found : lookup ref h.idx ≡ some m
    pub named : m.ref ≡ ref
    pub started : (m.pid == 0) ≡ false
    pub kept : h.snaps ≡ snaps

  -- The meta of a ref, with the snapshots as they were.
  record Names (ref : Text) (snaps : Table SnapFiles) (m : VmMeta) (h : VmHost mc) : Type 0 where
    pub named : m.ref ≡ ref
    pub kept : h.snaps ≡ snaps

  with_deps-Names : (m : VmMeta) (h : VmHost mc) → After (Names m.ref h.snaps) (with_deps mc m h)
  unfolding with_deps save_meta
  with_deps-Names m h = ground arith

  abbrev IsLaunched : VmMeta → Table SnapFiles → VmMeta → VmHost mc → Type 0
  IsLaunched m snaps n g = Names m.ref snaps n g × ((n.pid == 0) ≡ false)

  launched-Names : (m : VmMeta) (h : VmHost mc) → After (IsLaunched m h.snaps) (launched mc m h)
  unfolding launched
  launched-Names m h = run-next (IsLaunched m h.snaps) (mc.attach m) h _ λ _.
      next-After (IsLaunched m h.snaps) (Names m.ref h.snaps) (with_deps mc m _) _
        (with_deps-Names m _)
        λ n j names.
          ask-next (IsLaunched m h.snaps) (mc.launch n) j _
            λ p e. (record { named = names.named; kept = names.kept }, laws.launches n j.world p e)

  or_killed-After :
      (P : Unit → VmHost mc → Type 0) (m : VmMeta) (r : Outcome mc.World Unit)
      → After P r
      → After P (or_killed mc m r)
  or_killed-After P m (none, h) q = tt
  or_killed-After P m (some _, h) q = q

  configure-IsSpawned :
      (ref : Text) (snaps : Table SnapFiles) (m : VmMeta) (path : Text) (paths : List Text)
      (h : VmHost mc)
      → IsSpawned ref snaps m h
      → After (λ _. IsSpawned ref snaps m) (configure mc path paths h)
  unfolding configure
  configure-IsSpawned ref snaps m at [] h sp = sp
  configure-IsSpawned ref snaps m at (p ∷ ps) h sp =
      run-next (λ _. IsSpawned ref snaps m) (mc.api at (put p)) h _
        λ _.
          configure-IsSpawned ref snaps m at ps _
            (record { found = sp.found; named = sp.named; started = sp.started; kept = sp.kept })

  admitted-Names : (m : VmMeta) (h : VmHost mc) → After (IsLaunched m h.snaps) (admitted mc m h)
  unfolding admitted
  admitted-Names m h = ground (arith, launched-Names m h)

  save_meta-IsSpawned :
      (ref : Text) (snaps : Table SnapFiles) (m : VmMeta) (h : VmHost mc)
      → m.ref ≡ ref
      → (m.pid == 0) ≡ false
      → h.snaps ≡ snaps
      → (f : Unit → Action mc.World VmMeta)
      → ((g : VmHost mc) → IsSpawned ref snaps m g → After (IsSpawned ref snaps) (f tt g))
      → After (IsSpawned ref snaps) (next (save_meta mc m h) f)
  unfolding save_meta
  save_meta-IsSpawned ref snaps m h named pid kept f k =
      run-next (IsSpawned ref snaps) (mc.write_meta m) _ f λ _. k _ (record {
        found = rw (← named) (lookup-insert_self m.ref m h.idx);
        named = named;
        started = pid;
        kept = kept;
      })

  pub spawn-IsSpawned :
      (m : VmMeta) (h : VmHost mc) → After (IsSpawned m.ref h.snaps) (spawn mc m h)
  unfolding spawn
  spawn-IsSpawned m h = run-next (IsSpawned m.ref h.snaps) (mc.admit m.ref) h _ λ _.
      next-After (IsSpawned m.ref h.snaps) (IsLaunched m h.snaps) (admitted mc m _) _
        (admitted-Names m _)
        λ n j (names, pid).
          save_meta-IsSpawned m.ref h.snaps n j names.named pid names.kept _ λ g sp.
            run-next (IsSpawned m.ref h.snaps) (mc.wait_socket m.ref) g _ λ _. record {
              found = sp.found;
              named = sp.named;
              started = sp.started;
              kept = sp.kept;
            }

  pub next-or_killed :
      {B : Type 0} (P : B → VmHost mc → Type 0) (m : VmMeta) (op : mc.World → Bool × mc.World)
      (h : VmHost mc) (f : Unit → Action mc.World B)
      → ((op h.world).0 ≡ true → After P (f tt (record h { world = (op h.world).1 })))
      → After P (next (or_killed mc m (run op h)) f)
  next-or_killed P m op h f k = elim (Bool-cases (op h.world).0) [
    | inl e ↦ rw (e, or_killed, next) (k e)
    | inr e ↦ rw (e, or_killed, next, After) tt
  ]

  -- A VM that was spawned and that answers is running.
  pub answered-running :
      (ref : Text) (snaps : Table SnapFiles) (m : VmMeta) (h : VmHost mc)
      → IsSpawned ref snaps m h
      → (mc.wait_http m h.world).0 ≡ true
      → status mc (record h { world = (mc.wait_http m h.world).1 }) ref ≡ running
  unfolding status is_up
  answered-running ref snaps m h sp e =
      let (alive, serving) = laws.answers m h.world e in
      let unpaused : mc.is_paused (mc.wait_http m h.world).1 ref ≡ false =
        rw (← sp.named) serving in
      rw (sp.found, status, is_up, sp.started, alive, unpaused) refl

  abbrev pub IsBooted : Text → Table SnapFiles → Text → VmHost mc → Type 0
  IsBooted ref snaps _ g = (status mc g ref ≡ running) × (g.snaps ≡ snaps)

  pub boot-IsBooted :
      (m : VmMeta) (spec : FcSpec) (h : VmHost mc)
      → After (IsBooted m.ref h.snaps) (boot mc m spec h)
  unfolding boot
  boot-IsBooted m spec h = run-next (IsBooted m.ref h.snaps) mc.turn _ _ λ _.
      next-After (IsBooted m.ref h.snaps) (IsSpawned m.ref h.snaps) (spawn mc m _) _
        (spawn-IsSpawned m _)
        λ n g sp.
          next-After (IsBooted m.ref h.snaps) (λ _. IsSpawned m.ref h.snaps n)
            (or_killed mc n (configure mc m.ref (boot_steps n) g)) _
            (or_killed-After (λ _. IsSpawned m.ref h.snaps n) n _
              (configure-IsSpawned m.ref h.snaps n m.ref (boot_steps n) g sp))
            λ _ j sq.
              next-or_killed (IsBooted m.ref h.snaps) n (mc.wait_http n) j _
                λ e. (answered-running m.ref h.snaps n j sq e, sq.kept)
