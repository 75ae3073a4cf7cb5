-- ===== src/Drivers/Started.antt =====
-- What a start of a microVM leaves (Start of orchestrator/internal/runtime/firecracker.go).
use orchd.Prelude.{
  ◌≡◌, refl, ◌∙◌, sym, subst, ◌⊎◌, Text, true, false, some, arith, Bool-cases, Option-cases, inl,
  inr,
}
use orchd.Table.{lookup, lookup-insert_self}
use orchd.Store.Records.{running, suspended, stopped}
use orchd.Drivers.Machine.{
  VmMeta, FcSpec, load_snapshot, resume, Machine, FcHost, no_files, snapshot_of, has_snapshot,
  drop_snapshot,
}
use orchd.Drivers.Firecracker.{
  VmHost, is_up, save_meta, halted, kill, spawn, boot, materialize, restore, reread, status,
  warm_volume, provision, create, resume_paused, boot_without, start_down, start_up, start_from,
  start_known, start,
}
use orchd.Drivers.After.{After, next-After, weaken, recover-After, always, run-next, ask-next}
use orchd.Drivers.Booted.{
  IsMachine, IsSpawned, spawn-IsSpawned, next-or_killed, answered-running, IsBooted, boot-IsBooted,
}

module _ {W : Type 0} where
  pub snapshot-drop_snapshot :
      (ref : Text) (h : FcHost W) → has_snapshot ref (drop_snapshot ref h) ≡ false
  unfolding has_snapshot snapshot_of drop_snapshot
  snapshot-drop_snapshot ref h = ground (arith, lookup-insert_self ref no_files h.snaps)

module _ (mc : Machine) (laws : IsMachine mc) where
  status-drop_snapshot :
      (ref : Text) (h : VmHost mc)
      → status mc h ref ≡ running
      → status mc (drop_snapshot ref h) ref ≡ running
  unfolding status has_snapshot snapshot_of drop_snapshot is_up
  status-drop_snapshot ref h e = ground (arith, lookup-insert_self ref no_files h.snaps)

  -- A VM that was started from nothing: it runs, and no snapshot of it is left.
  abbrev pub IsFresh : Text → Text → VmHost mc → Type 0
  IsFresh ref _ g = (status mc g ref ≡ running) × (has_snapshot ref g ≡ false)

  restore-IsFresh : (m : VmMeta) (h : VmHost mc) → After (IsFresh m.ref) (restore mc m h)
  unfolding restore
  restore-IsFresh m h =
      next-After (IsFresh m.ref) (λ _ _. Unit) (materialize mc m.ref h) _
        (always (materialize mc m.ref h))
        λ _ g _.
          next-After (IsFresh m.ref) (IsSpawned mc laws m.ref g.snaps) (spawn mc m g) _
            (spawn-IsSpawned mc laws m g)
            λ n j sp. next-or_killed mc laws (IsFresh m.ref) n (mc.api m.ref load_snapshot) j _ λ _.
              next-or_killed mc laws (IsFresh m.ref) n (mc.wait_http n) _ _ λ e. (
                status-drop_snapshot m.ref _ (
                    answered-running mc laws m.ref g.snaps n _
                      (record {
                        found = sp.found;
                        named = sp.named;
                        started = sp.started;
                        kept = sp.kept;
                      })
                      e),
                snapshot-drop_snapshot m.ref _,
              )

  has_snapshot-kept :
      (ref : Text) (g h : VmHost mc) → g.snaps ≡ h.snaps → has_snapshot ref g ≡ has_snapshot ref h
  unfolding has_snapshot snapshot_of
  has_snapshot-kept ref g h e = rw e refl

  boot-IsFresh :
      (m : VmMeta) (spec : FcSpec) (h : VmHost mc)
      → has_snapshot m.ref h ≡ false
      → After (IsFresh m.ref) (boot mc m spec h)
  boot-IsFresh m spec h n =
      weaken (IsFresh m.ref) (IsBooted mc laws m.ref h.snaps) (boot mc m spec h)
        (λ _ g q. (q.0, has_snapshot-kept m.ref g h q.1 ∙ n)) (boot-IsBooted mc laws m spec h)

  start_down-IsFresh :
      (m : VmMeta) (spec : FcSpec) (h : VmHost mc) → After (IsFresh m.ref) (start_down mc m spec h)
  unfolding start_down boot_without reread
  start_down-IsFresh m spec h = elim (Bool-cases (has_snapshot m.ref h)) [
    | inr n ↦ rw (n, start_down) (boot-IsFresh m spec h n)
    | inl s ↦
        rw (s, start_down)
          (recover-After (IsFresh m.ref) (restore mc m h) _ (restore-IsFresh m h)
            λ g. boot-IsFresh _ spec _ (snapshot-drop_snapshot m.ref g))
  ]

  down-status :
      (m : VmMeta) (h : VmHost mc)
      → lookup m.ref h.idx ≡ some m
      → is_up mc m h ≡ false
      → (status mc h m.ref ≡ suspended) ⊎ (status mc h m.ref ≡ stopped)
  unfolding status
  down-status m h e down = elim (Bool-cases (has_snapshot m.ref h)) [
    | inl s ↦ inl (rw (e, status, down, s) refl)
    | inr n ↦ elim (Bool-cases m.ephemeral) [
      | inl t ↦ inl (rw (e, status, down, n, t) refl)
      | inr f ↦ inr (rw (e, status, down, n, f) refl)
    ]
  ]

  start_known-IsFresh :
      (spec : FcSpec) (m : VmMeta) (h : VmHost mc)
      → lookup m.ref h.idx ≡ some m
      → is_up mc m h ≡ false
      → After (IsFresh m.ref) (start_known mc m spec h)
  unfolding start_known
  start_known-IsFresh spec m h e down = elim (down-status m h e down) [
    | inl s ↦ rw (s, down) (start_down-IsFresh m spec h)
    | inr s ↦ rw (s, down) (start_down-IsFresh m spec h)
  ]

  -- A start of a VM of which no process is alive, if it gives an address, leaves the VM running,
  -- whether it was restored, booted afresh after a restore that failed, or booted; and it leaves no
  -- snapshot, so that a later start cannot restore memory that is older than the disk.
  pub start-IsFresh :
      (spec : FcSpec) (m : VmMeta) (h : VmHost mc)
      → lookup spec.ref h.idx ≡ some m
      → m.ref ≡ spec.ref
      → is_up mc m h ≡ false
      → After (IsFresh spec.ref) (start mc spec h)
  unfolding start
  start-IsFresh spec m h e named down =
      let found : lookup m.ref h.idx ≡ some m =
        subst (λ r. lookup r h.idx ≡ some m) (sym named) e in
      rw (e, start)
        (subst (λ ref. After (IsFresh ref) (start_known mc m spec h)) named
          (start_known-IsFresh spec m h found down))

  abbrev pub IsRunning : Text → Text → VmHost mc → Type 0
  IsRunning ref _ g = status mc g ref ≡ running

  resume_paused-IsRunning :
      (m : VmMeta) (h : VmHost mc)
      → lookup m.ref h.idx ≡ some m
      → is_up mc m h ≡ true
      → After (IsRunning m.ref) (resume_paused mc m h)
  unfolding resume_paused is_up
  resume_paused-IsRunning m h e up = elim (Bool-cases (mc.is_paused h.world m.ref)) [
    | inr n ↦ rw (n, resume_paused, After) tt
    | inl p ↦
        rw (p, resume_paused)
          (run-next (IsRunning m.ref) (mc.api m.ref resume) h _ λ _.
            run-next (IsRunning m.ref) (mc.wait_http m) _ _ λ a.
              answered-running mc laws m.ref h.snaps m _
                (record { found = e; named = refl; started = ground arith; kept = refl }) a)
  ]

  start_up-IsRunning :
      (m : VmMeta) (spec : FcSpec) (h : VmHost mc)
      → lookup m.ref h.idx ≡ some m
      → is_up mc m h ≡ true
      → After (IsRunning m.ref) (start_up mc m spec h)
  unfolding start_up
  start_up-IsRunning m spec h e up =
      recover-After (IsRunning m.ref) (resume_paused mc m h) _ (resume_paused-IsRunning m h e up)
        λ g.
          weaken (IsRunning m.ref) (IsFresh m.ref) (start_down mc (halted mc m) spec (kill mc m g))
            (λ _ _ q. q.0) (start_down-IsFresh (halted mc m) spec (kill mc m g))

  abbrev IsNamed : FcSpec → VmMeta → VmHost mc → Type 0
  IsNamed spec m _ = m.ref ≡ spec.ref

  provision-IsNamed : (spec : FcSpec) (h : VmHost mc) → After (IsNamed spec) (provision mc spec h)
  unfolding provision
  provision-IsNamed spec h =
      next-After (IsNamed spec) (λ _ _. Unit) (warm_volume mc spec h) _
        (always (warm_volume mc spec h))
        λ _ g _. run-next (IsNamed spec) (mc.make_dir spec.ref) g _ λ _.
          ask-next (IsNamed spec) (mc.clone spec.ref _) _ _ λ dev _.
            next-After (IsNamed spec) (λ _ _. Unit) (save_meta mc _ _) _ (always (save_meta mc _ _))
              λ _ _ _. refl

  boot-IsRunning :
      (ref : Text) (m : VmMeta) (spec : FcSpec) (h : VmHost mc)
      → m.ref ≡ ref
      → After (IsRunning ref) (boot mc m spec h)
  boot-IsRunning ref m spec h named =
      subst (λ r. After (IsRunning r) (boot mc m spec h)) named
        (weaken (IsRunning m.ref) (IsBooted mc laws m.ref h.snaps) (boot mc m spec h) (λ _ _ q. q.0)
          (boot-IsBooted mc laws m spec h))

  create-IsRunning : (spec : FcSpec) (h : VmHost mc) → After (IsRunning spec.ref) (create mc spec h)
  unfolding create
  create-IsRunning spec h =
      next-After (IsRunning spec.ref) (IsNamed spec) (provision mc spec h) _
        (provision-IsNamed spec h)
        λ m g named.
          run-next (IsRunning spec.ref) (mc.prepare m spec) g _
            λ _. boot-IsRunning spec.ref m spec _ named

  start_known-IsRunning :
      (spec : FcSpec) (m : VmMeta) (h : VmHost mc)
      → lookup m.ref h.idx ≡ some m
      → After (IsRunning m.ref) (start_known mc m spec h)
  unfolding start_known status
  start_known-IsRunning spec m h e = elim (Bool-cases (is_up mc m h)) [
    | inr down ↦
        weaken (IsRunning m.ref) (IsFresh m.ref) (start_known mc m spec h) (λ _ _ q. q.0)
          (start_known-IsFresh spec m h e down)
    | inl up ↦ elim (Bool-cases (mc.is_paused h.world m.ref)) [
      | inl p ↦
          let s : status mc h m.ref ≡ suspended = rw (e, status, up, p) refl in
          rw (s, up) (start_up-IsRunning m spec h e up)
      | inr n ↦
          let s : status mc h m.ref ≡ running = rw (e, status, up, n) refl in
          subst (λ st. After (IsRunning m.ref) (start_from mc st m spec h)) (sym s) s
    ]
  ]

  -- A start that gives an address leaves the VM running: also one that is created, that was left
  -- paused, or whose restore failed.
  pub start-IsRunning :
      (spec : FcSpec) (h : VmHost mc)
      → ((m : VmMeta) → lookup spec.ref h.idx ≡ some m → m.ref ≡ spec.ref)
      → After (IsRunning spec.ref) (start mc spec h)
  unfolding start
  start-IsRunning spec h named = elim (Option-cases (lookup spec.ref h.idx)) [
    | inl e ↦ rw (e, start) (create-IsRunning spec h)
    | inr (m, e) ↦
        let found : lookup m.ref h.idx ≡ some m =
          subst (λ r. lookup r h.idx ≡ some m) (sym (named m e)) e in
        rw (e, start)
          (subst (λ ref. After (IsRunning ref) (start_known mc m spec h)) (named m e)
            (start_known-IsRunning spec m h found))
  ]
