-- ===== src/Drivers/Suspended.antt =====
-- What a suspend, a stop and a compaction of a microVM leave (Suspend, Stop and Compact of
-- orchestrator/internal/runtime/firecracker.go).
use orchd.Prelude.{
  ◌≡◌, refl, ◌∙◌, sym, subst, Text, Bool, true, false, some, is_some, ◌||◌, Bool-cases, inl, inr,
}
use orchd.Table.{lookup, insert, lookup-insert_self}
use orchd.Store.Records.{State, suspended}
use orchd.Drivers.Machine.{
  VmMeta, create_snapshot, resume, pause, Machine, SnapFiles, next, snapshot_of, has_snapshot,
  drop_snapshot,
}
use orchd.Drivers.Firecracker.{
  VmHost, is_up, save_meta, halted, kill, status, undo_pause, take_snapshot, suspend_as, suspend,
  compact, stop,
}
use orchd.Drivers.Booted.{IsMachine}
use orchd.Drivers.Started.{snapshot-drop_snapshot}

abbrev pub is_suspended : State → Bool
is_suspended suspended = true
is_suspended _ = false

module _ (mc : Machine) where
  kill-idx : (m : VmMeta) (h : VmHost mc) → lookup m.ref (kill mc m h).idx ≡ some (halted mc m)
  unfolding kill save_meta
  kill-idx m h = lookup-insert_self m.ref (halted mc m) h.idx

  kill-has_snapshot :
      (m : VmMeta) (h : VmHost mc) → has_snapshot m.ref (kill mc m h) ≡ has_snapshot m.ref h
  unfolding kill save_meta has_snapshot snapshot_of
  kill-has_snapshot m h = refl

  -- A VM without a process is suspended if it has a snapshot and stopped if not.
  down-is_suspended :
      (ref : Text) (m : VmMeta) (h : VmHost mc)
      → lookup ref h.idx ≡ some m
      → is_up mc m h ≡ false
      → m.ephemeral ≡ false
      → is_suspended (status mc h ref) ≡ has_snapshot ref h
  unfolding status
  down-is_suspended ref m h e down lasting = elim (Bool-cases (has_snapshot ref h)) [
    | inl s ↦ rw (e, status, down, s) refl
    | inr n ↦ rw (e, status, down, n, lasting) refl
  ]

  drop_snapshot-idx : (ref : Text) (h : VmHost mc) → (drop_snapshot ref h).idx ≡ h.idx
  unfolding drop_snapshot
  drop_snapshot-idx ref h = refl

  drop_snapshot-world : (ref : Text) (h : VmHost mc) → (drop_snapshot ref h).world ≡ h.world
  unfolding drop_snapshot
  drop_snapshot-world ref h = refl

  put-has_snapshot :
      (ref : Text) (f : SnapFiles) (h g : VmHost mc)
      → g.snaps ≡ insert ref f h.snaps
      → has_snapshot ref g ≡ f.mem || f.zst
  unfolding has_snapshot snapshot_of
  put-has_snapshot ref f h g e = rw (e, lookup-insert_self ref f h.snaps) refl

  mem-has_snapshot :
      (ref : Text) (h : VmHost mc) → (snapshot_of ref h).mem ≡ true → has_snapshot ref h ≡ true
  unfolding has_snapshot
  mem-has_snapshot ref h e = rw e refl

  halted-is_up : (m : VmMeta) (h : VmHost mc) → is_up mc (halted mc m) h ≡ false
  unfolding is_up
  halted-is_up m h = refl

  -- Whether a VM is left suspended with a snapshot, and neither otherwise.
  pub record IsLeft (ref : Text) (b : Bool) (h : VmHost mc) : Type 0 where
    pub snapshot : has_snapshot ref h ≡ b
    pub state : is_suspended (status mc h ref) ≡ b

  dead-IsLeft :
      (m : VmMeta) (h : VmHost mc) (b : Bool)
      → lookup m.ref h.idx ≡ some (halted mc m)
      → m.ephemeral ≡ false
      → has_snapshot m.ref h ≡ b
      → IsLeft m.ref b h
  dead-IsLeft m h b e lasting s = record {
    snapshot = s;
    state = down-is_suspended m.ref (halted mc m) h e (halted-is_up m h) lasting ∙ s;
  }

  module _ (laws : IsMachine mc) where
    awake-IsLeft :
        (m : VmMeta) (h : VmHost mc)
        → lookup m.ref h.idx ≡ some m
        → m.ephemeral ≡ false
        → mc.is_paused h.world m.ref ≡ false
        → has_snapshot m.ref h ≡ false
        → IsLeft m.ref false h
    unfolding status
    awake-IsLeft m h e lasting awake s = elim (Bool-cases (is_up mc m h)) [
      | inl up ↦ record { snapshot = s; state = rw (e, status, up, awake) refl }
      | inr down ↦ record { snapshot = s; state = down-is_suspended m.ref m h e down lasting ∙ s }
    ]

    undo_pause-IsLeft :
        (m : VmMeta) (h : VmHost mc)
        → lookup m.ref h.idx ≡ some m
        → m.ephemeral ≡ false
        → IsLeft m.ref false (undo_pause mc m h)
    unfolding undo_pause
    undo_pause-IsLeft m h e lasting =
        let g : VmHost mc = record h { world = (mc.api m.ref resume h.world).1 } in
        elim (Bool-cases (mc.api m.ref resume h.world).0) [
          | inl ok ↦
              rw (ok, undo_pause)
                (awake-IsLeft m (drop_snapshot m.ref g) (rw (drop_snapshot-idx m.ref g) e) lasting
                  (rw (drop_snapshot-world m.ref g) (laws.resumes m.ref h.world ok))
                  (snapshot-drop_snapshot m.ref g))
          | inr failed ↦
              rw (failed, undo_pause)
                (dead-IsLeft m (drop_snapshot m.ref (kill mc m g)) false
                  (rw (drop_snapshot-idx m.ref (kill mc m g)) (kill-idx m g)) lasting
                  (snapshot-drop_snapshot m.ref (kill mc m g)))
        ]

    take_snapshot-IsLeft :
        (m : VmMeta) (h : VmHost mc)
        → lookup m.ref h.idx ≡ some m
        → m.ephemeral ≡ false
        → IsLeft m.ref (is_some (take_snapshot mc m h).0) (take_snapshot mc m h).1
    unfolding take_snapshot
    take_snapshot-IsLeft m h e lasting =
        let g : VmHost mc = record h { world = (mc.api m.ref create_snapshot h.world).1 } in
        elim (Bool-cases (mc.api m.ref create_snapshot h.world).0) [
          | inr failed ↦ rw (failed, take_snapshot) (undo_pause-IsLeft m g e lasting)
          | inl ok ↦
              rw (ok, take_snapshot)
                (dead-IsLeft m _ true (kill-idx m _) lasting
                  (kill-has_snapshot m _ ∙ put-has_snapshot m.ref _ g _ refl))
        ]

    abbrev IsSuspendedAs : Bool → VmMeta → VmHost mc → Type 0
    IsSuspendedAs b m h = IsLeft m.ref (is_some (suspend_as mc b m h).0) (suspend_as mc b m h).1

    paused_snapshot-IsLeft :
        (m : VmMeta) (h : VmHost mc)
        → lookup m.ref h.idx ≡ some m
        → m.ephemeral ≡ false
        → (mc.api m.ref pause h.world).0 ≡ true
        → IsSuspendedAs false m h
    paused_snapshot-IsLeft m h e lasting paused =
        rw (paused, next)
          (take_snapshot-IsLeft m (record h { world = (mc.api m.ref pause h.world).1 }) e lasting)

    -- A suspend of a VM that runs, is not ephemeral and can be paused: if it succeeds, the VM is
    -- suspended and has a snapshot; if it fails, the VM has no snapshot and is not left paused, and
    -- its status is not suspended.
    pub suspend-IsLeft :
        (m : VmMeta) (h : VmHost mc)
        → lookup m.ref h.idx ≡ some m
        → is_up mc m h ≡ true
        → m.ephemeral ≡ false
        → (mc.api m.ref pause h.world).0 ≡ true
        → IsLeft m.ref (is_some (suspend mc m.ref h).0) (suspend mc m.ref h).1
    unfolding suspend
    suspend-IsLeft m h e up lasting paused =
        rw (e, suspend, up)
          (subst (λ b. IsSuspendedAs b m h) (sym lasting)
            (paused_snapshot-IsLeft m h e lasting paused))

  -- A compaction, whether it succeeds or fails, neither makes a snapshot nor loses one.
  pub compact-has_snapshot :
      (ref : Text) (h : VmHost mc) → has_snapshot ref (compact mc ref h).1 ≡ has_snapshot ref h
  unfolding compact
  compact-has_snapshot ref h = elim (Bool-cases (snapshot_of ref h).mem) [
    | inr none_raw ↦ rw (none_raw, compact) refl
    | inl raw ↦ elim (Bool-cases (mc.has_zstd h.world)) [
      | inr missing ↦ rw (raw, compact, missing) refl
      | inl found ↦ elim (Bool-cases (mc.compress ref h.world).0) [
        | inl done ↦
            rw (raw, compact, found, done)
              (put-has_snapshot ref _ h _ refl ∙ sym (mem-has_snapshot ref h raw))
        | inr failed ↦
            rw (raw, compact, found, failed)
              (put-has_snapshot ref _ h _ refl ∙ sym (mem-has_snapshot ref h raw))
      ]
    ]
  ]

  -- A VM that was stopped and is not ephemeral is stopped and has no snapshot, so that its next
  -- start boots it afresh.
  pub stop-IsLeft :
      (m : VmMeta) (h : VmHost mc)
      → lookup m.ref h.idx ≡ some m
      → m.ephemeral ≡ false
      → IsLeft m.ref false (stop mc m.ref h)
  unfolding stop
  stop-IsLeft m h e lasting =
      rw (e, stop)
        (dead-IsLeft m (drop_snapshot m.ref (kill mc m h)) false
          (rw (drop_snapshot-idx m.ref (kill mc m h)) (kill-idx m h)) lasting
          (snapshot-drop_snapshot m.ref (kill mc m h)))
