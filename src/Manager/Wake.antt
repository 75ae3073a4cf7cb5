-- ===== src/Manager/Wake.antt =====
-- Waking a workload and reading its address back: EnsureRunning, RunningAddr and StopWorkload of
-- orchestrator/internal/manager/manager.go.
use orchd.Prelude.{
  ℕ, ◌≡◌, refl, arith, sym, subst, Text, true, false, Option, none, some, Bool-cases, Option-cases,
  inl, inr,
}
use orchd.Table.{lookup, lookup-insert_self, lookup-remove_self, key-lookup}
use orchd.Store.Records.{Snapshot, Workload, suspended}
use orchd.Store.Mem.{workload_key}
use orchd.Store.Query.{get_workload}
use orchd.Store.Keyed.{IsWellKeyed}
use orchd.Manager.State.{
  Runtime, Manager, Config, LiveInstance, is_running, mark_live, forget, touch, set_state,
}
use orchd.Manager.Reaper.{seen_at}
use orchd.Manager.Lifecycle.{
  Error, not_running, ok, err, start_failed, suspend_failed, not_found, came_up, wake,
  ensure_running, running_addr, stop_workload,
}
use orchd.Manager.Frames.{
  SameService, note_project_activity-SameService, get_workload-set_state_self,
}

module _ {D : Type 0} (rt : Runtime) (save : D → Snapshot → Option D) (cfg : Config) (now : ℕ) where
  open rt use {Host, status, start, suspend}

  -- What a manager shows of a workload that answers at an address and was seen just now.
  abbrev pub IsUp : Text → Text → Manager D Host → Type 0
  IsUp id a m =
      ((w : Workload) × (get_workload id m.store ≡ some w))
      × ((li : LiveInstance) × (lookup id m.live ≡ some li) × (li.addr ≡ a) × (li.last_seen ≡ now))
      × (is_running (status m.host id) ≡ true)

  IsUp-same :
      {m m' : Manager D Host} (id a : Text) → SameService save m m' → IsUp id a m → IsUp id a m'
  IsUp-same id a s u = rw (s.workload id, s.live, s.host) u

  pub running_addr-IsUp :
      (id a : Text) (m : Manager D Host) → IsUp id a m → running_addr rt save cfg now id m ≡ ok a
  unfolding running_addr
  running_addr-IsUp id a m ((w, g), (li, l, e, t), r) = rw (g, running_addr, l, r, e) refl

  touch-IsUp :
      (id : Text) (m : Manager D Host) (w : Workload) (li : LiveInstance)
      → get_workload id m.store ≡ some w
      → lookup id m.live ≡ some li
      → is_running (status m.host id) ≡ true
      → IsUp id li.addr (touch id now m)
  unfolding touch
  touch-IsUp id m w li g l r =
      rw (l, touch) ((w, g), (_, lookup-insert_self id _ m.live, refl, refl), r)

  pub came_up-IsUp :
      (id a : Text) (m : Manager D Host) (w : Workload)
      → get_workload id m.store ≡ some w
      → is_running (status m.host id) ≡ true
      → IsUp id a (came_up rt save cfg now id a m)
  unfolding came_up mark_live set_state
  came_up-IsUp id a m w g r = (
    (_, get_workload-set_state_self save id _ m g),
    (_, lookup-insert_self id _ m.live, refl, refl),
    r,
  )

  module _
      (starts : (w : Workload) (h : Host) (a : Text)
        → (start w h).0 ≡ some a
        → is_running (status (start w h).1 w.id) ≡ true) where
    wake-IsUp :
        (w : Workload) (m : Manager D Host) (a : Text)
        → get_workload w.id m.store ≡ some w
        → (wake rt save cfg now w m).0 ≡ ok a
        → IsUp w.id a (wake rt save cfg now w m).1
    unfolding wake
    wake-IsUp w m a g h = elim (Option-cases (start w m.host).0) [
      | inl e ↦ absurd (let q : err start_failed ≡ ok a = rw (e, wake) at h in ground (arith, q))
      | inr (b, e) ↦
          let q : ok b ≡ ok a = rw (e, wake) at h in
          let ba : b ≡ a = ground (arith, q) in
          rw (e, wake, ba)
            (IsUp-same w.id a (note_project_activity-SameService save cfg now w.project_id true _) (
              came_up-IsUp w.id a (record m { host = (start w m.host).1 }) w g
                (starts w m.host b e)))
    ]

    ensure_running-IsUp :
        (id a : Text) (m : Manager D Host)
        → IsWellKeyed m.store
        → (ensure_running rt save cfg now id m).0 ≡ ok a
        → IsUp id a (ensure_running rt save cfg now id m).1
    unfolding ensure_running get_workload workload_key
    ensure_running-IsUp id a m k h = elim (Option-cases (get_workload id m.store)) [
      | inl e ↦
          absurd (let q : err not_found ≡ ok a = rw (e, ensure_running) at h in ground (arith, q))
      | inr (w, e) ↦
          let i : w.id ≡ id = key-lookup workload_key id m.store.workloads k.workloads e in
          let g : get_workload w.id m.store ≡ some w =
            subst (λ j. get_workload j m.store ≡ some w) (sym i) e in
          elim (Option-cases (lookup id m.live)) [
            | inl l ↦
                let q : (wake rt save cfg now w m).0 ≡ ok a = rw (e, ensure_running, l) at h in
                rw (e, ensure_running, l)
                  (subst (λ j. IsUp j a (wake rt save cfg now w m).1) i (wake-IsUp w m a g q))
            | inr (li, l) ↦ elim (Bool-cases (is_running (status m.host id))) [
              | inl r ↦
                  let q : ok li.addr ≡ ok a = rw (e, ensure_running, l, r) at h in
                  let la : li.addr ≡ a = ground (arith, q) in
                  rw (e, ensure_running, l, r, ← la)
                    (IsUp-same id li.addr
                      (note_project_activity-SameService save cfg now w.project_id false _)
                      (touch-IsUp id m w li e l r))
              | inr r ↦
                  let q : (wake rt save cfg now w m).0 ≡ ok a = rw (e, ensure_running, l, r) at h in
                  rw (e, ensure_running, l, r)
                    (subst (λ j. IsUp j a (wake rt save cfg now w m).1) i (wake-IsUp w m a g q))
            ]
          ]
    ]

    -- With a driver whose Start gives an address only for an instance that then runs, and with
    -- each record of the store under its own key: when EnsureRunning gives an address, RunningAddr
    -- gives the same address at once, and the instance's last use is now.
    pub ensure_running-running_addr :
        (id a : Text) (m : Manager D Host)
        → IsWellKeyed m.store
        → (ensure_running rt save cfg now id m).0 ≡ ok a
        → (running_addr rt save cfg now id (ensure_running rt save cfg now id m).1 ≡ ok a)
          × (seen_at (lookup id (ensure_running rt save cfg now id m).1.live) ≡ some now)
    ensure_running-running_addr id a m k h =
        let u : IsUp id a (ensure_running rt save cfg now id m).1 =
          ensure_running-IsUp id a m k h in
        (running_addr-IsUp id a _ u, rw (u.1.1, u.1.3) refl)

  running_addr-gone :
      (id : Text) (w : Workload) (m : Manager D Host)
      → get_workload id m.store ≡ some w
      → running_addr rt save cfg now id (forget id (set_state save id suspended m))
        ≡ err not_running
  unfolding running_addr forget set_state
  running_addr-gone id w m g =
      rw
        (
          get_workload-set_state_self save id suspended m g,
          running_addr,
          lookup-remove_self id m.live,
        )
        refl

  wake-err :
      (w : Workload) (m : Manager D Host) (x : Error)
      → (wake rt save cfg now w m).0 ≡ err x
      → (wake rt save cfg now w m).1 ≡ record m { host = (start w m.host).1 }
  unfolding wake
  wake-err w m x h = elim (Option-cases (start w m.host).0) [
    | inl e ↦ rw (e, wake) refl
    | inr (b, e) ↦ absurd (let q : ok b ≡ err x = rw (e, wake) at h in ground (arith, q))
  ]

  -- When EnsureRunning fails, because the workload is not there or because the driver refuses to
  -- start it, nothing of the manager is changed but the driver's own state: the stored state, the
  -- live instances, the grace periods and the clock of activity stay.
  pub ensure_running-err :
      (id : Text) (x : Error) (m : Manager D Host)
      → (ensure_running rt save cfg now id m).0 ≡ err x
      → (h : Host) × ((ensure_running rt save cfg now id m).1 ≡ record m { host = h })
  unfolding ensure_running
  ensure_running-err id x m h = elim (Option-cases (get_workload id m.store)) [
    | inl e ↦ (m.host, rw (e, ensure_running) refl)
    | inr (w, e) ↦ elim (Option-cases (lookup id m.live)) [
      | inl l ↦
          let q : (wake rt save cfg now w m).0 ≡ err x = rw (e, ensure_running, l) at h in
          ((start w m.host).1, rw (e, ensure_running, l) (wake-err w m x q))
      | inr (li, l) ↦ elim (Bool-cases (is_running (status m.host id))) [
        | inl r ↦
            absurd
              (let q : ok li.addr ≡ err x = rw (e, ensure_running, l, r) at h in ground (arith, q))
        | inr r ↦
            let q : (wake rt save cfg now w m).0 ≡ err x = rw (e, ensure_running, l, r) at h in
            ((start w m.host).1, rw (e, ensure_running, l, r) (wake-err w m x q))
      ]
    ]
  ]

  -- When StopWorkload succeeds, RunningAddr answers that the workload is not running, whatever the
  -- driver says of it, and the store has the workload as before, but for its state, which is
  -- suspended.
  pub stop_workload-running_addr :
      (id : Text) (m : Manager D Host)
      → (stop_workload rt save cfg now id m).0 ≡ none
      → (running_addr rt save cfg now id (stop_workload rt save cfg now id m).1 ≡ err not_running)
        × ((w : Workload) × (get_workload id m.store ≡ some w)
            × (get_workload id (stop_workload rt save cfg now id m).1.store
                ≡ some (record w { state = suspended })))
  unfolding stop_workload forget
  stop_workload-running_addr id m h = elim (Option-cases (get_workload id m.store)) [
    | inl e ↦
        absurd (let q : some not_found ≡ none = rw (e, stop_workload) at h in ground (arith, q))
    | inr (w, e) ↦ elim (Bool-cases (suspend id m.host).0) [
      | inl d ↦
          rw (e, stop_workload, d)
            (
              running_addr-gone id w _ e,
              (
                w,
                refl,
                get_workload-set_state_self save id suspended
                    (record m { host = (suspend id m.host).1 }) e,
              ),
            )
      | inr d ↦
          absurd (
            let q : some suspend_failed ≡ none = rw (e, stop_workload, d) at h in ground (arith, q))
    ]
  ]
