-- ===== src/Manager/Reap.antt =====
-- Who ReapIdle puts to sleep and who it spares (orchestrator/internal/manager/manager.go).
use orchd.Prelude.{
  ℕ, ◌+◌, ◌≤◌, ◌≡◌, ◌⊎◌, refl, arith, sym, ◌∙◌, ap, Text, text_eq, text_eq_iff, codes, Bool, true,
  false, not, Option, some, List, [], ◌∷◌, keep, All, is_some, ◌==◌, Bool-cases, Option-cases, inl,
  inr, false≢true,
}
use orchd.Prelude.Lists.{All-append}
use orchd.Table.{Table, lookup, keys, lookup-remove}
use orchd.Store.Records.{Snapshot, Workload, suspended}
use orchd.Store.Query.{get_workload, list_workloads}
use orchd.Manager.State.{Runtime, Manager, Config, LiveInstance, is_kept_warm, forget, set_state}
use orchd.Manager.Reaper.{
  is_over, seen_at, stale_live, sweep_one, sweep_unowned, stale, put_to_sleep, reap_one, reap_all,
  reap_idle,
}
use orchd.Manager.Frames.{SameService, note_project_activity-SameService, get_workload-set_state_ne}

-- Not one of a list of ids.
abbrev IsAmong : Text → List Text → Type 0
IsAmong id ids = All (λ j. text_eq j id ≡ false) ids

-- Two ids that a test tells apart differ.
pub told_apart : (p : Text → Bool) (i j : Text) → p j ≡ true → p i ≡ false → text_eq j i ≡ false
told_apart p i j h k = elim (Bool-cases (text_eq j i)) [
  | inl t ↦ absurd (false≢true (sym k ∙ ap p (sym ((text_eq_iff j i).0 t)) ∙ h))
  | inr f ↦ f
]

stale_live-spares :
    (id : Text) (timeout now : ℕ) (live : Table LiveInstance) (js : List Text)
    → is_over timeout now (seen_at (lookup id live)) ≡ false
    → IsAmong id (keep (λ j. is_over timeout now (seen_at (lookup j live))) js)
stale_live-spares id timeout now live [] h = tt
stale_live-spares id timeout now live (j ∷ js) h =
    elim (Bool-cases (is_over timeout now (seen_at (lookup j live)))) [
      | inl e ↦ rw e (
        told_apart (λ j. is_over timeout now (seen_at (lookup j live))) id j e h,
        stale_live-spares id timeout now live js h,
      )
      | inr e ↦ rw e (stale_live-spares id timeout now live js h)
    ]

sweep_one-spares :
    (id : Text) (timeout now : ℕ) (live : Table LiveInstance) (w : Workload) (unowned : Table ℕ)
    → is_some (lookup id live) ≡ true
    → IsAmong id (sweep_one timeout now live w unowned).1
unfolding sweep_one
sweep_one-spares id timeout now live w unowned h = elim (Bool-cases (is_some (lookup w.id live))) [
  | inl e ↦ ground (arith, e)
  | inr e ↦
      let n : text_eq w.id id ≡ false =
        told_apart (λ j. not (is_some (lookup j live))) id w.id (ground (arith, e))
          (ground (arith, h)) in
      ground (arith, n)
]

sweep_unowned-spares :
    (id : Text) (timeout now : ℕ) (live : Table LiveInstance) (ws : List Workload)
    (unowned : Table ℕ)
    → is_some (lookup id live) ≡ true
    → IsAmong id (sweep_unowned timeout now live ws unowned).1
unfolding sweep_unowned
sweep_unowned-spares id timeout now live [] unowned h = tt
sweep_unowned-spares id timeout now live (w ∷ ws) unowned h =
    All-append _ (sweep_one timeout now live w unowned).1 _
      (sweep_one-spares id timeout now live w unowned h)
      (sweep_unowned-spares id timeout now live ws (sweep_one timeout now live w unowned).0 h)

module _ {D : Type 0} (rt : Runtime) (save : D → Snapshot → Option D) (cfg : Config) (now : ℕ) where
  open rt use {Host, status, suspend}

  -- What a manager knows of one workload, in memory, in the driver and in the store.
  pub record Same (id : Text) (m m' : Manager D Host) : Type 0 where
    pub live : lookup id m'.live ≡ lookup id m.live
    pub status_of : status m'.host id ≡ status m.host id
    pub workload : get_workload id m'.store ≡ get_workload id m.store

  -- The state that put_to_sleep leaves, but for the clock of activity.
  unfoldable pub slept : Text → Manager D Host → Manager D Host
  slept id m = forget id (set_state save id suspended (record m { host = (suspend id m.host).1 }))

  pub put_to_sleep-SameService :
      (id : Text) (m : Manager D Host)
      → (suspend id m.host).0 ≡ true
      → SameService save (slept id m) (put_to_sleep rt save cfg now id m)
  unfolding put_to_sleep slept
  put_to_sleep-SameService id m e = elim (Option-cases (get_workload id (slept id m).store)) [
    | inl f ↦
        rw (e, put_to_sleep, f)
          record { host = refl; live = refl; unowned = refl; workload = λ j. refl }
    | inr (w, f) ↦
        rw (e, put_to_sleep, f) (note_project_activity-SameService save cfg now w.project_id true _)
  ]

  SameService-Same : (id : Text) (m m' : Manager D Host) → SameService save m m' → Same id m m'
  SameService-Same id m m' s = record {
    live = rw s.live refl;
    status_of = rw s.host refl;
    workload = s.workload id;
  }

  past_grace :
      (t : Table ℕ) (id : Text) (m m' : Manager D Host)
      → Same id (record m { unowned = t }) m'
      → Same id m m'
  past_grace t id m m' s = record { live = s.live; status_of = s.status_of; workload = s.workload }

  Same-trans : (id : Text) (a b c : Manager D Host) → Same id a b → Same id b c → Same id a c
  Same-trans id a b c h k = record {
    live = k.live ∙ h.live;
    status_of = k.status_of ∙ h.status_of;
    workload = k.workload ∙ h.workload;
  }

  -- A driver's suspend of one workload leaves the others' status alone.
  module _
      (suspends_one : (i j : Text) (h : Host)
        → text_eq i j ≡ false
        → status (suspend i h).1 j ≡ status h j) where
    slept-Same : (i j : Text) (m : Manager D Host) → text_eq i j ≡ false → Same j m (slept i m)
    unfolding slept forget set_state
    slept-Same i j m n = record {
      live = rw (lookup-remove i j m.live, n) refl;
      status_of = suspends_one i j m.host n;
      workload =
          get_workload-set_state_ne save i j suspended (record m { host = (suspend i m.host).1 }) n;
    }

    pub put_to_sleep-Same :
        (i j : Text) (m : Manager D Host)
        → text_eq i j ≡ false
        → Same j m (put_to_sleep rt save cfg now i m)
    unfolding put_to_sleep
    put_to_sleep-Same i j m n = elim (Bool-cases (suspend i m.host).0) [
      | inl e ↦
          Same-trans j m (slept i m) _ (slept-Same i j m n)
            (SameService-Same j (slept i m) _ (put_to_sleep-SameService i m e))
      | inr e ↦
          rw (e, put_to_sleep)
            record { live = refl; status_of = suspends_one i j m.host n; workload = refl }
    ]

    pub reap_one-Same :
        (i j : Text) (m : Manager D Host)
        → (text_eq i j ≡ false) ⊎ (is_kept_warm (get_workload j m.store) ≡ true)
        → Same j m (reap_one rt save cfg now i m)
    unfolding reap_one
    reap_one-Same i j m h = elim (Bool-cases (is_kept_warm (get_workload i m.store))) [
      | inl e ↦ rw (e, reap_one) record { live = refl; status_of = refl; workload = refl }
      | inr e ↦
          rw (e, reap_one)
            (put_to_sleep-Same i j m (elim h [
              | inl n ↦ n
              | inr k ↦
                  told_apart (λ x. not (is_kept_warm (get_workload x m.store))) j i (rw e refl)
                    (rw k refl)
            ]))
    ]

    reap_all-spares :
        (ids : List Text) (j : Text) (m : Manager D Host)
        → IsAmong j ids
        → Same j m (reap_all rt save cfg now ids m)
    unfolding reap_all
    reap_all-spares [] j m h = record { live = refl; status_of = refl; workload = refl }
    reap_all-spares (i ∷ ids) j m h =
        Same-trans j m (reap_one rt save cfg now i m) _ (reap_one-Same i j m (inl h.0))
          (reap_all-spares ids j _ h.1)

    reap_all-kept_warm :
        (ids : List Text) (j : Text) (m : Manager D Host)
        → is_kept_warm (get_workload j m.store) ≡ true
        → Same j m (reap_all rt save cfg now ids m)
    unfolding reap_all
    reap_all-kept_warm [] j m h = record { live = refl; status_of = refl; workload = refl }
    reap_all-kept_warm (i ∷ ids) j m h =
        let s : Same j m (reap_one rt save cfg now i m) = reap_one-Same i j m (inr h) in
        Same-trans j m (reap_one rt save cfg now i m) _ s
          (reap_all-kept_warm ids j _ (ap is_kept_warm s.workload ∙ h))

    -- With a driver whose suspend of one workload leaves the status of the others alone: a workload
    -- that is kept warm, or is live and was used within the idle timeout, keeps its live entry, its
    -- status in the driver and its stored record through any pass of the idle reaper.
    pub reap_idle-spares :
        (id : Text) (m : Manager D Host)
        → (is_kept_warm (get_workload id m.store) ≡ true)
          ⊎ ((li : LiveInstance) × (lookup id m.live ≡ some li)
              × (now ≤ li.last_seen + cfg.idle_timeout))
        → Same id m (reap_idle rt save cfg now m)
    unfolding reap_idle stale stale_live
    reap_idle-spares id m h = elim (Bool-cases (cfg.idle_timeout == 0)) [
      | inl e ↦ rw (e, reap_idle) record { live = refl; status_of = refl; workload = refl }
      | inr e ↦
          rw (e, reap_idle)
            (elim h [
              | inl k ↦ past_grace _ id m _ (
                  reap_all-kept_warm (stale rt save cfg now m).1 id
                    (record m { unowned = (stale rt save cfg now m).0 }) k)
              | inr (li, l, t) ↦ past_grace _ id m _ (
                  reap_all-spares (stale rt save cfg now m).1 id
                    (record m { unowned = (stale rt save cfg now m).0 })
                    (All-append _ (stale_live cfg.idle_timeout now m.live) _
                      (stale_live-spares id cfg.idle_timeout now m.live (keys m.live)
                        (rw l (ground (arith, t))))
                      (sweep_unowned-spares id cfg.idle_timeout now m.live
                        (list_workloads (codes "") m.store) m.unowned (rw l refl))))
            ])
    ]
