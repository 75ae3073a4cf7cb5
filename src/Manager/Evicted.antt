-- ===== src/Manager/Evicted.antt =====
-- What an eviction leaves of the projects (orchestrator/internal/manager/eviction.go).
use orchd.Prelude.{
  ℕ, ◌≡◌, ◌⊎◌, refl, sym, ◌∙◌, subst, inl, inr, Text, text_eq, text_eq_iff, Bool, true, false, not,
  ◌&&◌, Option, List, [], ◌∷◌, is_some, All, Bool-cases, Option-cases,
}
use orchd.Prelude.Int.{ℤ}
use orchd.Table.{lookup}
use orchd.Store.Records.{Snapshot, Workload, State, running, suspended}
use orchd.Store.Mem.{MemStore, flush_state, set_workload_state}
use orchd.Store.Query.{get_project, get_workload, list_workloads}
use orchd.Store.Keyed.{IsWellKeyed, call-IsWellKeyed}
use orchd.Store.Ops
use orchd.Store.Ops.{call}
use orchd.Store.Cascade.{delete_project-cascade}
use orchd.Manager.State.{Runtime, Manager, set_state, forget, mark_live}
use orchd.Manager.Eviction.{lru_victims}
use orchd.Manager.Routes.{delete_project}
use orchd.Manager.Victims.{IsEvictable, lru_victims-IsEvictable, stop_all-store}
use orchd.Manager.Vault.{Vault, BackupConfig, Site, backs_up, dumps}
use orchd.Manager.Dumps.{daily_dump, backup_dump, runs_now, dump_current}
use orchd.Manager.Schedule.{unchanged_since_backup, archive_workload, paused, resumed}
use orchd.Manager.Evict.{
  backup_archive, evict_backup, evict_backups, backup_before_evict, evict_one, evict_all, reap_lru,
}

-- Two stores with the same projects, of which the later is well-keyed if the earlier is.
abbrev SameProjects : {D : Type 0} → MemStore D → MemStore D → Type 0
SameProjects s t =
    ((j : Text) → get_project j t ≡ get_project j s) × (IsWellKeyed s → IsWellKeyed t)

same : {D : Type 0} (s : MemStore D) → SameProjects s s
same s = (λ j. refl, λ k. k)

after : {D : Type 0} (s t u : MemStore D) → SameProjects s t → SameProjects t u → SameProjects s u
after s t u (p, k) (q, l) = (λ j. q j ∙ p j, λ x. l (k x))

module _ {D : Type 0} (rt : Runtime) (v : Vault) (save : D → Snapshot → Option D)
    (cfg : BackupConfig) where
  set_workload_state-SameProjects :
      (id : Text) (st : State) (s : MemStore D) → SameProjects s (set_workload_state save id st s).0
  unfolding get_project set_workload_state call
  set_workload_state-SameProjects id st s = (
    λ j. elim (Option-cases (lookup id s.workloads)) [
      | inl e ↦ rw (set_workload_state, e) refl
      | inr (w, e) ↦ rw (set_workload_state, e, flush_state) refl
    ],
    λ k. call-IsWellKeyed save (Ops.workload_state id st) s k,
  )

  daily_dump-fleet :
      (w : Workload) (s : Site D rt.Host v.Files) → (daily_dump rt v cfg w s).1.fleet ≡ s.fleet
  unfolding daily_dump backup_dump
  daily_dump-fleet w s = elim (Bool-cases (is_some (get_workload w.id s.fleet.store))) [
    | inr e ↦ rw (daily_dump, e) refl
    | inl e ↦ elim (Bool-cases (not (runs_now rt v w s) && dump_current v s.files w)) [
      | inl c ↦ rw (daily_dump, e, c) refl
      | inr c ↦ rw (daily_dump, e, c) refl
    ]
  ]

  paused-SameProjects :
      (id : Text) (m : Manager D rt.Host) → SameProjects m.store (paused rt v save cfg id m).store
  unfolding paused forget set_state
  paused-SameProjects id m = set_workload_state-SameProjects id suspended m.store

  resumed-SameProjects :
      (now : ℕ) (w : Workload) (m : Manager D rt.Host)
      → SameProjects m.store (resumed rt v save cfg now w m).store
  unfolding resumed mark_live set_state
  resumed-SameProjects now w m = elim (Option-cases (rt.start w m.host).0) [
    | inl e ↦ rw (resumed, e) (same m.store)
    | inr (a, e) ↦ rw (resumed, e) (set_workload_state-SameProjects w.id running m.store)
  ]

  archive_workload-SameProjects :
      (w : Workload) (s : Site D rt.Host v.Files)
      → SameProjects s.fleet.store (archive_workload rt v save cfg w s).1.fleet.store
  unfolding archive_workload
  archive_workload-SameProjects w s = elim (Bool-cases (runs_now rt v w s)) [
    | inr e ↦ rw (archive_workload, e) (same s.fleet.store)
    | inl e ↦
        rw (archive_workload, e)
          (after s.fleet.store (paused rt v save cfg w.id s.fleet).store _
            (paused-SameProjects w.id s.fleet)
            (resumed-SameProjects (v.clock (v.archive w.id w.data_dir s.files).1) w
              (paused rt v save cfg w.id s.fleet)))
  ]

  evict_backup-SameProjects :
      (w : Workload) (s : Site D rt.Host v.Files)
      → SameProjects s.fleet.store (evict_backup rt v save cfg w s).1.fleet.store
  unfolding evict_backup backup_archive
  evict_backup-SameProjects w s = elim (Bool-cases (backs_up cfg w.kind)) [
    | inr e ↦ rw (evict_backup, e) (same s.fleet.store)
    | inl e ↦ elim (Bool-cases (dumps cfg w.kind)) [
      | inl d ↦
          rw (evict_backup, e, d)
            (subst (λ m. SameProjects s.fleet.store m.store) (sym (daily_dump-fleet w s))
              (same s.fleet.store))
      | inr d ↦ elim (Bool-cases (unchanged_since_backup v s.files w)) [
        | inl u ↦ rw (evict_backup, e, d, u) (same s.fleet.store)
        | inr u ↦ elim (Option-cases (get_workload w.id s.fleet.store)) [
          | inl g ↦ rw (evict_backup, e, d, u, backup_archive, g) (same s.fleet.store)
          | inr (x, g) ↦
              rw (evict_backup, e, d, u, backup_archive, g) (archive_workload-SameProjects x s)
        ]
      ]
    ]
  ]

  evict_backups-SameProjects :
      (ws : List Workload) (s : Site D rt.Host v.Files)
      → SameProjects s.fleet.store (evict_backups rt v save cfg ws s).1.fleet.store
  unfolding evict_backups
  evict_backups-SameProjects [] s = same s.fleet.store
  evict_backups-SameProjects (w ∷ ws) s =
      elim (Bool-cases (is_some (evict_backup rt v save cfg w s).0)) [
        | inl e ↦ rw (evict_backups, e) (evict_backup-SameProjects w s)
        | inr e ↦
            rw (evict_backups, e)
              (after s.fleet.store (evict_backup rt v save cfg w s).1.fleet.store _
                (evict_backup-SameProjects w s)
                (evict_backups-SameProjects ws (evict_backup rt v save cfg w s).1))
      ]

  backup_before_evict-SameProjects :
      (wanted : Bool) (id : Text) (s : Site D rt.Host v.Files)
      → SameProjects s.fleet.store (backup_before_evict rt v save cfg wanted id s).1.fleet.store
  unfolding backup_before_evict
  backup_before_evict-SameProjects wanted id s = elim (Bool-cases (wanted && cfg.enabled)) [
    | inr e ↦ rw (backup_before_evict, e) (same s.fleet.store)
    | inl e ↦
        rw (backup_before_evict, e) (evict_backups-SameProjects (list_workloads id s.fleet.store) s)
  ]

  delete_project-others :
      (id : Text) (m : Manager D rt.Host)
      → IsWellKeyed m.store
      → IsWellKeyed (delete_project rt save id m).0.store
        × ((j : Text)
            → text_eq id j ≡ false
            → get_project j (delete_project rt save id m).0.store ≡ get_project j m.store)
  unfolding delete_project call
  delete_project-others id m k = elim (Bool-cases (is_some (get_project id m.store))) [
    | inr e ↦ rw (delete_project, e) (k, λ j n. refl)
    | inl e ↦
        let cascade = delete_project-cascade save id m.store k e in
        rw (delete_project, e, stop_all-store rt save (list_workloads id m.store) m)
          (
            call-IsWellKeyed save (Ops.drop_project id) m.store k,
            λ j n. cascade.projects j ∙ rw n refl,
          )
  ]

  evict_one-others :
      (wanted : Bool) (id : Text) (s : Site D rt.Host v.Files)
      → IsWellKeyed s.fleet.store
      → IsWellKeyed (evict_one rt v save cfg wanted id s).fleet.store
        × ((j : Text)
            → text_eq id j ≡ false
            → get_project j (evict_one rt v save cfg wanted id s).fleet.store
              ≡ get_project j s.fleet.store)
  unfolding evict_one
  evict_one-others wanted id s k =
      let (kept, keyed) = backup_before_evict-SameProjects wanted id s in
      elim (Bool-cases (is_some (backup_before_evict rt v save cfg wanted id s).0)) [
        | inl e ↦ rw (evict_one, e) (keyed k, λ j n. kept j)
        | inr e ↦
            let (keyed', others) =
              delete_project-others id (backup_before_evict rt v save cfg wanted id s).1.fleet
                (keyed k) in
            rw (evict_one, e) (keyed', λ j n. others j n ∙ kept j)
      ]

  -- A project whose backups fail is not deleted, and no other is.
  pub evict_one-failed :
      (wanted : Bool) (id j : Text) (s : Site D rt.Host v.Files)
      → is_some (backup_before_evict rt v save cfg wanted id s).0 ≡ true
      → get_project j (evict_one rt v save cfg wanted id s).fleet.store
        ≡ get_project j s.fleet.store
  unfolding evict_one
  evict_one-failed wanted id j s e =
      rw (evict_one, e) ((backup_before_evict-SameProjects wanted id s).0 j)

  evict_all-others :
      (wanted : Bool) (j : Text) (ids : List Text) (s : Site D rt.Host v.Files)
      → IsWellKeyed s.fleet.store
      → All (λ i. text_eq i j ≡ false) ids
      → get_project j (evict_all rt v save cfg wanted ids s).fleet.store
        ≡ get_project j s.fleet.store
  unfolding evict_all
  evict_all-others wanted j [] s k h = refl
  evict_all-others wanted j (id ∷ ids) s k h =
      let (keyed, others) = evict_one-others wanted id s k in
      evict_all-others wanted j ids (evict_one rt v save cfg wanted id s) keyed h.1 ∙ others j h.0

  among :
      (P : Text → Type 0) (j : Text) (ids : List Text)
      → All P ids
      → P j ⊎ All (λ i. text_eq i j ≡ false) ids
  among P j [] h = inr tt
  among P j (i ∷ ids) h = elim (Bool-cases (text_eq i j)) [
    | inl e ↦ inl (subst P ((text_eq_iff i j).0 e) h.0)
    | inr e ↦ elim (among P j ids h.1) [ inl p ↦ inl p | inr a ↦ inr (e, a) ]
  ]

  -- On a store whose maps hold each record under its key, a run of the eviction leaves each project
  -- as it was, or the project was listed, none of its workloads was kept warm or running, and it was
  -- not active within the minimal age.
  pub reap_lru-get_project :
      (wanted : Bool) (batch : ℤ) (min_age now : ℕ) (j : Text) (s : Site D rt.Host v.Files)
      → IsWellKeyed s.fleet.store
      → IsEvictable min_age now s.fleet.store j
        ⊎ (get_project j (reap_lru rt v save cfg wanted batch min_age now s).fleet.store
            ≡ get_project j s.fleet.store)
  unfolding reap_lru
  reap_lru-get_project wanted batch min_age now j s k =
      elim (among (IsEvictable min_age now s.fleet.store) j
        (lru_victims batch min_age now s.fleet.store)
        (lru_victims-IsEvictable min_age now s.fleet.store batch)) [
          | inl p ↦ inl p
          | inr a ↦
              inr (evict_all-others wanted j (lru_victims batch min_age now s.fleet.store) s k a)
        ]
