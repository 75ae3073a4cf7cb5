-- ===== src/Manager/Victims.antt =====
-- The projects that an eviction takes, and what a deletion leaves of a project
-- (orchestrator/internal/manager/eviction.go and manager.go).
use mathlib.Core.List.{Memᴰ}
use orchd.Prelude.{
  ℕ, ◌+◌, ◌≤◌, ◌≡◌, refl, sym, ap, subst, ◌∙◌, Text, text_eq, Bool, true, false, Option, none, List,
  [], ◌∷◌, if◌then◌else◌, map, All, is_some, ◌==◌, Bool-cases, inl, inr,
}
use orchd.Prelude.Int.{ℤ, pos_part}
use orchd.Table.{lookup, lookup-remove, lookup-remove_self}
use orchd.Store.Records.{Snapshot, Project, Workload}
use orchd.Store.Mem.{MemStore}
use orchd.Store.Query.{get_project, list_projects, list_workloads}
use orchd.Store.Keyed.{IsWellKeyed}
use orchd.Store.Cascade.{IsCascaded, delete_project-cascade}
use orchd.Manager.State.{Runtime, Manager, is_live, forget}
use orchd.Manager.Eviction.{
  Candidate, candidate_of, project_last_active, project_protected, lru_victims,
}
use orchd.Manager.Lru.{IsVictimId, select_lru_evictions-IsVictimId}
use orchd.Manager.Routes.{stop_all, delete_project}

module _ {D : Type 0} (min_age now : ℕ) (s : MemStore D) where
  -- A listed project of which no workload is kept warm or running, and which was not active within
  -- the minimal age.
  abbrev pub IsEvictable : Text → Type 0
  IsEvictable id =
      (p : Project) × Memᴰ p (list_projects s)
      × (p.id ≡ id)
      × (project_protected id s ≡ false)
      × (project_last_active p + min_age ≤ now)

  -- The project of which a candidate was made.
  from_project :
      (ps : List Project) (c : Candidate)
      → Memᴰ c (map (candidate_of s) ps)
      → (p : Project) × Memᴰ p ps × (candidate_of s p ≡ c)
  from_project [] c h = elim h [ ]
  from_project (p ∷ ps) c (Memᴰ.head e) = (p, Memᴰ.head refl, sym e)
  from_project (p ∷ ps) c (Memᴰ.tail h) = let r = from_project ps c h in (r.0, Memᴰ.tail r.1, r.2)

  IsVictimId-IsEvictable :
      (n : ℕ) (id : Text)
      → IsVictimId n min_age now (map (candidate_of s) (list_projects s)) id
      → IsEvictable id
  unfolding candidate_of
  IsVictimId-IsEvictable n id (c, i, (m, p, a, k)) =
      let r = from_project (list_projects s) c m in
      let own : r.0.id ≡ id = ap (λ x. x.id) r.2 ∙ i in
      (
        r.0,
        r.1,
        own,
        subst (λ j. project_protected j s ≡ false) own (ap (λ x. x.protected) r.2 ∙ p),
        subst (λ t. t + min_age ≤ now) (sym (ap (λ x. x.last_active) r.2)) a,
      )

  IsVictimId-All :
      (n : ℕ) (ids : List Text)
      → All (IsVictimId n min_age now (map (candidate_of s) (list_projects s))) ids
      → All IsEvictable ids
  IsVictimId-All n [] h = tt
  IsVictimId-All n (i ∷ ids) h = (IsVictimId-IsEvictable n i h.0, IsVictimId-All n ids h.1)

  unless_off :
      (off : Bool) (ids : List Text)
      → All IsEvictable ids
      → All IsEvictable (if off then [] else ids)
  unless_off true ids h = tt
  unless_off false ids h = h

  -- Whatever the ceiling and the batch are, each project that an eviction takes is a listed project
  -- of which no workload is kept warm or running and which was not active within the minimal age.
  pub lru_victims-IsEvictable : (batch : ℤ) → All IsEvictable (lru_victims batch min_age now s)
  unfolding lru_victims
  lru_victims-IsEvictable batch = unless_off (pos_part s.settings.lru_keep_max == 0) _ (
      IsVictimId-All (pos_part s.settings.lru_keep_max) _
        (select_lru_evictions-IsVictimId (map (candidate_of s) (list_projects s))
          s.settings.lru_keep_max batch min_age now).0)

module _ {D : Type 0} (rt : Runtime) (save : D → Snapshot → Option D) where
  open rt use {Host}

  pub stop_all-store :
      (ws : List Workload) (m : Manager D Host) → (stop_all rt save ws m).store ≡ m.store
  unfolding stop_all forget
  stop_all-store [] m = refl
  stop_all-store (w ∷ ws) m = stop_all-store ws _

  -- A workload that is forgotten stays so, and the ones of the list are forgotten.
  stop_all-keeps :
      (id : Text) (ws : List Workload) (m : Manager D Host)
      → lookup id m.live ≡ none
      → lookup id (stop_all rt save ws m).live ≡ none
  unfolding stop_all forget
  stop_all-keeps id [] m h = h
  stop_all-keeps id (w ∷ ws) m h = stop_all-keeps id ws _ (elim (Bool-cases (text_eq w.id id)) [
    | inl e ↦ rw (lookup-remove w.id id m.live, e) refl
    | inr e ↦ rw (lookup-remove w.id id m.live, e) h
  ])

  stop_all-forgets :
      (w : Workload) (ws : List Workload) (m : Manager D Host)
      → Memᴰ w ws
      → lookup w.id (stop_all rt save ws m).live ≡ none
  unfolding stop_all forget
  stop_all-forgets w [] m h = elim h [ ]
  stop_all-forgets w (v ∷ ws) m (Memᴰ.head e) =
      stop_all-keeps w.id ws _ (rw e (lookup-remove_self v.id m.live))
  stop_all-forgets w (v ∷ ws) m (Memᴰ.tail h) = stop_all-forgets w ws _ h

  -- In a store with each record under its own key, deleting a project that exists leaves none of
  -- its workloads in the live map, and takes the project, its workloads and their routes, and no
  -- other project, workload or route, from the store.
  pub delete_project-forgets :
      (id : Text) (m : Manager D Host)
      → IsWellKeyed m.store
      → is_some (get_project id m.store) ≡ true
      → ((w : Workload)
          → Memᴰ w (list_workloads id m.store)
          → is_live w.id (delete_project rt save id m).0 ≡ false)
        × IsCascaded id m.store (delete_project rt save id m).0.store
  unfolding delete_project is_live
  delete_project-forgets id m k h = (
    λ w i. rw (h, delete_project, stop_all-forgets w (list_workloads id m.store) m i) refl,
    rw (h, delete_project, stop_all-store (list_workloads id m.store) m)
        (delete_project-cascade save id m.store k h),
  )
