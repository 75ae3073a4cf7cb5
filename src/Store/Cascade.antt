-- ===== src/Store/Cascade.antt =====
-- What DeleteProject and DeleteWorkload take with them
-- (orchestrator/internal/store/store.go).
use orchd.Prelude.{
  Text, to_lower, text_eq, text_eq_iff, ◌≡◌, refl, ◌∙◌, Bool, true, false, ◌&&◌, ◌||◌, Option, none,
  some, [], ◌∷◌, arith, is_some, Option-cases, inl, inr, if◌then◌else◌,
}
use orchd.Table.{
  Table, lookup, remove, IsKeyed, lookup-remove, lookup-remove_if, unless, remove-IsKeyed,
}
use orchd.Store.Records.{Snapshot, Workload, Route}
use orchd.Store.Mem.{
  MemStore, workload_key, route_key, project_key, flush_state, delete_routes_for_workload,
  delete_owned, delete_workloads_of, delete_project, delete_workload,
}
use orchd.Store.Query.{get_project, get_workload, get_route_by_host}
use orchd.Store.Keyed.{IsWellKeyed, delete_owned-IsWellKeyed}

-- The workloads of a range that belong to a project.
abbrev owned : Text → Table Workload → Text → Bool
owned id [] wid = false
owned id ((k, w) ∷ ws) wid = (text_eq w.project_id id && text_eq k wid) || owned id ws wid

-- Whether a workload that a look-up found belongs to a project.
abbrev pub belongs : Text → Option Workload → Bool
belongs id none = false
belongs id (some w) = text_eq w.project_id id

-- Under unique keys these are the workloads that the map holds for the project.
owned-lookup :
    (id : Text) (ws : Table Workload) (wid : Text)
    → IsKeyed workload_key ws
    → owned id ws wid ≡ belongs id (lookup wid ws)
unfolding lookup
owned-lookup id [] wid h = refl
owned-lookup id ((k, w) ∷ ws) wid h =
    ground (arith, owned-lookup id ws wid h.2, text_eq_iff k wid, h.1)

unless-owned :
    (id : Text) (ws : Table Workload) (found : Option Route)
    → IsKeyed workload_key ws
    → unless (λ r. owned id ws r.workload_id) found
      ≡ unless (λ r. belongs id (lookup r.workload_id ws)) found
unless-owned id ws none h = refl
unless-owned id ws (some r) h = rw (owned-lookup id ws r.workload_id h)

module _ {D : Type 0} (save : D → Snapshot → Option D) where
  workloads-delete_owned :
      (id wid : Text) (w : Workload) (s : MemStore D) (j : Text)
      → lookup j (delete_owned save id wid w s).workloads
        ≡ (if text_eq w.project_id id && text_eq wid j then none else lookup j s.workloads)
  unfolding delete_owned delete_routes_for_workload
  workloads-delete_owned id wid w s j = ground (arith, lookup-remove wid j s.workloads)

  workloads-delete_workloads_of :
      (id : Text) (ws : Table Workload) (s : MemStore D) (j : Text)
      → lookup j (delete_workloads_of save id ws s).workloads
        ≡ (if owned id ws j then none else lookup j s.workloads)
  unfolding delete_workloads_of
  workloads-delete_workloads_of id [] s j = refl
  workloads-delete_workloads_of id ((k, w) ∷ ws) s j = ground (
    arith,
    workloads-delete_workloads_of id ws (delete_owned save id k w s) j,
    workloads-delete_owned id k w s j,
  )

  routes-delete_owned :
      (id wid : Text) (w : Workload) (s : MemStore D) (host : Text)
      → IsKeyed route_key s.routes
      → lookup host (delete_owned save id wid w s).routes
        ≡ unless (λ r. text_eq w.project_id id && text_eq r.workload_id wid) (lookup host s.routes)
  unfolding delete_owned delete_routes_for_workload
  routes-delete_owned id wid w s host h =
      ground (arith, lookup-remove_if route_key (λ _ r. text_eq r.workload_id wid) host s.routes h)

  routes-delete_workloads_of :
      (id : Text) (ws : Table Workload) (s : MemStore D) (host : Text)
      → IsWellKeyed s
      → lookup host (delete_workloads_of save id ws s).routes
        ≡ unless (λ r. owned id ws r.workload_id) (lookup host s.routes)
  unfolding delete_workloads_of
  routes-delete_workloads_of id [] s host h = ground arith
  routes-delete_workloads_of id ((k, w) ∷ ws) s host h =
      elim (Option-cases (lookup host s.routes)) [
        | inl e ↦ ground (
          arith,
          e,
          routes-delete_workloads_of id ws (delete_owned save id k w s) host
              (delete_owned-IsWellKeyed save id k w s h),
          routes-delete_owned id k w s host h.routes,
        )
        | inr (r, e) ↦ ground (
          arith,
          e,
          routes-delete_workloads_of id ws (delete_owned save id k w s) host
              (delete_owned-IsWellKeyed save id k w s h),
          routes-delete_owned id k w s host h.routes,
          text_eq_iff k r.workload_id,
          text_eq_iff r.workload_id k,
        )
      ]

  projects-delete_workloads_of :
      (id : Text) (ws : Table Workload) (s : MemStore D)
      → (delete_workloads_of save id ws s).projects ≡ s.projects
  unfolding delete_workloads_of delete_owned delete_routes_for_workload
  projects-delete_workloads_of id [] s = refl
  projects-delete_workloads_of id ((k, w) ∷ ws) s =
      ground (arith, projects-delete_workloads_of id ws (delete_owned save id k w s))

-- What is left of a store `s` in `t` after its project `id` went: of the projects the others; of
-- the workloads those of other projects; of the routes those to no workload of the project.
pub record IsCascaded {D : Type 0} (id : Text) (s t : MemStore D) : Type 0 where
  pub projects : (j : Text) → get_project j t ≡ (if text_eq id j then none else get_project j s)
  pub workloads :
      (wid : Text) → get_workload wid t ≡ unless (λ w. text_eq w.project_id id) (get_workload wid s)
  pub routes :
      (host : Text)
      → get_route_by_host host t
        ≡ unless (λ r. belongs id (get_workload r.workload_id s)) (get_route_by_host host s)

module _ {D : Type 0} (save : D → Snapshot → Option D) where
  -- In a store with each record under its own key, deleting a project that exists takes the
  -- project, its workloads and their routes, and no other project, workload or route, also when the
  -- flush fails.
  pub delete_project-cascade :
      (id : Text) (s : MemStore D)
      → IsWellKeyed s
      → is_some (get_project id s) ≡ true
      → IsCascaded id s (delete_project save id s).0
  unfolding get_project get_workload get_route_by_host delete_project
  delete_project-cascade id s h e =
      let t = record s { projects = remove id s.projects } in
      let u = delete_workloads_of save id s.workloads t in
      rw (e, delete_project)
        (rw (flush_state save u) (record {
          projects = λ j.
              rw (projects-delete_workloads_of save id s.workloads t)
                (lookup-remove id j s.projects);
          workloads = λ wid. ground (
            arith,
            workloads-delete_workloads_of save id s.workloads t wid,
            owned-lookup id s.workloads wid h.workloads,
          );
          routes = λ host.
              routes-delete_workloads_of save id s.workloads t (to_lower host)
                (assumption (remove-IsKeyed project_key id s.projects h.projects))
              ∙ unless-owned id s.workloads (lookup (to_lower host) s.routes) h.workloads;
        }))

  -- In a store with each record under its own key, deleting a workload that exists takes it and
  -- its routes, and no other workload or route, also when the flush fails.
  pub delete_workload-cascade :
      (id : Text) (s : MemStore D)
      → IsWellKeyed s
      → is_some (get_workload id s) ≡ true
      → ((j : Text)
          → get_workload j (delete_workload save id s).0
            ≡ (if text_eq id j then none else get_workload j s))
        × ((host : Text)
            → get_route_by_host host (delete_workload save id s).0
              ≡ unless (λ r. text_eq r.workload_id id) (get_route_by_host host s))
  unfolding get_workload get_route_by_host delete_workload delete_routes_for_workload
  delete_workload-cascade id s h e =
      rw (e, delete_workload)
        (rw
          (flush_state save
            (delete_routes_for_workload save id (record s { workloads = remove id s.workloads })))
          (
            (λ j. lookup-remove id j s.workloads),
            (λ host.
                lookup-remove_if route_key (λ _ r. text_eq r.workload_id id) (to_lower host)
                  s.routes h.routes),
          ))
