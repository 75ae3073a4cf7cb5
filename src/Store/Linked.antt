-- ===== src/Store/Linked.antt =====
-- No route names a workload that is gone, and no workload a project that is gone
-- (orchestrator/internal/store/store.go).
use orchd.Prelude.{
  Text, text_eq, text_eq_iff, to_lower, ◌≡◌, sym, ◌∙◌, Bool, true, false, Option, some, arith,
  is_some, Option-cases, Bool-cases, inl, inr, if◌then◌else◌,
}
use orchd.Table.{lookup, lookup-insert, lookup-remove, lookup-remove_if, unless-eq-some}
use orchd.Store.Records.{Snapshot, Workload, Route, Project, State}
use orchd.Store.Mem.{
  MemStore, route_key, flush, flush_state, next_disk, put_project, put_workload, put_route,
  put_region, put_apikey, put_image, set_settings, set_workload_state, delete_project,
  delete_workload, delete_route, delete_region, delete_apikey, delete_image,
  delete_routes_for_workload, not_found,
}
use orchd.Store.Query.{get_project, get_workload, get_route_by_host}
use orchd.Store.Ops.{
  Op, project, workload, route, region, apikey, image, settings, workload_state, drop_project,
  drop_workload, drop_route, drop_region, drop_apikey, drop_image, call,
}
use orchd.Store.Keyed.{IsWellKeyed}
use orchd.Store.Cascade.{belongs, IsCascaded, delete_project-cascade}

pub record IsLinked {D : Type 0} (s : MemStore D) : Type 0 where
  pub routes :
      (host : Text) (r : Route)
      → get_route_by_host host s ≡ some r
      → is_some (get_workload r.workload_id s) ≡ true
  pub workloads :
      (id : Text) (w : Workload)
      → get_workload id s ≡ some w
      → is_some (get_project w.project_id s) ≡ true

-- What the manager checks before it stores a route or a workload.
abbrev pub IsAllowed : {D : Type 0} → Op → MemStore D → Type 0
IsAllowed (route r) s = is_some (get_workload r.workload_id s) ≡ true
IsAllowed (workload w) s = is_some (get_project w.project_id s) ≡ true
IsAllowed _ s = Unit

-- The links read three maps.
module _ {D : Type 0} {s : MemStore D} where
  pub IsLinked-disk : (d : D) → IsLinked s → IsLinked (record s { disk = d })
  unfolding get_project get_workload get_route_by_host
  IsLinked-disk d h = record { routes = h.routes; workloads = h.workloads }

module _ {D : Type 0} (save : D → Snapshot → Option D) where
  flush-IsLinked : (s : MemStore D) → IsLinked s → IsLinked (flush save s).0
  flush-IsLinked s h = rw (flush_state save s) (IsLinked-disk (next_disk save s) h)

  checked-IsLinked :
      (b : Bool) (s t : MemStore D)
      → IsLinked s
      → IsLinked t
      → IsLinked (if b then flush save t else (s, some not_found)).0
  checked-IsLinked true s t h k = flush-IsLinked t k
  checked-IsLinked false s t h k = h

  put_project-IsLinked :
      (p : Project) (s : MemStore D) → IsLinked s → IsLinked (put_project save p s).0
  unfolding put_project get_project get_workload get_route_by_host
  put_project-IsLinked p s h = flush-IsLinked _ (record {
    routes = h.routes;
    workloads =
        λ id w e. ground (arith, h.workloads id w e, lookup-insert p.id w.project_id p s.projects);
  })

  put_workload-IsLinked :
      (w : Workload) (s : MemStore D)
      → is_some (get_project w.project_id s) ≡ true
      → IsLinked s
      → IsLinked (put_workload save w s).0
  unfolding put_workload get_project get_workload get_route_by_host
  put_workload-IsLinked w s a h = flush-IsLinked _ (record {
    routes = λ host r e.
        ground (arith, h.routes host r e, lookup-insert w.id r.workload_id w s.workloads);
    workloads = λ id v e. ground (arith, h.workloads id v, lookup-insert w.id id w s.workloads, a);
  })

  put_route-IsLinked :
      (r : Route) (s : MemStore D)
      → is_some (get_workload r.workload_id s) ≡ true
      → IsLinked s
      → IsLinked (put_route save r s).0
  unfolding put_route get_project get_workload get_route_by_host
  put_route-IsLinked r s a h = flush-IsLinked _ (record {
    routes = λ host q e. ground (
      arith,
      h.routes host q,
      lookup-insert (to_lower r.host) (to_lower host) (record r { host = to_lower r.host })
          s.routes,
      a,
    );
    workloads = h.workloads;
  })

  set_workload_state-IsLinked :
      (id : Text) (st : State) (s : MemStore D)
      → IsLinked s
      → IsLinked (set_workload_state save id st s).0
  unfolding set_workload_state get_project get_workload get_route_by_host
  set_workload_state-IsLinked id st s h = elim (Option-cases (lookup id s.workloads)) [
    | inl e ↦ rw (e, set_workload_state) h
    | inr (w, e) ↦
        rw (e, set_workload_state)
          (flush-IsLinked _ (record {
            routes = λ host r q. ground (
              arith,
              h.routes host r q,
              lookup-insert id r.workload_id (record w { state = st }) s.workloads,
            );
            workloads = λ j v q. ground (
              arith,
              h.workloads j v,
              h.workloads id w e,
              lookup-insert id j (record w { state = st }) s.workloads,
            );
          }))
  ]

  delete_route-IsLinked :
      (host : Text) (s : MemStore D) → IsLinked s → IsLinked (delete_route save host s).0
  unfolding delete_route get_project get_workload get_route_by_host
  delete_route-IsLinked host s h = checked-IsLinked _ s _ h (record {
    routes =
        λ j r e. ground (arith, h.routes j r, lookup-remove (to_lower host) (to_lower j) s.routes);
    workloads = h.workloads;
  })

  IsCascaded-IsLinked : (id : Text) (s t : MemStore D) → IsCascaded id s t → IsLinked s → IsLinked t
  IsCascaded-IsLinked id s t c h = record {
    routes = λ host r e.
        let (found, other) =
          unless-eq-some (λ q. belongs id (get_workload q.workload_id s)) (get_route_by_host host s)
            (sym (c.routes host) ∙ e) in
        ground (arith, h.routes host r found, other, c.workloads r.workload_id);
    workloads = λ wid w e.
        let (found, other) =
          unless-eq-some (λ v. text_eq v.project_id id) (get_workload wid s)
            (sym (c.workloads wid) ∙ e) in
        ground (
          arith,
          h.workloads wid w found,
          other,
          c.projects w.project_id,
          text_eq_iff id w.project_id,
          text_eq_iff w.project_id id,
        );
  }

  delete_project-IsLinked :
      (id : Text) (s : MemStore D)
      → IsWellKeyed s
      → IsLinked s
      → IsLinked (delete_project save id s).0
  delete_project-IsLinked id s k h = elim (Bool-cases (is_some (get_project id s))) [
    | inl e ↦
        IsCascaded-IsLinked id s (delete_project save id s).0 (delete_project-cascade save id s k e)
          h
    | inr e ↦ unfold get_project delete_project in rw (e, delete_project) h
  ]

  delete_workload-IsLinked :
      (id : Text) (s : MemStore D)
      → IsWellKeyed s
      → IsLinked s
      → IsLinked (delete_workload save id s).0
  unfolding delete_workload delete_routes_for_workload get_project get_workload get_route_by_host
  delete_workload-IsLinked id s k h = checked-IsLinked _ s _ h (record {
    routes = λ host r e.
        let (found, other) =
          unless-eq-some (λ q. text_eq q.workload_id id) (lookup (to_lower host) s.routes)
            (sym (
                lookup-remove_if route_key (λ _ q. text_eq q.workload_id id) (to_lower host)
                  s.routes k.routes)
              ∙ e) in
        ground (
          arith,
          h.routes host r found,
          other,
          lookup-remove id r.workload_id s.workloads,
          text_eq_iff id r.workload_id,
          text_eq_iff r.workload_id id,
        );
    workloads = λ wid w e. ground (arith, h.workloads wid w, lookup-remove id wid s.workloads);
  })

  -- In a store with each record under its own key, where every route leads to a stored workload
  -- and every workload to a stored project, every call keeps it so, failed or not: PutRoute when it
  -- is given a stored workload, PutWorkload when it is given a stored project, and any other call
  -- without a condition.
  pub call-IsLinked :
      (op : Op) (s : MemStore D)
      → IsAllowed op s
      → IsWellKeyed s
      → IsLinked s
      → IsLinked (call save op s).0
  unfolding call put_region put_apikey put_image set_settings delete_region delete_apikey
      delete_image get_project get_workload get_route_by_host
  call-IsLinked (project p) s a k h = put_project-IsLinked p s h
  call-IsLinked (workload w) s a k h = put_workload-IsLinked w s a h
  call-IsLinked (route r) s a k h = put_route-IsLinked r s a h
  call-IsLinked (region r) s a k h =
      flush-IsLinked _ (record { routes = h.routes; workloads = h.workloads })
  call-IsLinked (apikey r) s a k h =
      flush-IsLinked _ (record { routes = h.routes; workloads = h.workloads })
  call-IsLinked (image r) s a k h =
      flush-IsLinked _ (record { routes = h.routes; workloads = h.workloads })
  call-IsLinked (settings r) s a k h =
      flush-IsLinked _ (record { routes = h.routes; workloads = h.workloads })
  call-IsLinked (workload_state id st) s a k h = set_workload_state-IsLinked id st s h
  call-IsLinked (drop_project id) s a k h = delete_project-IsLinked id s k h
  call-IsLinked (drop_workload id) s a k h = delete_workload-IsLinked id s k h
  call-IsLinked (drop_route host) s a k h = delete_route-IsLinked host s h
  call-IsLinked (drop_region r) s a k h =
      checked-IsLinked _ s _ h (record { routes = h.routes; workloads = h.workloads })
  call-IsLinked (drop_apikey r) s a k h =
      checked-IsLinked _ s _ h (record { routes = h.routes; workloads = h.workloads })
  call-IsLinked (drop_image t v) s a k h =
      checked-IsLinked _ s _ h (record { routes = h.routes; workloads = h.workloads })
