-- ===== src/Gateway/Routed.antt =====
-- Routes that are added and removed, as requests see them: AddRoute and RemoveRoute of
-- orchestrator/internal/manager/manager.go and resolve of orchestrator/internal/gateway/gateway.go.
use orchd.Prelude.{
  ℕ, ◌≡◌, ◌⊎◌, refl, arith, ap, sym, ◌∙◌, Text, codes, text_eq, text_eq_iff, text_eq_refl, to_lower,
  to_lower_idem, trim_space, true, false, Option, none, some, List, if◌then◌else◌, is_some,
  Bool-cases, Option-cases, inl, inr, false≢true, Bool, ◌++◌, ◌∷◌, index_of, has_suffix,
  trim_suffix, trim_suffix-append, take-length_append, index_of-append, index_of-append_none,
}
use orchd.Table.{lookup, lookup-insert, lookup-remove}
use orchd.Store.Records.{Snapshot, Route, Workload}
use orchd.Store.Mem
use orchd.Store.Mem.{MemStore, put_route, flush_state, flush}
use orchd.Store.Query.{get_workload, get_route_by_host}
use orchd.Manager.Routes.{
  RouteError, is_taken, workload_of_route, resolve_host, add_route, remove_route, host_required,
  no_workload, taken, no_route,
}
use orchd.Gateway.Routing.{host_only, before_byte, colon, resolve}

-- What a route leads to hangs on the workloads only.
workload_of_route-workloads :
    {D : Type 0} (o : Option Route) (s t : MemStore D)
    → s.workloads ≡ t.workloads
    → workload_of_route o s ≡ workload_of_route o t
unfolding workload_of_route get_workload
workload_of_route-workloads none s t e = refl
workload_of_route-workloads (some r) s t e = rw e refl

-- A host that is not taken and resolves, resolves to the workload that asks.
same_workload :
    {D : Type 0} (id h : Text) (w : Workload) (s : MemStore D)
    → resolve_host h s ≡ some w
    → is_taken id (lookup (to_lower h) s.routes) ≡ false
    → get_workload id s ≡ some w
unfolding resolve_host get_route_by_host workload_of_route
same_workload id h w s e g = elim (Option-cases (lookup (to_lower h) s.routes)) [
  | inl o ↦ absurd (let q : none ≡ some w = rw (resolve_host, o) at e in ground (arith, q))
  | inr (r, o) ↦
      let t : is_taken id (some r) ≡ false = rw o at g in
      let i : r.workload_id ≡ id = ground (arith, t, text_eq_iff r.workload_id id) in
      let q : get_workload r.workload_id s ≡ some w = rw (resolve_host, o) at e in rw (← i) q
]

-- A host as a Host header may write it: with a final dot, and with a port.
abbrev pub with_dot : Bool → Text → Text
with_dot true host = host ++ codes "."
with_dot false host = host

abbrev pub with_port : Option Text → Text → Text
with_port none host = host
with_port (some port) host = host ++ (colon ∷ port)

abbrev pub spelled : Bool → Option Text → Text → Text
spelled dotted port host = with_port port (with_dot dotted host)

before_byte-with_port :
    (port : Option Text) (host : Text)
    → index_of colon host ≡ none
    → before_byte colon (with_port port host) ≡ host
unfolding before_byte
before_byte-with_port none host h = rw (before_byte, h) refl
before_byte-with_port (some port) host h =
    rw (before_byte, index_of-append colon host port h, take-length_append host (colon ∷ port)) refl

colon-with_dot :
    (dotted : Bool) (host : Text)
    → index_of colon host ≡ none
    → index_of colon (with_dot dotted host) ≡ none
colon-with_dot true host h = index_of-append_none colon host (codes ".") h (unfold index_of in refl)
colon-with_dot false host h = h

trim_suffix-with_dot :
    (dotted : Bool) (host : Text)
    → has_suffix host (codes ".") ≡ false
    → trim_suffix (with_dot dotted host) (codes ".") ≡ host
unfolding trim_suffix
trim_suffix-with_dot true host h = trim_suffix-append host (codes ".")
trim_suffix-with_dot false host h = rw (trim_suffix, h) refl

host_only-spelled :
    (dotted : Bool) (port : Option Text) (host : Text)
    → index_of colon host ≡ none
    → has_suffix host (codes ".") ≡ false
    → host_only (spelled dotted port host) ≡ to_lower host
unfolding host_only
host_only-spelled dotted port host plain bare =
    ap (λ t. to_lower (trim_suffix t (codes ".")))
      (before_byte-with_port port (with_dot dotted host) (colon-with_dot dotted host plain))
    ∙ ap to_lower (trim_suffix-with_dot dotted host bare)

module _ {D : Type 0} (save : D → Snapshot → Option D) where
  -- What a host resolves to after a route was put.
  pub resolve_host-put_route :
      (r : Route) (h : Text) (s : MemStore D)
      → resolve_host h (put_route save r s).0 ≡ (
          if text_eq (to_lower r.host) (to_lower h)
          then get_workload r.workload_id s
          else resolve_host h s)
  unfolding resolve_host put_route get_route_by_host get_workload workload_of_route
  resolve_host-put_route r h s = elim (Bool-cases (text_eq (to_lower r.host) (to_lower h))) [
    | inl e ↦ rw (flush_state, lookup-insert, e) refl
    | inr e ↦
        rw (flush_state, lookup-insert, e)
          (workload_of_route-workloads (get_route_by_host h s) _ s refl)
  ]

  module _ (now : ℕ) (given id : Text) (s : MemStore D) where
    abbrev name : Text
    name = to_lower (trim_space given)

    -- The route that AddRoute puts.
    abbrev added : Route
    added = record { host = name; key = name; workload_id = id; created_at = now }

    add_route-cases :
        ((x : RouteError) × (add_route save now given id s ≡ (s, some x)))
        ⊎ ((is_some (get_workload id s) ≡ true)
            × (is_taken id (get_route_by_host name s) ≡ false)
            × ((add_route save now given id s).0 ≡ (put_route save added s).0))
    unfolding add_route
    add_route-cases = elim (Bool-cases (text_eq name (codes ""))) [
      | inl e ↦ inl (host_required, rw (e, add_route) refl)
      | inr e ↦ elim (Bool-cases (is_some (get_workload id s))) [
        | inr f ↦ inl (no_workload, rw (e, add_route, f) refl)
        | inl f ↦ elim (Bool-cases (is_taken id (get_route_by_host name s))) [
          | inl g ↦ inl (taken, rw (e, add_route, f, g) refl)
          | inr g ↦ inr (f, g, rw (e, add_route, f, g) refl)
        ]
      ]
    ]

    -- After AddRoute succeeded, a request whose Host header names that host goes to the workload
    -- with its path unchanged, whatever the domains and the path are: in any case, with or without a
    -- final dot and with or without a port, where the host itself has no colon and no final dot.
    pub add_route-resolve :
        (domains : List Text) (host path : Text) (dotted : Bool) (port : Option Text)
        → (add_route save now given id s).1 ≡ none
        → to_lower host ≡ name
        → index_of colon host ≡ none
        → has_suffix host (codes ".") ≡ false
        → (w : Workload) × (get_workload id s ≡ some w)
          × (resolve domains (spelled dotted port host) path (add_route save now given id s).0
              ≡ some (w, path))
    unfolding resolve
    add_route-resolve domains host path dotted port h named plain bare = elim add_route-cases [
      | inl (x, c) ↦ absurd (let q : some x ≡ none = ap (λ r. r.1) (sym c) ∙ h in ground (arith, q))
      | inr (f, g, c) ↦ elim (Option-cases (get_workload id s)) [
        | inl o ↦ absurd (false≢true (ap is_some (sym o) ∙ f))
        | inr (w, o) ↦ (
          w,
          o,
          rw
              (
                c,
                resolve,
                host_only-spelled dotted port host plain bare ∙ named,
                resolve_host-put_route added name s,
                to_lower_idem (trim_space given),
                text_eq_refl name,
                o,
              )
              refl,
        )
      ]
    ]

    -- Whether AddRoute succeeds or not, a host that resolved to a workload before resolves to the
    -- same workload afterwards.
    pub add_route-resolve_host :
        (h : Text) (w : Workload)
        → resolve_host h s ≡ some w
        → resolve_host h (add_route save now given id s).0 ≡ some w
    unfolding resolve_host get_route_by_host workload_of_route
    add_route-resolve_host h w e = elim add_route-cases [
      | inl (x, c) ↦ rw c e
      | inr (f, g, c) ↦
          rw (c, resolve_host-put_route added h s)
            (elim (Bool-cases (text_eq (to_lower name) (to_lower h))) [
              | inr n ↦ rw n e
              | inl n ↦ rw n (
                  same_workload id h w s e
                    (rw ((text_eq_iff (to_lower name) (to_lower h)).0 n) at g))
            ])
    ]

  resolve_host-delete_route :
      (host h : Text) (s : MemStore D)
      → is_some (lookup (to_lower host) s.routes) ≡ true
      → resolve_host h (Mem.delete_route save host s).0
        ≡ (if text_eq (to_lower host) (to_lower h) then none else resolve_host h s)
  unfolding Mem.delete_route resolve_host get_route_by_host workload_of_route
  resolve_host-delete_route host h s e = elim (Bool-cases (text_eq (to_lower host) (to_lower h))) [
    | inl f ↦ rw (e, flush_state, lookup-remove, f) refl
    | inr f ↦
        rw (e, flush_state, lookup-remove, f)
          (workload_of_route-workloads (get_route_by_host h s) _ s refl)
  ]

  -- After RemoveRoute succeeded, the host that it was given resolves to nothing, and every other
  -- host resolves as before.
  pub remove_route-resolve_host :
      (given h : Text) (s : MemStore D)
      → (remove_route save given s).1 ≡ none
      → resolve_host h (remove_route save given s).0
        ≡ (if text_eq (to_lower (trim_space given)) (to_lower h) then none else resolve_host h s)
  unfolding remove_route resolve_host get_route_by_host workload_of_route
  remove_route-resolve_host given h s e =
      elim (Option-cases (get_route_by_host (to_lower (trim_space given)) s)) [
        | inl o ↦
            absurd (let q : some no_route ≡ none = rw (remove_route, o) at e in ground (arith, q))
        | inr (r, o) ↦
            rw
              (
                remove_route,
                o,
                resolve_host-delete_route (to_lower (trim_space given)) h s (rw o refl),
                to_lower_idem (trim_space given),
              )
              refl
      ]
