-- ===== src/Manager/Registered.antt =====
-- What a workload that was registered has: its record, its default host and its port
-- (registerWorkload and allocHostPort of orchestrator/internal/manager/manager.go).
use orchd.Prelude.{
  ℕ, suc, zero, ◌≡◌, refl, sym, ap, ◌∙◌, subst, inl, inr, arith, Text, text_eq_refl, to_lower, Bool,
  false, not, ◌&&◌, ◌||◌, Option, some, List, [], ◌∷◌, ltb, ◌==◌, is_some, All, Bool-cases,
  Option-cases, false≢true,
}
use orchd.Table.{lookup-insert_self}
use orchd.Store.Records.{Snapshot, Workload, Route}
use orchd.Store.Mem.{MemStore, put_workload, put_route, flush_state}
use orchd.Store.Query.{get_project, get_workload, list_workloads}
use orchd.Manager.Routes.{resolve_host}
use orchd.Manager.Interpolate.{key_for}
use orchd.Manager.Create.{
  WorkloadSpec, Supply, CreateConfig, Outcome, done, failed, resolve_preset, find_port, first_port,
  is_used, port_or_none,
}
use orchd.Prelude.Int.{pos_part, is_positive}
use orchd.Manager.Register.{
  host_of, secret_for, keys_for, alloc_host_port, new_workload, put_registered, register_spec,
  register_workload,
}
use orchd.Gateway.Routed.{resolve_host-put_route}

-- A port that was found is not taken.
find_port-free : (taken : ℕ → Bool) (p n q : ℕ) → find_port taken p n ≡ some q → taken q ≡ false
unfolding find_port
find_port-free taken p zero q h = absurd (false≢true (ap is_some h))
find_port-free taken p (suc n) q h = elim (Bool-cases (taken p)) [
  | inl e ↦ find_port-free taken (suc p) n q (rw (e, find_port) at h)
  | inr e ↦
      let here : some p ≡ some q = rw (e, find_port) at h in
      subst (λ x. taken x ≡ false) (ap port_or_none here) e
]

-- No other workload has a port, where it is one.
abbrev IsOwnPort : ℕ → Workload → Type 0
IsOwnPort p v = (ltb 0 v.host_port && v.host_port == p) ≡ false

neither : (a b : Bool) → (a || b) ≡ false → (a ≡ false) × (b ≡ false)
neither a b h = ground (arith, h)

is_used-All : (p : ℕ) (ws : List Workload) → is_used p ws ≡ false → All (IsOwnPort p) ws
unfolding is_used
is_used-All p [] h = tt
is_used-All p (v ∷ ws) h =
    let (here, later) = neither (ltb 0 v.host_port && v.host_port == p) (is_used p ws) h in
    (here, is_used-All p ws later)

no_port-All : (ws : List Workload) → All (IsOwnPort 0) ws
no_port-All [] = tt
no_port-All (v ∷ ws) = (ground arith, no_port-All ws)

first_port-All :
    (free : ℕ → Bool) (ws : List Workload) (p n : ℕ)
    → All (IsOwnPort (first_port (λ x. is_used x ws || not (free x)) p n)) ws
unfolding first_port
first_port-All free ws p n =
    elim (Option-cases (find_port (λ x. is_used x ws || not (free x)) p n)) [
      | inl e ↦ rw (first_port, e) (no_port-All ws)
      | inr (q, f) ↦
          rw (first_port, f)
            (is_used-All q ws
              (neither (is_used q ws) (not (free q))
                (find_port-free (λ x. is_used x ws || not (free x)) p n q f)).0)
    ]

alloc_host_port-All :
    (supply : Supply) (cfg : CreateConfig) (ws : List Workload) (src : supply.Source)
    → All (IsOwnPort (alloc_host_port supply cfg ws src)) ws
unfolding alloc_host_port
alloc_host_port-All supply cfg ws src = elim (Bool-cases (is_positive cfg.port_base)) [
  | inr e ↦ rw (alloc_host_port, e) (no_port-All ws)
  | inl e ↦
      rw (alloc_host_port, e)
        (first_port-All (supply.is_port_free src) ws (pos_part cfg.port_base) 2000)
]

module _ {D : Type 0} (save : D → Snapshot → Option D) (supply : Supply) (cfg : CreateConfig)
    (now : ℕ) where
  -- Found by its id and by its default host.
  abbrev IsFound : MemStore D → Workload → Type 0
  IsFound t w = (get_workload w.id t ≡ some w) × (resolve_host (host_of cfg w) t ≡ some w)

  abbrev IfDone : (Workload → Type 0) → Outcome Workload → Type 0
  IfDone P (failed e) = Unit
  IfDone P (done w) = P w

  get_workload-put :
      (w : Workload) (r : Route) (s : MemStore D)
      → get_workload w.id (put_route save r (put_workload save w s).0).0 ≡ some w
  unfolding get_workload put_route put_workload
  get_workload-put w r s = rw (flush_state, flush_state, lookup-insert_self) refl

  -- The default route.
  abbrev default_route : Workload → Route
  default_route w = record {
    host = host_of cfg w;
    key = key_for w.project_id w.name;
    workload_id = w.id;
    created_at = now;
  }

  resolve_host-put :
      (w : Workload) (s : MemStore D)
      → resolve_host (host_of cfg w) (put_route save (default_route w) (put_workload save w s).0).0
        ≡ some w
  unfolding get_workload put_workload
  resolve_host-put w s =
      rw
        (
          resolve_host-put_route save (default_route w) (host_of cfg w) (put_workload save w s).0,
          text_eq_refl (to_lower (host_of cfg w)),
          flush_state,
          lookup-insert_self,
        )
        refl

  put_registered-IsFound :
      (w : Workload) (s : MemStore D)
      → IfDone
          (λ v. (v ≡ w) × IsFound (put_registered save supply cfg now w s).1 v)
          (put_registered save supply cfg now w s).0
  unfolding put_registered
  put_registered-IsFound w s = elim (Bool-cases (is_some (put_workload save w s).1)) [
    | inl e ↦ rw (put_registered, e) tt
    | inr e ↦
        elim (Bool-cases (is_some (put_route save (default_route w) (put_workload save w s).0).1)) [
          | inl f ↦ rw (put_registered, e, f) tt
          | inr f ↦
              rw (put_registered, e, f, get_workload-put w (default_route w) s)
                (refl, (get_workload-put w (default_route w) s, resolve_host-put w s))
        ]
  ]

  -- What holds of a workload that register_workload returns, with the state that it leaves.
  abbrev IsRegistered : MemStore D → MemStore D → Workload → Type 0
  IsRegistered s t w = IsFound t w × All (IsOwnPort w.host_port) (list_workloads [] s)

  found-IsRegistered :
      (id : Text) (w : Workload) (s t : MemStore D) (o : Outcome Workload)
      → w.project_id ≡ id
      → All (IsOwnPort w.host_port) (list_workloads [] s)
      → IfDone (λ v. (v ≡ w) × IsFound t v) o
      → IfDone (λ v. (v.project_id ≡ id) × IsRegistered s t v) o
  found-IsRegistered id w s t (failed e) p a h = tt
  found-IsRegistered id w s t (done v) p a (e, f) = (
    ap (λ x. x.project_id) e ∙ p,
    (f, subst (λ x. All (IsOwnPort x.host_port) (list_workloads [] s)) (sym e) a),
  )

  register_spec-IsRegistered :
      (id : Text) (ws : WorkloadSpec) (src : supply.Source) (s : MemStore D)
      → IfDone
          (λ v.
            (v.project_id ≡ id)
            × IsRegistered s (register_spec save supply cfg now id ws src s).2 v)
          (register_spec save supply cfg now id ws src s).0
  unfolding register_spec new_workload
  register_spec-IsRegistered id ws src s = elim (Option-cases (supply.new_ref src).0) [
    | inl e ↦ rw (register_spec, e) tt
    | inr (wid, e) ↦ elim (Option-cases (secret_for supply ws (supply.new_ref src).1).0) [
      | inl f ↦ rw (register_spec, e, f) tt
      | inr (sec, f) ↦
          let (keys, src') =
            keys_for supply ws.kind sec (secret_for supply ws (supply.new_ref src).1).1 in
          let w =
            new_workload supply cfg now id wid ws sec keys
              (alloc_host_port supply cfg (list_workloads [] s) src') in
          rw (register_spec, e, f)
            (found-IsRegistered id w s (put_registered save supply cfg now w s).1
              (put_registered save supply cfg now w s).0 refl
              (alloc_host_port-All supply cfg (list_workloads [] s) src')
              (put_registered-IsFound w s))
    ]
  ]

  weaker :
      (id : Text) (s t : MemStore D) (o : Outcome Workload)
      → IfDone (λ v. (v.project_id ≡ id) × IsRegistered s t v) o
      → IfDone (IsRegistered s t) o
  weaker id s t (failed e) h = tt
  weaker id s t (done v) h = h.1

  register_workload-IfDone :
      (id : Text) (given : WorkloadSpec) (src : supply.Source) (s : MemStore D)
      → IfDone
          (IsRegistered s (register_workload save supply cfg now id given src s).2)
          (register_workload save supply cfg now id given src s).0
  unfolding register_workload
  register_workload-IfDone id given src s = elim (Option-cases (get_project id s)) [
    | inl e ↦ rw (register_workload, e) tt
    | inr (proj, e) ↦ elim (Option-cases (resolve_preset given)) [
      | inl f ↦ rw (register_workload, e, f) tt
      | inr (ws, f) ↦
          rw (register_workload, e, f)
            (weaker proj.id s _ _ (register_spec-IsRegistered proj.id ws src s))
    ]
  ]

  -- A workload that is registered is in the store under its id, its default host resolves to it,
  -- and no workload that was there before has its port.
  pub register_workload-IsRegistered :
      (id : Text) (given : WorkloadSpec) (w : Workload) (src : supply.Source) (s : MemStore D)
      → (register_workload save supply cfg now id given src s).0 ≡ done w
      → (get_workload w.id (register_workload save supply cfg now id given src s).2 ≡ some w)
        × (resolve_host (host_of cfg w) (register_workload save supply cfg now id given src s).2
            ≡ some w)
        × All (λ v. (ltb 0 v.host_port && v.host_port == w.host_port) ≡ false) (list_workloads [] s)
  register_workload-IsRegistered id given w src s h =
      let (found, own) =
        subst (IfDone (IsRegistered s (register_workload save supply cfg now id given src s).2)) h
          (register_workload-IfDone id given src s) in
      (found.0, found.1, own)
