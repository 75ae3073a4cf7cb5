-- ===== src/Manager/Adopt.antt =====
-- What reconcileStates changes (orchestrator/internal/manager/manager.go).
use orchd.Prelude.{
  ℕ, ◌≡◌, ◌⊎◌, refl, arith, sym, ap, ◌∙◌, subst, Text, text_eq, text_eq_iff, codes, Bool, true,
  false, not, ◌||◌, ◌&&◌, Option, none, some, List, [], ◌∷◌, Bool-cases, Option-cases, inl, inr,
  false≢true,
}
use orchd.Store.Records.{Snapshot, Workload, running}
use orchd.Store.Query.{get_workload, list_workloads}
use orchd.Manager.State.{Runtime, Manager, Config, is_running, set_state}
use orchd.Manager.Reaper.{reconcile_one, reconcile_all, reconcile_states}
use orchd.Manager.Frames.{get_workload-set_state_self, get_workload-set_state_ne}

-- Whether a workload was found and is called running.
abbrev is_stored_running : Option Workload → Bool
is_stored_running none = false
is_stored_running (some w) = is_running w.state

module _ {D : Type 0} (rt : Runtime) (save : D → Snapshot → Option D) (cfg : Config) (now : ℕ)
    (listed : Text → Bool) where
  open rt use {Host, status}

  -- A stored workload is as it was, or it was not running in the store, the driver listed it and
  -- runs it, and now it is running in the store too.
  abbrev pub IsAdopted : Text → Manager D Host → Manager D Host → Type 0
  IsAdopted id m m' =
      (get_workload id m'.store ≡ get_workload id m.store)
      ⊎ ((w : Workload) × (get_workload id m.store ≡ some w)
          × (is_running w.state ≡ false)
          × (listed id ≡ true)
          × (is_running (status m.host id) ≡ true)
          × (get_workload id m'.store ≡ some (record w { state = running })))

  reconcile_one-cases :
      (w : Workload) (m : Manager D Host)
      → ((reconcile_one rt save cfg now listed w m).0 ≡ m)
        ⊎ ((cur : Workload) × (get_workload w.id m.store ≡ some cur)
            × (is_running cur.state ≡ false)
            × (listed w.id ≡ true)
            × (is_running (status m.host w.id) ≡ true)
            × ((reconcile_one rt save cfg now listed w m).0 ≡ set_state save w.id running m))
  unfolding reconcile_one
  reconcile_one-cases w m = elim (Bool-cases (is_running w.state || not (listed w.id))) [
    | inl e ↦ inl (rw (e, reconcile_one) refl)
    | inr e ↦ elim (Option-cases (get_workload w.id m.store)) [
      | inl o ↦ inl (rw (e, reconcile_one, o) refl)
      | inr (cur, o) ↦
          elim (Bool-cases (not (is_running cur.state) && is_running (status m.host w.id))) [
            | inl f ↦ inr (
              cur,
              o,
              ground (arith, f),
              ground (arith, e),
              ground (arith, f),
              rw (e, reconcile_one, o, f) refl,
            )
            | inr f ↦ inl (rw (e, reconcile_one, o, f) refl)
          ]
    ]
  ]

  host-reconcile_one :
      (w : Workload) (m : Manager D Host)
      → (reconcile_one rt save cfg now listed w m).0.host ≡ m.host
  unfolding set_state
  host-reconcile_one w m = elim (reconcile_one-cases w m) [
    | inl e ↦ rw e refl
    | inr (cur, o, r, l, st, e) ↦ rw e refl
  ]

  reconcile_one-IsAdopted :
      (id : Text) (w : Workload) (m : Manager D Host)
      → IsAdopted id m (reconcile_one rt save cfg now listed w m).0
  reconcile_one-IsAdopted id w m = elim (reconcile_one-cases w m) [
    | inl e ↦ inl (rw e refl)
    | inr (cur, o, r, l, st, e) ↦ elim (Bool-cases (text_eq w.id id)) [
      | inl t ↦
          let j : w.id ≡ id = (text_eq_iff w.id id).0 t in
          subst (λ i. IsAdopted i m (reconcile_one rt save cfg now listed w m).0) j
            (inr (
              cur,
              o,
              r,
              l,
              st,
              ap (λ m'. get_workload w.id m'.store) e
                  ∙ get_workload-set_state_self save w.id running m o,
            ))
      | inr n ↦ inl (
          ap (λ m'. get_workload id m'.store) e
          ∙ get_workload-set_state_ne save w.id id running m n)
    ]
  ]

  IsAdopted-trans :
      (id : Text) (a b c : Manager D Host)
      → b.host ≡ a.host
      → IsAdopted id a b
      → IsAdopted id b c
      → IsAdopted id a c
  IsAdopted-trans id a b c h (inl e) (inl f) = inl (f ∙ e)
  IsAdopted-trans id a b c h (inl e) (inr (w, o, r, l, st, f)) =
      inr (w, sym e ∙ o, r, l, ap (λ x. is_running (status x id)) (sym h) ∙ st, f)
  IsAdopted-trans id a b c h (inr (w, o, r, l, st, e)) (inl f) = inr (w, o, r, l, st, f ∙ e)
  IsAdopted-trans id a b c h (inr (w, o, r, l, st, e)) (inr (v, p, q, k, su, f)) =
      absurd (false≢true (sym q ∙ ap is_stored_running (sym p ∙ e)))

  reconcile_all-IsAdopted :
      (id : Text) (ws : List Workload) (m : Manager D Host)
      → IsAdopted id m (reconcile_all rt save cfg now listed ws m).0
  unfolding reconcile_all
  reconcile_all-IsAdopted id [] m = inl refl
  reconcile_all-IsAdopted id (w ∷ ws) m =
      IsAdopted-trans id m (reconcile_one rt save cfg now listed w m).0
        (reconcile_all rt save cfg now listed ws (reconcile_one rt save cfg now listed w m).0).0
        (host-reconcile_one w m) (reconcile_one-IsAdopted id w m)
        (reconcile_all-IsAdopted id ws (reconcile_one rt save cfg now listed w m).0)

  -- Reconciliation leaves each stored workload as it was, or marks it running; the latter only when
  -- the store called it down, the driver listed its reference, and the driver runs it.
  pub reconcile_states-IsAdopted :
      (id : Text) (m : Manager D Host)
      → IsAdopted id m (reconcile_states rt save cfg now listed m).0
  unfolding reconcile_states
  reconcile_states-IsAdopted id m = reconcile_all-IsAdopted id (list_workloads (codes "") m.store) m
