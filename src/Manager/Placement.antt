-- ===== src/Manager/Placement.antt =====
-- Lemmas on the default region and its choice by SetDefaultRegion
-- (orchestrator/internal/manager/manager.go).
use mathlib.Core.List.{Memᴰ}
use orchd.Prelude.{
  ℕ, ◌≡◌, ◌⊎◌, refl, arith, ap, sym, ◌∙◌, subst, Text, text_eq, text_eq_iff, text_eq_refl, Bool,
  true, false, not, ◌&&◌, ◌||◌, Option, none, some, List, [], ◌∷◌, if◌then◌else◌, is_some,
  Bool-cases, Option-cases, inl, inr, false≢true,
}
use orchd.Prelude.Sorting.{Memᴰ-sort_by}
use orchd.Table.{values, lookup-insert, key-lookup, Memᴰ-values}
use orchd.Store.Records.{Snapshot, Region}
use orchd.Store.Mem.{MemStore, put_region, region_key, flush_state}
use orchd.Store.Query.{get_region, list_regions, region_before}
use orchd.Store.Keyed.{IsWellKeyed}
use orchd.Manager.Regions.{create_region, delete_region, mark_if, mark_all, set_default_region}

-- What the API does to the regions, at a time.
pub data RegionCall : Type 0 where
  create : Text → Text → ℕ → RegionCall
  drop : Text → RegionCall
  choose : Text → RegionCall

module _ {D : Type 0} (save : D → Snapshot → Option D) where
  unfoldable pub region_call : RegionCall → MemStore D → MemStore D
  region_call (create name host now) s = (create_region save name host now s).0
  region_call (drop id) s = (delete_region save id s).0
  region_call (choose id) s = (set_default_region save id s).0

  unfoldable pub region_calls : List RegionCall → MemStore D → MemStore D
  unfolding region_call
  region_calls [] s = s
  region_calls (c ∷ cs) s = region_calls cs (region_call c s)

-- One stored region is marked as the default, and no other.
abbrev pub HasOneDefault : {D : Type 0} → MemStore D → Type 0
HasOneDefault s =
    (id : Text) × ((r : Region) × (get_region id s ≡ some r) × (r.is_default ≡ true))
    × ((j : Text) (q : Region) → get_region j s ≡ some q → q.is_default ≡ true → j ≡ id)

abbrev is_marked : Option Region → Bool
is_marked none = false
is_marked (some r) = r.is_default

module _ {D : Type 0} (save : D → Snapshot → Option D) where
  pub get_region-put_region :
      (r : Region) (j : Text) (s : MemStore D)
      → get_region j (put_region save r s).0 ≡ (if text_eq r.id j then some r else get_region j s)
  unfolding get_region put_region
  get_region-put_region r j s = rw (flush_state, lookup-insert) refl

  module _ (id : Text) (start : MemStore D) where
    -- A region as it was, or marked exactly when it is the chosen one.
    abbrev IsMarked : Text → MemStore D → Type 0
    IsMarked j s = (q : Region) × (get_region j s ≡ some q) × (q.is_default ≡ text_eq j id)

    abbrev IsSettled : Text → MemStore D → Type 0
    IsSettled j s = (get_region j s ≡ get_region j start) ⊎ IsMarked j s

    mark_if-cases :
        (rg : Region) (s : MemStore D)
        → ((rg.is_default ≡ text_eq rg.id id) × (mark_if save id rg s ≡ s))
          ⊎ (mark_if save id rg s
              ≡ (put_region save (record rg { is_default = text_eq rg.id id }) s).0)
    unfolding mark_if
    mark_if-cases rg s =
        elim (Bool-cases
          ((rg.is_default && not (text_eq rg.id id)) || (not rg.is_default && text_eq rg.id id))) [
            | inl e ↦ inr (rw (mark_if, e) refl)
            | inr e ↦ inl (ground (arith, e), rw (mark_if, e) refl)
          ]

    put-IsMarked :
        (j : Text) (rg : Region) (s : MemStore D)
        → text_eq rg.id j ≡ true
        → IsMarked j (put_region save (record rg { is_default = text_eq rg.id id }) s).0
    put-IsMarked j rg s t = (
      record rg { is_default = text_eq rg.id id },
      get_region-put_region (record rg { is_default = text_eq rg.id id }) j s ∙ (rw t refl),
      ap (λ x. text_eq x id) ((text_eq_iff rg.id j).0 t),
    )

    -- A step leaves a region as it is, or marks it.
    mark_if-touch :
        (j : Text) (rg : Region) (s : MemStore D)
        → (get_region j (mark_if save id rg s) ≡ get_region j s) ⊎ IsMarked j (mark_if save id rg s)
    mark_if-touch j rg s = elim (mark_if-cases rg s) [
      | inl (e, f) ↦ inl (rw f refl)
      | inr f ↦ elim (Bool-cases (text_eq rg.id j)) [
        | inl t ↦ inr (subst (IsMarked j) (sym f) (put-IsMarked j rg s t))
        | inr n ↦ inl (
            rw (f, get_region-put_region (record rg { is_default = text_eq rg.id id }) j s, n) refl)
      ]
    ]

    mark_if-IsSettled :
        (j : Text) (rg : Region) (s : MemStore D)
        → IsSettled j s
        → IsSettled j (mark_if save id rg s)
    mark_if-IsSettled j rg s h = elim (mark_if-touch j rg s) [
      | inr m ↦ inr m
      | inl e ↦ elim h [ inl o ↦ inl (e ∙ o) | inr (q, g, d) ↦ inr (q, e ∙ g, d) ]
    ]

    mark_if-IsMarked :
        (j : Text) (rg : Region) (s : MemStore D) → IsMarked j s → IsMarked j (mark_if save id rg s)
    mark_if-IsMarked j rg s (q, g, d) = elim (mark_if-touch j rg s) [
      | inr m ↦ m
      | inl e ↦ (q, e ∙ g, d)
    ]

    -- The step of a region that is stored as it was read marks it.
    mark_if-marks :
        (rg : Region) (s : MemStore D)
        → get_region rg.id start ≡ some rg
        → IsSettled rg.id s
        → IsMarked rg.id (mark_if save id rg s)
    mark_if-marks rg s h k = elim (mark_if-cases rg s) [
      | inr f ↦ subst (IsMarked rg.id) (sym f) (put-IsMarked rg.id rg s (text_eq_refl rg.id))
      | inl (e, f) ↦ subst (IsMarked rg.id) (sym f) (elim k [ inl o ↦ (rg, o ∙ h, e) | inr m ↦ m ])
    ]

    mark_all-IsSettled :
        (j : Text) (rgs : List Region) (s : MemStore D)
        → IsSettled j s
        → IsSettled j (mark_all save id rgs s)
    unfolding mark_all
    mark_all-IsSettled j [] s h = h
    mark_all-IsSettled j (rg ∷ rgs) s h =
        mark_all-IsSettled j rgs (mark_if save id rg s) (mark_if-IsSettled j rg s h)

    mark_all-IsMarked :
        (j : Text) (rgs : List Region) (s : MemStore D)
        → IsMarked j s
        → IsMarked j (mark_all save id rgs s)
    unfolding mark_all
    mark_all-IsMarked j [] s h = h
    mark_all-IsMarked j (rg ∷ rgs) s h =
        mark_all-IsMarked j rgs (mark_if save id rg s) (mark_if-IsMarked j rg s h)

    mark_all-marks :
        (rg : Region) (rgs : List Region) (s : MemStore D)
        → get_region rg.id start ≡ some rg
        → IsSettled rg.id s
        → Memᴰ rg rgs
        → IsMarked rg.id (mark_all save id rgs s)
    unfolding mark_all
    mark_all-marks rg [] s h k m = elim m [ ]
    mark_all-marks rg (r ∷ rgs) s h k (Memᴰ.head e) =
        mark_all-IsMarked rg.id rgs (mark_if save id r s)
          (subst (λ x. IsMarked rg.id (mark_if save id x s)) e (mark_if-marks rg s h k))
    mark_all-marks rg (r ∷ rgs) s h k (Memᴰ.tail m) =
        mark_all-marks rg rgs (mark_if save id r s) h (mark_if-IsSettled rg.id r s k) m

  -- After the loop over all regions, a region that was stored is marked exactly when chosen.
  mark_all-get_region :
      (id j : Text) (s : MemStore D)
      → IsWellKeyed s
      → IsSettled id s j (mark_all save id (list_regions s) s)
        × (is_some (get_region j s) ≡ true → IsMarked id s j (mark_all save id (list_regions s) s))
  unfolding get_region list_regions region_key
  mark_all-get_region id j s k = (
    mark_all-IsSettled id s j (list_regions s) s (inl refl),
    λ h. elim (Option-cases (get_region j s)) [
      | inl n ↦ absurd (false≢true (ap is_some (sym n) ∙ h))
      | inr (q, g) ↦
          let own : q.id ≡ j = key-lookup region_key j s.regions k.regions g in
          let here : get_region q.id s ≡ some q = ap (λ i. get_region i s) own ∙ g in
          subst (λ i. IsMarked id s i (mark_all save id (list_regions s) s)) own
            (mark_all-marks id s q (list_regions s) s here (inl refl)
              (Memᴰ-sort_by region_before q (values s.regions) (Memᴰ-values j s.regions g)))
    ],
  )

  -- Only the chosen region is marked after the loop.
  IsMarked-only :
      (id j : Text) (q : Region) (s t : MemStore D)
      → IsMarked id s j t
      → get_region j t ≡ some q
      → q.is_default ≡ true
      → j ≡ id
  IsMarked-only id j q s t (r, g, d) h e =
      (text_eq_iff j id).0 (sym d ∙ ap is_marked (sym g ∙ h) ∙ e)

  pub set_default_region-HasOneDefault :
      (id : Text) (s : MemStore D)
      → IsWellKeyed s
      → HasOneDefault s
      → HasOneDefault (set_default_region save id s).0
  unfolding set_default_region
  set_default_region-HasOneDefault id s k h = elim (Bool-cases (is_some (get_region id s))) [
    | inr e ↦ rw (set_default_region, e) h
    | inl e ↦
        let chosen : IsMarked id s id (mark_all save id (list_regions s) s) =
          (mark_all-get_region id id s k).1 e in
        rw (set_default_region, e)
          (
            id,
            (chosen.0, chosen.1, chosen.2 ∙ text_eq_refl id),
            λ j q g d.
                let after = mark_all-get_region id j s k in
                elim after.0 [
                  | inr m ↦ IsMarked-only id j q s _ m g d
                  | inl o ↦ IsMarked-only id j q s _ (after.1 (ap is_some (sym o ∙ g))) g d
                ],
          )
  ]
