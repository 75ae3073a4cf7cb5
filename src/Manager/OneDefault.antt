-- ===== src/Manager/OneDefault.antt =====
-- The one default region over all calls of the API and the start of the manager
-- (orchestrator/internal/manager/manager.go).
use mathlib.Core.List.{Memᴰ}
use orchd.Prelude.{
  ℕ, ◌≡◌, ◌⊎◌, refl, arith, ap, sym, ◌∙◌, Text, codes, text_eq, trim_space, true, false, not, ◌&&◌,
  ◌||◌, Option, some, List, [], ◌∷◌, ltb, length, is_some, All, Bool-cases, Option-cases, inl, inr,
  false≢true,
}
use orchd.Prelude.Sorting.{All-sort_by, Memᴰ-sort_by}
use orchd.Table.{lookup, values, All-values, Memᴰ-values}
use orchd.Store.Records.{Snapshot, Region}
use orchd.Store.Mem.{MemStore, region_key}
use orchd.Store.Query.{get_region, list_regions, region_before}
use orchd.Store.Ops
use orchd.Store.Ops.{call}
use orchd.Store.Keyed.{IsWellKeyed, call-IsWellKeyed}
use orchd.Manager.Regions.{
  slug, create_region, delete_region, mark_if, mark_all, set_default_region, seed_regions,
  marked_region, default_region_id,
}
use orchd.Manager.Placement.{
  RegionCall, create, drop, choose, region_call, region_calls, HasOneDefault,
}
use orchd.Manager.DefaultRegion.{
  list_regions-Memᴰ, Memᴰ-length, put_first, region_call-HasOneDefault,
}

module _ {D : Type 0} (save : D → Snapshot → Option D) where
  mark_all-IsWellKeyed :
      (id : Text) (rgs : List Region) (s : MemStore D)
      → IsWellKeyed s
      → IsWellKeyed (mark_all save id rgs s)
  unfolding mark_all mark_if call
  mark_all-IsWellKeyed id [] s k = k
  mark_all-IsWellKeyed id (rg ∷ rgs) s k =
      mark_all-IsWellKeyed id rgs (mark_if save id rg s)
        (elim (Bool-cases
          ((rg.is_default && not (text_eq rg.id id)) || (not rg.is_default && text_eq rg.id id))) [
            | inl e ↦
                rw (mark_if, e)
                  (call-IsWellKeyed save (Ops.region (record rg { is_default = text_eq rg.id id }))
                    s k)
            | inr e ↦ rw (mark_if, e) k
          ])

  create_region-IsWellKeyed :
      (name host : Text) (now : ℕ) (s : MemStore D)
      → IsWellKeyed s
      → IsWellKeyed (create_region save name host now s).0
  unfolding create_region call
  create_region-IsWellKeyed name host now s k =
      elim (Bool-cases (text_eq (slug (trim_space name)) (codes ""))) [
        | inl e ↦ rw (create_region, e) k
        | inr e ↦ elim (Bool-cases (is_some (get_region (slug (trim_space name)) s))) [
          | inl f ↦ rw (create_region, e, f) k
          | inr f ↦ rw (create_region, e, f) (call-IsWellKeyed save (Ops.region _) s k)
        ]
      ]

  delete_region-IsWellKeyed :
      (id : Text) (s : MemStore D) → IsWellKeyed s → IsWellKeyed (delete_region save id s).0
  unfolding delete_region call
  delete_region-IsWellKeyed id s k = elim (Option-cases (get_region id s)) [
    | inl e ↦ rw (delete_region, e) k
    | inr (r, e) ↦ elim (Bool-cases r.is_default) [
      | inl f ↦ rw (delete_region, e, f) k
      | inr f ↦ rw (delete_region, e, f) (call-IsWellKeyed save (Ops.drop_region id) s k)
    ]
  ]

  region_call-IsWellKeyed :
      (c : RegionCall) (s : MemStore D) → IsWellKeyed s → IsWellKeyed (region_call save c s)
  unfolding region_call set_default_region
  region_call-IsWellKeyed (create name host now) s k = create_region-IsWellKeyed name host now s k
  region_call-IsWellKeyed (drop id) s k = delete_region-IsWellKeyed id s k
  region_call-IsWellKeyed (choose id) s k = elim (Bool-cases (is_some (get_region id s))) [
    | inl e ↦ rw (region_call, set_default_region, e) (mark_all-IsWellKeyed id (list_regions s) s k)
    | inr e ↦ rw (region_call, set_default_region, e) k
  ]

  region_calls-kept :
      (cs : List RegionCall) (s : MemStore D)
      → IsWellKeyed s
      → HasOneDefault s
      → IsWellKeyed (region_calls save cs s) × HasOneDefault (region_calls save cs s)
  unfolding region_calls
  region_calls-kept [] s k h = (k, h)
  region_calls-kept (c ∷ cs) s k h =
      region_calls-kept cs (region_call save c s) (region_call-IsWellKeyed c s k)
        (region_call-HasOneDefault save c s k h)

  seed_regions-kept :
      (region : Text) (now : ℕ) (s : MemStore D)
      → IsWellKeyed s
      → (list_regions s ≡ []) ⊎ HasOneDefault s
      → IsWellKeyed (seed_regions save region now s)
        × HasOneDefault (seed_regions save region now s)
  unfolding seed_regions call
  seed_regions-kept region now s k (inr h) =
      let stored =
        Memᴰ-length save h.1.0 (list_regions s) (list_regions-Memᴰ save h.0 h.1.0 s h.1.1) in
      let some_region : ltb 0 (length (list_regions s)) ≡ true = ground arith in
      rw (seed_regions, some_region) (k, h)
  seed_regions-kept region now s k (inl e) =
      let no_region : ltb 0 (length (list_regions s)) ≡ false = rw e refl in
      rw (seed_regions, no_region)
        (call-IsWellKeyed save (Ops.region _) s k, put_first save _ s e refl)

  other_marked :
      (r g : Region) (rgs : List Region)
      → Memᴰ r (g ∷ rgs)
      → r.is_default ≡ true
      → g.is_default ≡ false
      → Memᴰ r rgs
  other_marked r g rgs (Memᴰ.head e) d n =
      absurd (false≢true (sym n ∙ sym (ap (λ x. x.is_default) e) ∙ d))
  other_marked r g rgs (Memᴰ.tail m) d n = m

  marked_region-stored :
      (P : Region → Type 0) (r : Region) (rgs : List Region)
      → All P rgs
      → Memᴰ r rgs
      → r.is_default ≡ true
      → (q : Region) × (marked_region rgs ≡ some q) × (q.is_default ≡ true) × P q
  unfolding marked_region
  marked_region-stored P r [] h m d = elim m [ ]
  marked_region-stored P r (g ∷ rgs) h m d = elim (Bool-cases g.is_default) [
    | inl e ↦ (g, rw (marked_region, e) refl, e, h.0)
    | inr e ↦
        rw (marked_region, e) (marked_region-stored P r rgs h.1 (other_marked r g rgs m d e) d)
  ]

  default_region_id-marked :
      (region : Text) (s : MemStore D) (h : HasOneDefault s)
      → IsWellKeyed s
      → default_region_id region s ≡ h.0
  unfolding list_regions get_region region_key default_region_id
  default_region_id-marked region s (id, (r, g, d), only) k =
      let (q, e, f, p) =
        marked_region-stored (λ v. lookup (region_key v) s.regions ≡ some v) r (list_regions s)
          (All-sort_by region_before _ (values s.regions)
            (All-values region_key s.regions k.regions))
          (Memᴰ-sort_by region_before r (values s.regions) (Memᴰ-values id s.regions g)) d in
      rw (default_region_id, e) (only q.id q p f)

  -- From a store without regions, or with exactly one that is the default, the start of the
  -- manager and any calls that create, delete or choose a region lead to a store where exactly one
  -- region is the default, and it is the one that a new project is given.
  pub region_calls-HasOneDefault :
      (region : Text) (now : ℕ) (cs : List RegionCall) (s : MemStore D)
      → IsWellKeyed s
      → (list_regions s ≡ []) ⊎ HasOneDefault s
      → (h : HasOneDefault (region_calls save cs (seed_regions save region now s)))
        × (default_region_id region (region_calls save cs (seed_regions save region now s)) ≡ h.0)
  region_calls-HasOneDefault region now cs s k h =
      let (seeded, one) = seed_regions-kept region now s k h in
      let (kept, after) = region_calls-kept cs (seed_regions save region now s) seeded one in
      (
        after,
        default_region_id-marked region (region_calls save cs (seed_regions save region now s))
            after kept,
      )
