-- ===== src/Manager/DefaultRegion.antt =====
-- The default region under each call (orchestrator/internal/manager/manager.go).
use mathlib.Core.List.{Memᴰ}
use orchd.Prelude.{
  ℕ, ◌≡◌, ◌<◌, refl, arith, ap, sym, ◌∙◌, subst, Text, codes, text_eq, text_eq_iff, text_eq_refl,
  trim_space, Bool, true, false, Option, none, some, List, [], ◌∷◌, if◌then◌else◌, length, is_some,
  Bool-cases, Option-cases, inl, inr, false≢true,
}
use orchd.Prelude.Sorting.{Memᴰ-sort_by}
use orchd.Table.{values, lookup-remove, Memᴰ-values}
use orchd.Store.Records.{Snapshot, Region}
use orchd.Store.Mem
use orchd.Store.Mem.{MemStore, put_region, region_key, flush, flush_state}
use orchd.Store.Query.{get_region, list_regions, region_before}
use orchd.Store.Keyed.{IsWellKeyed}
use orchd.Manager.Regions.{slug, create_region, delete_region}
use orchd.Manager.Placement.{
  RegionCall, create, drop, choose, region_call, HasOneDefault, get_region-put_region,
  set_default_region-HasOneDefault,
}

abbrev is_marked : Option Region → Bool
is_marked none = false
is_marked (some r) = r.is_default

is_some-none : {A : Type 0} (o : Option A) → is_some o ≡ false → o ≡ none
is_some-none none e = refl
is_some-none (some a) e = absurd (false≢true (sym e))

no_member : {A : Type 0} {B : Type 0} (a : A) → Memᴰ a [] → B
no_member a m = elim m [ ]

module _ {D : Type 0} (save : D → Snapshot → Option D) where
  get_region-delete_region :
      (id j : Text) (s : MemStore D)
      → is_some (get_region id s) ≡ true
      → get_region j (Mem.delete_region save id s).0
        ≡ (if text_eq id j then none else get_region j s)
  unfolding get_region Mem.delete_region
  get_region-delete_region id j s h = rw (h, flush_state, lookup-remove) refl

  pub Memᴰ-length : (r : Region) (rs : List Region) → Memᴰ r rs → 0 < length rs
  Memᴰ-length r [] m = elim m [ ]
  Memᴰ-length r (q ∷ rs) m = omega arith

  pub list_regions-Memᴰ :
      (id : Text) (r : Region) (s : MemStore D) → get_region id s ≡ some r → Memᴰ r (list_regions s)
  unfolding get_region list_regions
  list_regions-Memᴰ id r s g =
      Memᴰ-sort_by region_before r (values s.regions) (Memᴰ-values id s.regions g)

  put_same :
      (r : Region) (j : Text) (s : MemStore D)
      → text_eq r.id j ≡ true
      → get_region j (put_region save r s).0 ≡ some r
  put_same r j s t = rw (get_region-put_region save r j s, t) refl

  put_other :
      (r : Region) (j : Text) (s : MemStore D)
      → text_eq r.id j ≡ false
      → get_region j (put_region save r s).0 ≡ get_region j s
  put_other r j s t = rw (get_region-put_region save r j s, t) refl

  delete_same :
      (id j : Text) (s : MemStore D)
      → is_some (get_region id s) ≡ true
      → text_eq id j ≡ true
      → get_region j (Mem.delete_region save id s).0 ≡ none
  delete_same id j s h t = rw (get_region-delete_region id j s h, t) refl

  none-ne :
      (i j : Text) (q : Region) (s : MemStore D)
      → get_region i s ≡ none
      → get_region j s ≡ some q
      → text_eq i j ≡ false
  none-ne i j q s f g = elim (Bool-cases (text_eq i j)) [
    | inr n ↦ n
    | inl e ↦
        absurd
          (false≢true (ap is_some (sym f ∙ ap (λ x. get_region x s) ((text_eq_iff i j).0 e) ∙ g)))
  ]

  -- A new region that is no default, under a new id, is not the default.
  put_fresh :
      (r : Region) (s : MemStore D)
      → get_region r.id s ≡ none
      → r.is_default ≡ false
      → HasOneDefault s
      → HasOneDefault (put_region save r s).0
  put_fresh r s f n (id, (q, g, d), only) = (
    id,
    (q, rw (get_region-put_region save r id s, none-ne r.id id q s f g) g, d),
    λ j p h e. elim (Bool-cases (text_eq r.id j)) [
      | inl t ↦ absurd (false≢true (sym n ∙ ap is_marked (sym (put_same r j s t) ∙ h) ∙ e))
      | inr t ↦ only j p (sym (get_region-put_region save r j s ∙ rw t refl) ∙ h) e
    ],
  )

  create_region-HasOneDefault :
      (name host : Text) (now : ℕ) (s : MemStore D)
      → HasOneDefault s
      → HasOneDefault (create_region save name host now s).0
  unfolding create_region
  create_region-HasOneDefault name host now s h =
      elim (Bool-cases (text_eq (slug (trim_space name)) (codes ""))) [
        | inl e ↦ rw (create_region, e) h
        | inr e ↦ elim (Bool-cases (is_some (get_region (slug (trim_space name)) s))) [
          | inl f ↦ rw (create_region, e, f) h
          | inr f ↦
              rw (create_region, e, f)
                (put_fresh _ s (is_some-none (get_region (slug (trim_space name)) s) f)
                  (ground (
                    arith,
                    Memᴰ-length h.1.0 (list_regions s) (list_regions-Memᴰ h.0 h.1.0 s h.1.1),
                  ))
                  h)
        ]
      ]

  unmarked-ne :
      (i j : Text) (r q : Region) (s : MemStore D)
      → get_region i s ≡ some r
      → r.is_default ≡ false
      → get_region j s ≡ some q
      → q.is_default ≡ true
      → text_eq i j ≡ false
  unmarked-ne i j r q s f n g d = elim (Bool-cases (text_eq i j)) [
    | inr t ↦ t
    | inl e ↦ absurd (
        false≢true
          (sym n ∙ ap is_marked (sym f ∙ ap (λ x. get_region x s) ((text_eq_iff i j).0 e) ∙ g) ∙ d))
  ]

  delete_region-get_region :
      (id j : Text) (q : Region) (s : MemStore D)
      → is_some (get_region id s) ≡ true
      → get_region j (Mem.delete_region save id s).0 ≡ some q
      → get_region j s ≡ some q
  delete_region-get_region id j q s h g = elim (Bool-cases (text_eq id j)) [
    | inl t ↦ absurd (false≢true (ap is_some (sym (delete_same id j s h t) ∙ g)))
    | inr t ↦ sym (get_region-delete_region id j s h ∙ rw t refl) ∙ g
  ]

  delete_region-HasOneDefault :
      (id : Text) (s : MemStore D) → HasOneDefault s → HasOneDefault (delete_region save id s).0
  unfolding delete_region
  delete_region-HasOneDefault id s (i, (q, g, d), only) = elim (Option-cases (get_region id s)) [
    | inl e ↦ rw (delete_region, e) (i, (q, g, d), only)
    | inr (r, e) ↦ elim (Bool-cases r.is_default) [
      | inl f ↦ rw (delete_region, e, f) (i, (q, g, d), only)
      | inr f ↦
          rw (delete_region, e, f)
            (
              i,
              (
                q,
                rw (get_region-delete_region id i s (ap is_some e), unmarked-ne id i r q s e f g d)
                    g,
                d,
              ),
              λ j p h k. only j p (delete_region-get_region id j p s (ap is_some e) h) k,
            )
    ]
  ]

  pub region_call-HasOneDefault :
      (c : RegionCall) (s : MemStore D)
      → IsWellKeyed s
      → HasOneDefault s
      → HasOneDefault (region_call save c s)
  unfolding region_call
  region_call-HasOneDefault (create name host now) s k h =
      create_region-HasOneDefault name host now s h
  region_call-HasOneDefault (drop id) s k h = delete_region-HasOneDefault id s h
  region_call-HasOneDefault (choose id) s k h = set_default_region-HasOneDefault save id s k h

  -- The first region of a store is the default.
  pub put_first :
      (r : Region) (s : MemStore D)
      → list_regions s ≡ []
      → r.is_default ≡ true
      → HasOneDefault (put_region save r s).0
  put_first r s e d = (
    r.id,
    (r, put_same r r.id s (text_eq_refl r.id), d),
    λ j q g k. elim (Bool-cases (text_eq r.id j)) [
      | inl t ↦ sym ((text_eq_iff r.id j).0 t)
      | inr t ↦
          no_member q (subst (Memᴰ q) e (list_regions-Memᴰ j q s (sym (put_other r j s t) ∙ g)))
    ],
  )
