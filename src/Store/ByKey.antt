-- ===== src/Store/ByKey.antt =====
-- GetRouteByKey on two stores with the same routes (orchestrator/internal/store/store.go). The source
-- ranges over a map in any order: what it answers is one of the routes with the key.
use mathlib.Core.List.{Memᴰ}
use orchd.Prelude.{
  Text, text_eq, to_lower, ◌≡◌, sym, ◌∙◌, true, false, Option, none, some, List, [], ◌∷◌, All,
  arith, subst, Bool-cases, Option-cases, inl, inr,
}
use orchd.Table.{lookup, values, IsKeyed, All-values, Memᴰ-values}
use orchd.Store.Records.{Route}
use orchd.Store.Mem.{MemStore, route_key}
use orchd.Store.Query.{find_key, get_route_by_host, get_route_by_key}

-- A route that is stored under its host, and has a key.
pub record HasKey {D : Type 0} (s : MemStore D) (k : Text) (r : Route) : Type 0 where
  pub stored : get_route_by_host r.host s ≡ some r
  pub keyed : text_eq (to_lower r.key) (to_lower k) ≡ true

-- Two answers for a key: both none, or routes of one store with this key.
abbrev pub AreOfKey : {D : Type 0} → MemStore D → Text → Option Route → Option Route → Type 0
AreOfKey s k none none = Unit
AreOfKey s k none (some q) = false ≡ true
AreOfKey s k (some r) none = false ≡ true
AreOfKey s k (some r) (some q) = HasKey s k r × HasKey s k q

All-Memᴰ : (P : Route → Type 0) (r : Route) (rs : List Route) → All P rs → Memᴰ r rs → P r
All-Memᴰ P r [] h m = elim m [ ]
All-Memᴰ P r (x ∷ rs) h (Memᴰ.head e) = subst P (sym e) h.0
All-Memᴰ P r (x ∷ rs) h (Memᴰ.tail m) = All-Memᴰ P r rs h.1 m

find_key-some :
    (k : Text) (rs : List Route) (r : Route)
    → find_key k rs ≡ some r
    → Memᴰ r rs × (text_eq (to_lower r.key) k ≡ true)
unfolding find_key
find_key-some k [] r h = absurd (ground (arith, h))
find_key-some k (x ∷ rs) r h = elim (Bool-cases (text_eq (to_lower x.key) k)) [
  | inl e ↦
      let same : x ≡ r = ground (arith, h, e) in
      (Memᴰ.head (sym same), subst (λ (y : Route). text_eq (to_lower y.key) k ≡ true) same e)
  | inr e ↦ let (m, f) = find_key-some k rs r (rw e at h) in (Memᴰ.tail m, f)
]

find_key-none :
    (k : Text) (rs : List Route) (r : Route)
    → find_key k rs ≡ none
    → Memᴰ r rs
    → text_eq (to_lower r.key) k ≡ false
unfolding find_key
find_key-none k [] r h m = elim m [ ]
find_key-none k (x ∷ rs) r h m = elim (Bool-cases (text_eq (to_lower x.key) k)) [
  | inl e ↦ absurd (ground (arith, h, e))
  | inr e ↦ elim m [
    | Memᴰ.head p ↦ subst (λ (y : Route). text_eq (to_lower y.key) k ≡ false) (sym p) e
    | Memᴰ.tail n ↦ find_key-none k rs r (rw e at h) n
  ]
]

module _ {D : Type 0} where
  get_route_by_key-HasKey :
      (s : MemStore D) (k : Text) (r : Route)
      → IsKeyed route_key s.routes
      → get_route_by_key k s ≡ some r
      → HasKey s k r
  unfolding get_route_by_key get_route_by_host route_key
  get_route_by_key-HasKey s k r h e =
      let (m, f) = find_key-some (to_lower k) (values s.routes) r e in
      record {
        stored =
            All-Memᴰ (λ v. lookup (route_key v) s.routes ≡ some v) r (values s.routes)
              (All-values route_key s.routes h) m;
        keyed = f;
      }

  get_route_by_key-none :
      (s : MemStore D) (k : Text) (r : Route)
      → get_route_by_key k s ≡ none
      → HasKey s k r
      → false ≡ true
  unfolding get_route_by_key get_route_by_host
  get_route_by_key-none s k r e h =
      sym (
        find_key-none (to_lower k) (values s.routes) r e
          (Memᴰ-values (to_lower r.host) s.routes h.stored))
      ∙ h.keyed

  -- A route with a key is one in every store that has the same routes.
  HasKey-same :
      (s t : MemStore D) (k : Text) (r : Route)
      → ((j : Text) → lookup j s.routes ≡ lookup j t.routes)
      → HasKey s k r
      → HasKey t k r
  unfolding get_route_by_host
  HasKey-same s t k r same h = record {
    stored = sym (same (to_lower r.host)) ∙ h.stored;
    keyed = h.keyed;
  }

  pub get_route_by_key-AreOfKey :
      (s t : MemStore D) (k : Text)
      → IsKeyed route_key s.routes
      → IsKeyed route_key t.routes
      → ((j : Text) → lookup j s.routes ≡ lookup j t.routes)
      → AreOfKey t k (get_route_by_key k s) (get_route_by_key k t)
  get_route_by_key-AreOfKey s t k hs ht same = elim (Option-cases (get_route_by_key k s)) [
    | inl e ↦ elim (Option-cases (get_route_by_key k t)) [
      | inl f ↦ rw (e, f) tt
      | inr (q, f) ↦
          rw (e, f)
            (get_route_by_key-none s k q e
              (HasKey-same t s k q (λ j. sym (same j)) (get_route_by_key-HasKey t k q ht f)))
    ]
    | inr (r, e) ↦ elim (Option-cases (get_route_by_key k t)) [
      | inl f ↦
          rw (e, f)
            (get_route_by_key-none t k r f
              (HasKey-same s t k r same (get_route_by_key-HasKey s k r hs e)))
      | inr (q, f) ↦
          rw (e, f)
            (
              HasKey-same s t k r same (get_route_by_key-HasKey s k r hs e),
              get_route_by_key-HasKey t k q ht f,
            )
    ]
  ]
