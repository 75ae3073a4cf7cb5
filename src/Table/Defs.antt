-- ===== src/Table/Defs.antt =====
-- The operations of a map and their laws.
use mathlib.Core.List.{Memᴰ}
use orchd.Prelude.{
  All, Text, text_eq, text_eq_iff, text_eq_refl, ◌≡◌, refl, Bool, false, Option, none, some, List,
  [], ◌∷◌, arith, Bool-cases, inl, inr, if◌then◌else◌,
}

abbrev pub Table {ℓ} : Type ℓ → Type ℓ
Table V = List (Text × V)

module _ {ℓ} {V : Type ℓ} where
  -- m[k]
  unfoldable pub lookup : Text → Table V → Option V
  lookup k [] = none
  lookup k ((j, v) ∷ m) = if text_eq j k then some v else lookup k m

  -- m[k] = v
  unfoldable pub insert : Text → V → Table V → Table V
  insert k v [] = (k, v) ∷ []
  insert k v ((j, w) ∷ m) = if text_eq j k then (k, v) ∷ m else (j, w) ∷ insert k v m

  -- delete(m, k)
  unfoldable pub remove : Text → Table V → Table V
  remove k [] = []
  remove k ((j, v) ∷ m) = let rest = remove k m in if text_eq j k then rest else (j, v) ∷ rest

  -- for k, v := range m { if p(k, v) { delete(m, k) } }
  unfoldable pub remove_if : (Text → V → Bool) → Table V → Table V
  remove_if p [] = []
  remove_if p ((j, v) ∷ m) = let rest = remove_if p m in if p j v then rest else (j, v) ∷ rest

  -- for k := range m
  unfoldable pub keys : Table V → List Text
  keys [] = []
  keys ((k, v) ∷ m) = k ∷ keys m

  -- for _, v := range m
  unfoldable pub values : Table V → List V
  values [] = []
  values ((k, v) ∷ m) = v ∷ values m

  pub lookup-insert :
      (k j : Text) (v : V) (m : Table V)
      → lookup j (insert k v m) ≡ (if text_eq k j then some v else lookup j m)
  unfolding lookup insert
  lookup-insert k j v [] = refl
  lookup-insert k j v ((i, w) ∷ m) =
      ground (arith, text_eq_iff k j, text_eq_iff i k, text_eq_iff i j, lookup-insert k j v m)

  pub lookup-insert_self : (k : Text) (v : V) (m : Table V) → lookup k (insert k v m) ≡ some v
  lookup-insert_self k v m = simp (lookup-insert, text_eq_refl)

  pub lookup-remove :
      (k j : Text) (m : Table V)
      → lookup j (remove k m) ≡ (if text_eq k j then none else lookup j m)
  unfolding lookup remove
  lookup-remove k j [] = ground arith
  lookup-remove k j ((i, w) ∷ m) =
      ground (arith, text_eq_iff k j, text_eq_iff i k, text_eq_iff i j, lookup-remove k j m)

  pub lookup-remove_self : (k : Text) (m : Table V) → lookup k (remove k m) ≡ none
  lookup-remove_self k m = simp (lookup-remove, text_eq_refl)

-- What a filter leaves of a look-up.
abbrev pub unless {ℓ} : {V : Type ℓ} → (V → Bool) → Option V → Option V
unless p none = none
unless p (some v) = if p v then none else some v

pub unless-eq-some {ℓ} :
    {V : Type ℓ} (p : V → Bool) (o : Option V) {v : V}
    → unless p o ≡ some v
    → (o ≡ some v) × (p v ≡ false)
unless-eq-some p none h = cc
unless-eq-some p (some w) h = elim (Bool-cases (p w)) [
  | inl e ↦ absurd (ground (arith, e))
  | inr e ↦ (rw e at h, ground (arith, e))
]

-- Each entry stands once, under the key that the program computes from its value.
module _ {ℓ} {V : Type ℓ} (key : V → Text) where
  abbrev pub IsKeyed : Table V → Type ℓ
  IsKeyed [] = Unit
  IsKeyed ((k, v) ∷ m) = (key v ≡ k) × (lookup k m ≡ none) × IsKeyed m

  pub insert-IsKeyed :
      (k : Text) (v : V) (m : Table V) → key v ≡ k → IsKeyed m → IsKeyed (insert k v m)
  unfolding insert lookup
  insert-IsKeyed k v [] e h = (e, refl, tt)
  insert-IsKeyed k v ((j, w) ∷ m) e h = elim (Bool-cases (text_eq j k)) [
    | inl t ↦ rw t (e, rw (← (text_eq_iff j k).0 t) h.1, h.2)
    | inr f ↦ rw f (
      h.0,
      ground (arith, lookup-insert k j v m, text_eq_iff k j, text_eq_iff j k, h.1),
      insert-IsKeyed k v m e h.2,
    )
  ]

  pub remove-IsKeyed : (k : Text) (m : Table V) → IsKeyed m → IsKeyed (remove k m)
  unfolding remove
  remove-IsKeyed k [] h = tt
  remove-IsKeyed k ((j, w) ∷ m) h = elim (Bool-cases (text_eq j k)) [
    | inl t ↦ rw t (remove-IsKeyed k m h.2)
    | inr f ↦ rw f (h.0, ground (arith, lookup-remove k j m, h.1), remove-IsKeyed k m h.2)
  ]

  -- Where a value says its key, a filter by values looks up as a filter of the result.
  pub lookup-remove_if :
      (p : Text → V → Bool) (j : Text) (m : Table V)
      → IsKeyed m
      → lookup j (remove_if p m) ≡ unless (p j) (lookup j m)
  unfolding lookup remove_if
  lookup-remove_if p j [] h = refl
  lookup-remove_if p j ((i, w) ∷ m) h =
      ground (arith, text_eq_iff i j, lookup-remove_if p j m h.2, h.1)

  pub remove_if-IsKeyed : (p : Text → V → Bool) (m : Table V) → IsKeyed m → IsKeyed (remove_if p m)
  unfolding remove_if
  remove_if-IsKeyed p [] h = tt
  remove_if-IsKeyed p ((j, w) ∷ m) h = elim (Bool-cases (p j w)) [
    | inl t ↦ rw t (remove_if-IsKeyed p m h.2)
    | inr f ↦ rw f (h.0, ground (arith, lookup-remove_if p j m h.2, h.1), remove_if-IsKeyed p m h.2)
  ]

  -- What a look-up finds has the key that was looked up.
  pub key-lookup : (k : Text) (m : Table V) {v : V} → IsKeyed m → lookup k m ≡ some v → key v ≡ k
  unfolding lookup
  key-lookup k [] h e = cc
  key-lookup k ((j, w) ∷ m) {v} h e =
      ground (arith, text_eq_iff j k, key-lookup k m {v = v} h.2, h.0)

  IsStored-later :
      (k : Text) (w : V) (m : Table V) (vs : List V)
      → lookup k m ≡ none
      → All (λ v. lookup (key v) m ≡ some v) vs
      → All (λ v. lookup (key v) ((k, w) ∷ m) ≡ some v) vs
  unfolding lookup
  IsStored-later k w m [] h a = tt
  IsStored-later k w m (v ∷ vs) h a =
      (ground (arith, h, a.0, text_eq_iff k (key v)), IsStored-later k w m vs h a.1)

  -- Each value of a range is found under its own key.
  pub All-values : (m : Table V) → IsKeyed m → All (λ v. lookup (key v) m ≡ some v) (values m)
  unfolding lookup values
  All-values [] h = tt
  All-values ((k, w) ∷ m) h = (
    ground (arith, h.0, text_eq_iff k (key w)),
    IsStored-later k w m (values m) h.1 (All-values m h.2),
  )

-- What a look-up finds is a value of the range.
pub Memᴰ-values {ℓ} :
    {V : Type ℓ} (k : Text) (m : Table V) {v : V} → lookup k m ≡ some v → Memᴰ v (values m)
unfolding lookup values
Memᴰ-values k [] h = cc
Memᴰ-values k ((j, w) ∷ m) {v} h = elim (Bool-cases (text_eq j k)) [
  | inl e ↦ let q : some w ≡ some v = rw (e, lookup) at h in Memᴰ.head (ground (arith, q))
  | inr e ↦ let q : lookup k m ≡ some v = rw (e, lookup) at h in Memᴰ.tail (Memᴰ-values k m q)
]
