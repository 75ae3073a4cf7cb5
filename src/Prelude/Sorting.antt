-- ===== src/Prelude/Sorting.antt =====
-- sort.Slice: insertion by a strict order. `sort.Slice` is not stable and the program gives it
-- maps in no order, so only what does not hang on the order of ties is stated of it.
use Prim.Native.Nat.{suc}
use mathlib.Core.Path.{◌≡◌, refl}
use mathlib.Core.Bool.{Bool, true, false}
use mathlib.Core.List.{List, [], ◌∷◌, Perm, Memᴰ}
use mathlib.Core.List.Perm
use native.Mathlib.Omega.{arith}
use orchd.Prelude.Tests.{if◌then◌else◌, Bool-cases}
use orchd.Prelude.Lists.{length, All}
use mathlib.Core.Logic.{inl, inr}

module _ {ℓ} {A : Type ℓ} (before : A → A → Bool) where
  unfoldable pub insert_by : A → List A → List A
  insert_by x [] = x ∷ []
  insert_by x (y ∷ ys) = if before y x then y ∷ insert_by x ys else x ∷ y ∷ ys

  unfoldable pub sort_by : List A → List A
  unfolding insert_by
  sort_by [] = []
  sort_by (x ∷ xs) = insert_by x (sort_by xs)

  -- No element comes before one that stands in front of it.
  abbrev pub IsSorted : List A → Type 0
  IsSorted [] = Unit
  IsSorted (x ∷ xs) = All (λ y. before y x ≡ false) xs × IsSorted xs

  pub length-insert_by : (x : A) (xs : List A) → length (insert_by x xs) ≡ suc (length xs)
  unfolding insert_by
  length-insert_by x [] = refl
  length-insert_by x (y ∷ ys) = ground (arith, length-insert_by x ys)

  pub length-sort_by : (xs : List A) → length (sort_by xs) ≡ length xs
  unfolding sort_by
  length-sort_by [] = refl
  length-sort_by (x ∷ xs) = omega (arith, length-insert_by x (sort_by xs), length-sort_by xs)

  insert_by-perm : (x : A) (xs : List A) → Perm (insert_by x xs) (x ∷ xs)
  unfolding insert_by
  insert_by-perm x [] = Perm.refl (x ∷ [])
  insert_by-perm x (y ∷ ys) = elim (Bool-cases (before y x)) [
    | inl e ↦ rw e (Perm.trans (Perm.cons y (insert_by-perm x ys)) (Perm.swap x y ys))
    | inr e ↦ rw e (Perm.refl (x ∷ y ∷ ys))
  ]

  pub sort_by-perm : (xs : List A) → Perm (sort_by xs) xs
  unfolding sort_by
  sort_by-perm [] = Perm.refl []
  sort_by-perm (x ∷ xs) = Perm.trans (insert_by-perm x (sort_by xs)) (Perm.cons x (sort_by-perm xs))

-- A property of all elements passes through a sort both ways.
module _ {ℓ} {A : Type ℓ} (before : A → A → Bool) (P : A → Type 0) where
  pub All-insert_by : (x : A) (xs : List A) → P x → All P xs → All P (insert_by before x xs)
  unfolding insert_by
  All-insert_by x [] p h = (p, tt)
  All-insert_by x (y ∷ ys) p h = elim (Bool-cases (before y x)) [
    | inl e ↦ rw e (h.0, All-insert_by x ys p h.1)
    | inr e ↦ rw e (p, h)
  ]

  pub All-sort_by : (xs : List A) → All P xs → All P (sort_by before xs)
  unfolding sort_by
  All-sort_by [] h = tt
  All-sort_by (x ∷ xs) h = All-insert_by x (sort_by before xs) h.0 (All-sort_by xs h.1)

-- A sort by a strict weak order is sorted.
module _ {ℓ} {A : Type ℓ} (before : A → A → Bool)
    (asym : (x y : A) → before y x ≡ true → before x y ≡ false)
    (trans : (x y z : A) → before y x ≡ false → before z y ≡ false → before z x ≡ false) where
  All-trans :
      (x y : A) (ys : List A)
      → before y x ≡ false
      → All (λ z. before z y ≡ false) ys
      → All (λ z. before z x ≡ false) ys
  All-trans x y [] h a = tt
  All-trans x y (z ∷ zs) h a = (trans x y z h a.0, All-trans x y zs h a.1)

  insert_by-IsSorted :
      (x : A) (xs : List A) → IsSorted before xs → IsSorted before (insert_by before x xs)
  unfolding insert_by
  insert_by-IsSorted x [] h = (tt, tt)
  insert_by-IsSorted x (y ∷ ys) h = elim (Bool-cases (before y x)) [
    | inl e ↦ rw e (
      All-insert_by before (λ z. before z y ≡ false) x ys (asym x y e) h.0,
      insert_by-IsSorted x ys h.1,
    )
    | inr e ↦ rw e ((e, All-trans x y ys e h.0), h)
  ]

  pub sort_by-IsSorted : (xs : List A) → IsSorted before (sort_by before xs)
  unfolding sort_by
  sort_by-IsSorted [] = tt
  sort_by-IsSorted (x ∷ xs) = insert_by-IsSorted x (sort_by before xs) (sort_by-IsSorted xs)

-- Membership, kept as data, passes through a sort.
module _ {ℓ} {A : Type ℓ} (before : A → A → Bool) where
  Memᴰ-insert_by : (a x : A) (xs : List A) → Memᴰ a (x ∷ xs) → Memᴰ a (insert_by before x xs)
  unfolding insert_by
  Memᴰ-insert_by a x [] h = h
  Memᴰ-insert_by a x (y ∷ ys) (Memᴰ.head p) = elim (Bool-cases (before y x)) [
    | inr e ↦ rw e (Memᴰ.head p)
    | inl e ↦ rw e (Memᴰ.tail (Memᴰ-insert_by a x ys (Memᴰ.head p)))
  ]
  Memᴰ-insert_by a x (y ∷ ys) (Memᴰ.tail (Memᴰ.head p)) = elim (Bool-cases (before y x)) [
    | inr e ↦ rw e (Memᴰ.tail (Memᴰ.head p))
    | inl e ↦ rw e (Memᴰ.head p)
  ]
  Memᴰ-insert_by a x (y ∷ ys) (Memᴰ.tail (Memᴰ.tail m)) = elim (Bool-cases (before y x)) [
    | inr e ↦ rw e (Memᴰ.tail (Memᴰ.tail m))
    | inl e ↦ rw e (Memᴰ.tail (Memᴰ-insert_by a x ys (Memᴰ.tail m)))
  ]

  pub Memᴰ-sort_by : (a : A) (xs : List A) → Memᴰ a xs → Memᴰ a (sort_by before xs)
  unfolding sort_by
  Memᴰ-sort_by a [] h = h
  Memᴰ-sort_by a (x ∷ xs) (Memᴰ.head p) = Memᴰ-insert_by a x (sort_by before xs) (Memᴰ.head p)
  Memᴰ-sort_by a (x ∷ xs) (Memᴰ.tail m) =
      Memᴰ-insert_by a x (sort_by before xs) (Memᴰ.tail (Memᴰ-sort_by a xs m))

  Memᴰ-swap : (a x y : A) (xs : List A) → Memᴰ a (y ∷ x ∷ xs) → Memᴰ a (x ∷ y ∷ xs)
  Memᴰ-swap a x y xs (Memᴰ.head p) = Memᴰ.tail (Memᴰ.head p)
  Memᴰ-swap a x y xs (Memᴰ.tail (Memᴰ.head p)) = Memᴰ.head p
  Memᴰ-swap a x y xs (Memᴰ.tail (Memᴰ.tail m)) = Memᴰ.tail (Memᴰ.tail m)

  insert_by-Memᴰ : (a x : A) (xs : List A) → Memᴰ a (insert_by before x xs) → Memᴰ a (x ∷ xs)
  unfolding insert_by
  insert_by-Memᴰ a x [] m = m
  insert_by-Memᴰ a x (y ∷ ys) m = elim (Bool-cases (before y x)) [
    | inr e ↦ rw e at m
    | inl e ↦ elim (rw e at m) [
      | Memᴰ.head p ↦ Memᴰ.tail (Memᴰ.head p)
      | Memᴰ.tail n ↦ Memᴰ-swap a x y ys (Memᴰ.tail (insert_by-Memᴰ a x ys n))
    ]
  ]

  pub sort_by-Memᴰ : (a : A) (xs : List A) → Memᴰ a (sort_by before xs) → Memᴰ a xs
  unfolding sort_by
  sort_by-Memᴰ a [] m = m
  sort_by-Memᴰ a (x ∷ xs) m = elim (insert_by-Memᴰ a x (sort_by before xs) m) [
    | Memᴰ.head p ↦ Memᴰ.head p
    | Memᴰ.tail n ↦ Memᴰ.tail (sort_by-Memᴰ a xs n)
  ]
