-- ===== src/Table/Rebuild.antt =====
-- A map filled from a list of values, as a load from disk does it.
use orchd.Prelude.{
  Text, text_eq, text_eq_iff, ◌≡◌, refl, Bool, Option, none, some, List, [], ◌∷◌, arith,
  if◌then◌else◌, or_else,
}
use orchd.Prelude.Sorting.{insert_by, sort_by}
use orchd.Table.Defs.{Table, lookup, insert, values, lookup-insert, IsKeyed, insert-IsKeyed}

module _ {ℓ} {V : Type ℓ} (key : V → Text) where
  -- for _, v := range vs { m[key(v)] = v }
  unfoldable pub fill : Table V → List V → Table V
  fill m [] = m
  fill m (v ∷ vs) = fill (insert (key v) v m) vs

  -- The last value with a key.
  unfoldable pub find_last : Text → List V → Option V
  find_last k [] = none
  find_last k (v ∷ vs) = or_else (find_last k vs) (if text_eq (key v) k then some v else none)

  pub fill-IsKeyed : (m : Table V) (vs : List V) → IsKeyed key m → IsKeyed key (fill m vs)
  unfolding fill
  fill-IsKeyed m [] h = h
  fill-IsKeyed m (v ∷ vs) h =
      fill-IsKeyed (insert (key v) v m) vs (insert-IsKeyed key (key v) v m refl h)

  pub lookup-fill :
      (k : Text) (m : Table V) (vs : List V)
      → lookup k (fill m vs) ≡ or_else (find_last k vs) (lookup k m)
  unfolding fill find_last
  lookup-fill k m [] = refl
  lookup-fill k m (v ∷ vs) =
      ground (arith, lookup-fill k (insert (key v) v m) vs, lookup-insert (key v) k v m)

  module _ (before : V → V → Bool) where
    find_last-insert_by :
        (k : Text) (v : V) (vs : List V)
        → find_last (key v) vs ≡ none
        → find_last k (insert_by before v vs)
          ≡ (if text_eq (key v) k then some v else find_last k vs)
    unfolding find_last insert_by
    find_last-insert_by k v [] h = refl
    find_last-insert_by k v (y ∷ ys) h = ground (
      arith,
      find_last-insert_by k v ys,
      text_eq_iff (key v) k,
      text_eq_iff (key y) k,
      text_eq_iff (key y) (key v),
    )

    find_last-sort_by :
        (k : Text) (m : Table V)
        → IsKeyed key m
        → find_last k (sort_by before (values m)) ≡ lookup k m
    unfolding find_last sort_by values lookup
    find_last-sort_by k [] h = refl
    find_last-sort_by k ((j, v) ∷ m) h = ground (
      arith,
      find_last-insert_by k v (sort_by before (values m)),
      find_last-sort_by k m h.2,
      find_last-sort_by j m h.2,
      h.0,
      h.1,
      text_eq_iff (key v) k,
      text_eq_iff j k,
    )

    -- A map written out in any sorted order and read back has the same entries.
    pub lookup-fill-sort_by :
        (k : Text) (m : Table V)
        → IsKeyed key m
        → lookup k (fill [] (sort_by before (values m))) ≡ lookup k m
    unfolding lookup
    lookup-fill-sort_by k m h =
        ground (arith, lookup-fill k [] (sort_by before (values m)), find_last-sort_by k m h)

  find_last-values : (k : Text) (m : Table V) → IsKeyed key m → find_last k (values m) ≡ lookup k m
  unfolding find_last values lookup
  find_last-values k [] h = refl
  find_last-values k ((j, v) ∷ m) h =
      ground (arith, find_last-values k m h.2, h.0, h.1, text_eq_iff (key v) k, text_eq_iff j k)

  -- The same where the program writes the map out in no order.
  pub lookup-fill-values :
      (k : Text) (m : Table V) → IsKeyed key m → lookup k (fill [] (values m)) ≡ lookup k m
  unfolding lookup
  lookup-fill-values k m h = ground (arith, lookup-fill k [] (values m), find_last-values k m h)
