-- ===== src/Backup/Merged.antt =====
-- What the listing of several stores has.
use mathlib.Core.List.{Memᴰ}
use orchd.Prelude.{
  Text, text_eq, text_eq_iff, text_eq_refl, true, false, Option, none, some, List, [], ◌∷◌, ◌++◌,
  inl, inr, if◌then◌else◌, ◌≡◌, refl, ap, ◌∙◌, arith, Bool-cases, Option-cases, ◌||◌,
}
use orchd.Prelude.Sorting.{sort_by, insert_by}
use orchd.Backup.Local.{Backup, newer}
use orchd.Backup.Multi.{is_seen, add_new}

-- The first backup of a list with an id.
abbrev pub find : Text → List Backup → Option Backup
find id [] = none
find id (b ∷ bs) = if text_eq b.id id then some b else find id bs

abbrev pub or_else : Option Backup → Option Backup → Option Backup
or_else none o = o
or_else (some b) o = some b

-- Each id stands once.
abbrev pub HasUniqueIds : List Backup → Type 0
HasUniqueIds [] = Unit
HasUniqueIds (b ∷ bs) = (is_seen b.id bs ≡ false) × HasUniqueIds bs

find-append :
    (id : Text) (xs ys : List Backup) → find id (xs ++ ys) ≡ or_else (find id xs) (find id ys)
find-append id [] ys = refl
find-append id (x ∷ xs) ys = ground (arith, find-append id xs ys)

find-is_seen : (id : Text) (xs : List Backup) → is_seen id xs ≡ false → find id xs ≡ none
find-is_seen id [] h = refl
find-is_seen id (x ∷ xs) h = ground (arith, find-is_seen id xs)

is_seen-find : (id : Text) (xs : List Backup) → find id xs ≡ none → is_seen id xs ≡ false
is_seen-find id [] h = refl
is_seen-find id (x ∷ xs) h = ground (arith, is_seen-find id xs)

is_seen-append :
    (id : Text) (xs ys : List Backup) → is_seen id (xs ++ ys) ≡ (is_seen id xs || is_seen id ys)
is_seen-append id [] ys = refl
is_seen-append id (x ∷ xs) ys = ground (arith, is_seen-append id xs ys)

-- An unseen backup at the end keeps the ids apart.
append-HasUniqueIds :
    (xs : List Backup) (b : Backup)
    → is_seen b.id xs ≡ false
    → HasUniqueIds xs
    → HasUniqueIds (xs ++ (b ∷ []))
append-HasUniqueIds [] b h u = (refl, tt)
append-HasUniqueIds (x ∷ xs) b h u = (
  ground
      (arith, is_seen-append x.id xs (b ∷ []), u.0, text_eq_iff b.id x.id, text_eq_iff x.id b.id),
  append-HasUniqueIds xs b (ground (arith, h)) u.1,
)

pub add_new-HasUniqueIds : (bs out : List Backup) → HasUniqueIds out → HasUniqueIds (add_new bs out)
unfolding add_new
add_new-HasUniqueIds [] out u = u
add_new-HasUniqueIds (b ∷ bs) out u = elim (Bool-cases (is_seen b.id out)) [
  | inl e ↦ rw (add_new, e) (add_new-HasUniqueIds bs out u)
  | inr e ↦
      rw (add_new, e) (add_new-HasUniqueIds bs (out ++ (b ∷ [])) (append-HasUniqueIds out b e u))
]

find-seen :
    (id : Text) (b : Backup) (bs out : List Backup)
    → is_seen b.id out ≡ true
    → or_else (find id out) (find id bs) ≡ or_else (find id out) (find id (b ∷ bs))
find-seen id b bs out e = elim (Option-cases (find id out)) [
  | inl n ↦ ground (arith, n, e, is_seen-find id out n, text_eq_iff b.id id)
  | inr (c, n) ↦ rw n refl
]

or_else-cons :
    (id : Text) (b : Backup) (bs : List Backup) (o : Option Backup)
    → or_else (or_else o (find id (b ∷ []))) (find id bs) ≡ or_else o (find id (b ∷ bs))
or_else-cons id b bs none = ground arith
or_else-cons id b bs (some c) = refl

-- The first with an id is that of the lists in their order.
pub find-add_new :
    (id : Text) (bs out : List Backup)
    → find id (add_new bs out) ≡ or_else (find id out) (find id bs)
unfolding add_new
find-add_new id [] out = ground arith
find-add_new id (b ∷ bs) out = elim (Bool-cases (is_seen b.id out)) [
  | inl e ↦ rw (add_new, e) (find-add_new id bs out ∙ find-seen id b bs out e)
  | inr e ↦
      rw (add_new, e)
        (find-add_new id bs (out ++ (b ∷ []))
          ∙ (rw (find-append id out (b ∷ [])) (or_else-cons id b bs (find id out))))
]

-- In a list whose ids are apart, what stands in it is what its id finds.
pub find-Memᴰ : (id : Text) (b : Backup) (xs : List Backup) → find id xs ≡ some b → Memᴰ b xs
find-Memᴰ id b [] h = absurd (ground (arith, h))
find-Memᴰ id b (x ∷ xs) h = elim (Bool-cases (text_eq x.id id)) [
  | inl e ↦ Memᴰ.head (ground (arith, h, e))
  | inr e ↦ Memᴰ.tail (find-Memᴰ id b xs (rw e at h))
]

Memᴰ-is_seen : (b : Backup) (xs : List Backup) → Memᴰ b xs → is_seen b.id xs ≡ true
Memᴰ-is_seen b [] m = elim m [ ]
Memᴰ-is_seen b (x ∷ xs) (Memᴰ.head p) = rw (← p, text_eq_refl b.id) refl
Memᴰ-is_seen b (x ∷ xs) (Memᴰ.tail m) = ground (arith, Memᴰ-is_seen b xs m)

pub Memᴰ-find :
    (b : Backup) (xs : List Backup) → HasUniqueIds xs → Memᴰ b xs → find b.id xs ≡ some b
Memᴰ-find b [] u m = elim m [ ]
Memᴰ-find b (x ∷ xs) u (Memᴰ.head p) = rw (← p, text_eq_refl b.id) refl
Memᴰ-find b (x ∷ xs) u (Memᴰ.tail m) =
    ground (arith, Memᴰ-find b xs u.1 m, Memᴰ-is_seen b xs m, u.0, text_eq_iff x.id b.id)

-- A sort keeps the ids apart.
is_seen-insert_by :
    (id : Text) (b : Backup) (xs : List Backup)
    → is_seen id (insert_by newer b xs) ≡ (text_eq b.id id || is_seen id xs)
unfolding insert_by
is_seen-insert_by id b [] = refl
is_seen-insert_by id b (x ∷ xs) = elim (Bool-cases (newer x b)) [
  | inl e ↦ rw e (ground (arith, is_seen-insert_by id b xs))
  | inr e ↦ rw e refl
]

insert_by-HasUniqueIds :
    (b : Backup) (xs : List Backup)
    → is_seen b.id xs ≡ false
    → HasUniqueIds xs
    → HasUniqueIds (insert_by newer b xs)
unfolding insert_by
insert_by-HasUniqueIds b [] h u = (refl, tt)
insert_by-HasUniqueIds b (x ∷ xs) h u = elim (Bool-cases (newer x b)) [
  | inl e ↦ rw e (
    ground
        (arith, is_seen-insert_by x.id b xs, u.0, h, text_eq_iff b.id x.id, text_eq_iff x.id b.id),
    insert_by-HasUniqueIds b xs (ground (arith, h)) u.1,
  )
  | inr e ↦ rw e (h, u)
]

is_seen-sort_by : (id : Text) (xs : List Backup) → is_seen id (sort_by newer xs) ≡ is_seen id xs
unfolding sort_by
is_seen-sort_by id [] = refl
is_seen-sort_by id (x ∷ xs) =
    is_seen-insert_by id x (sort_by newer xs)
    ∙ ap (λ r. text_eq x.id id || r) (is_seen-sort_by id xs)

pub sort_by-HasUniqueIds : (xs : List Backup) → HasUniqueIds xs → HasUniqueIds (sort_by newer xs)
unfolding sort_by
sort_by-HasUniqueIds [] u = tt
sort_by-HasUniqueIds (x ∷ xs) u =
    insert_by-HasUniqueIds x (sort_by newer xs) (is_seen-sort_by x.id xs ∙ u.0)
      (sort_by-HasUniqueIds xs u.1)
