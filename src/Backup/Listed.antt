-- ===== src/Backup/Listed.antt =====
-- How a listing of the local store follows what is written to a workload's directory.
use mathlib.Core.List.{Memᴰ}
use orchd.Prelude.{
  ℕ, Text, text_eq, text_eq_iff, ◌≡◌, refl, Option, none, List, [], ◌∷◌, ◌++◌, Bool-cases, inl, inr,
  ◌⊎◌,
}
use orchd.Table.{Table, lookup, insert, remove, keys, lookup-insert}
use orchd.Backup.Names.{parse_file_name}
use orchd.Backup.Local.{
  Node, file, folder, RootNode, dir, Disk, files_of, set_file, unset, listed, walk_entries,
  walk_dir, walk_root, list,
}

pub Memᴰ-left {ℓ} : {A : Type ℓ} (a : A) (xs ys : List A) → Memᴰ a xs → Memᴰ a (xs ++ ys)
Memᴰ-left a [] ys m = elim m [ ]
Memᴰ-left a (x ∷ xs) ys (Memᴰ.head e) = Memᴰ.head e
Memᴰ-left a (x ∷ xs) ys (Memᴰ.tail m) = Memᴰ.tail (Memᴰ-left a xs ys m)

pub Memᴰ-right {ℓ} : {A : Type ℓ} (a : A) (xs ys : List A) → Memᴰ a ys → Memᴰ a (xs ++ ys)
Memᴰ-right a [] ys m = m
Memᴰ-right a (x ∷ xs) ys m = Memᴰ.tail (Memᴰ-right a xs ys m)

pub Memᴰ-either {ℓ} :
    {A : Type ℓ} (a : A) (xs ys : List A) → Memᴰ a (xs ++ ys) → Memᴰ a xs ⊎ Memᴰ a ys
Memᴰ-either a [] ys m = inr m
Memᴰ-either a (x ∷ xs) ys (Memᴰ.head e) = inl (Memᴰ.head e)
Memᴰ-either a (x ∷ xs) ys (Memᴰ.tail m) = elim (Memᴰ-either a xs ys m) [
  | inl k ↦ inl (Memᴰ.tail k)
  | inr k ↦ inr k
]

module _ (format : ℕ → Text) (parse : Text → Option ℕ) where
  -- A name that is not an archive's is not listed, whatever it stands for.
  listed-unread :
      (wid name : Text) (node : Node)
      → parse_file_name format parse name ≡ none
      → listed format parse wid name node ≡ []
  unfolding listed
  listed-unread wid name (folder e) h = refl
  listed-unread wid name (file s) h = rw (listed, h) refl

  pub walk_entries-insert :
      (wid name : Text) (node : Node) (files : Table Node)
      → parse_file_name format parse name ≡ none
      → walk_entries format parse wid (insert name node files) ≡ walk_entries format parse wid files
  unfolding walk_entries insert
  walk_entries-insert wid name node [] h = rw (listed-unread wid name node h) refl
  walk_entries-insert wid name node ((j, n) ∷ files) h = elim (Bool-cases (text_eq j name)) [
    | inl e ↦
        rw (e, (text_eq_iff j name).0 e, listed-unread wid name node h, listed-unread wid name n h)
          refl
    | inr e ↦ rw (e, walk_entries-insert wid name node files h) refl
  ]

  pub walk_entries-remove :
      (wid name : Text) (files : Table Node)
      → parse_file_name format parse name ≡ none
      → walk_entries format parse wid (remove name files) ≡ walk_entries format parse wid files
  unfolding walk_entries remove
  walk_entries-remove wid name [] h = refl
  walk_entries-remove wid name ((j, n) ∷ files) h = elim (Bool-cases (text_eq j name)) [
    | inl e ↦
        rw
          (
            e,
            (text_eq_iff j name).0 e,
            listed-unread wid name n h,
            walk_entries-remove wid name files h,
          )
          refl
    | inr e ↦ rw (e, walk_entries-remove wid name files h) refl
  ]

  -- A directory is replaced by one that lists the same.
  walk_dir-insert :
      (wid : Text) (files : Table Node) (disk : Disk)
      → walk_entries format parse wid files ≡ walk_dir format parse wid disk
      → (v : Text)
      → walk_dir format parse v (insert wid (dir files) disk) ≡ walk_dir format parse v disk
  unfolding walk_dir files_of
  walk_dir-insert wid files disk h v = elim (Bool-cases (text_eq wid v)) [
    | inl e ↦ rw (lookup-insert wid v (dir files) disk, e, ← (text_eq_iff wid v).0 e) h
    | inr e ↦ rw (lookup-insert wid v (dir files) disk, e) refl
  ]

  walk_root-same :
      (d e : Disk) (ks : List Text)
      → ((v : Text) → walk_dir format parse v d ≡ walk_dir format parse v e)
      → walk_root format parse d ks ≡ walk_root format parse e ks
  unfolding walk_root
  walk_root-same d e [] h = refl
  walk_root-same d e (k ∷ ks) h = rw (h k, walk_root-same d e ks h) refl

  -- A new name in the root that lists nothing adds nothing.
  walk_root-keys :
      (wid : Text) (node : RootNode) (m d : Disk)
      → (lookup wid m ≡ none → walk_dir format parse wid d ≡ [])
      → walk_root format parse d (keys (insert wid node m)) ≡ walk_root format parse d (keys m)
  unfolding walk_root keys insert lookup
  walk_root-keys wid node [] d h = rw (h refl) refl
  walk_root-keys wid node ((j, n) ∷ m) d h = elim (Bool-cases (text_eq j wid)) [
    | inl e ↦ rw (e, (text_eq_iff j wid).0 e) refl
    | inr e ↦ rw (e, walk_root-keys wid node m d (λ q. h (rw e q))) refl
  ]

  pub list-insert :
      (wid : Text) (files : Table Node) (disk : Disk)
      → walk_entries format parse wid files ≡ walk_dir format parse wid disk
      → (v : Text) → list format parse v (insert wid (dir files) disk) ≡ list format parse v disk
  unfolding list walk_dir files_of walk_entries
  list-insert wid files disk h v =
      rw
        (
          walk_root-same (insert wid (dir files) disk) disk (keys (insert wid (dir files) disk))
              (walk_dir-insert wid files disk h),
          walk_root-keys wid (dir files) disk disk (λ q. rw q refl),
          walk_dir-insert wid files disk h v,
        )
        refl

  -- So the files of other names come and go without notice.
  pub list-set_file :
      (wid name bytes : Text) (disk : Disk)
      → parse_file_name format parse name ≡ none
      → (v : Text) → list format parse v (set_file wid name bytes disk) ≡ list format parse v disk
  unfolding set_file walk_dir
  list-set_file wid name bytes disk h v =
      list-insert wid (insert name (file bytes) (files_of (lookup wid disk))) disk
        (walk_entries-insert wid name (file bytes) (files_of (lookup wid disk)) h) v

  pub list-unset :
      (wid name : Text) (disk : Disk)
      → parse_file_name format parse name ≡ none
      → (v : Text) → list format parse v (unset wid name disk) ≡ list format parse v disk
  unfolding unset walk_dir
  list-unset wid name disk h v =
      list-insert wid (remove name (files_of (lookup wid disk))) disk
        (walk_entries-remove wid name (files_of (lookup wid disk)) h) v
