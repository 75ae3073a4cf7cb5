-- ===== src/Backup/Stored.antt =====
-- An archive that is written into a workload's directory, beside those that are there.
use mathlib.Core.List.{Memᴰ}
use orchd.Prelude.{
  ℕ, Text, text_eq, text_eq_iff, ◌≡◌, ◌≢◌, refl, ap, Option, none, some, [], ◌∷◌, Bool-cases, inl,
  inr, false, subst, index_of,
}
use orchd.Table.{Table, insert}
use orchd.Backup.Names.{dot, underscore, backup_id, file_name, IsKind, parse_id-backup_id}
use orchd.Backup.Local.{Node, file, folder, Backup, listed, walk_entries, stored}
use orchd.Backup.Listed.{Memᴰ-left, Memᴰ-right, Memᴰ-either}

-- The layout of times is read back, and has neither a dot nor an underscore.
module _ (format : ℕ → Text) (parse : Text → Option ℕ) (reads : (t : ℕ) → parse (format t) ≡ some t)
    (dotless : (t : ℕ) → index_of dot (format t) ≡ none)
    (unmarked : (t : ℕ) → index_of underscore (format t) ≡ none) (wid : Text)
    (named : text_eq wid [] ≡ false) (now : ℕ) (kind : Text)
    (is_kind : IsKind format parse kind) where
  listed-file_name :
      (s : Text)
      → listed format parse wid (file_name format parse now kind) (file s)
        ≡ stored format parse wid now kind s ∷ []
  unfolding listed stored
  listed-file_name s =
      rw (listed, (parse_id-backup_id format parse reads dotless unmarked wid now kind is_kind).1)
        refl

  -- What stands under the name is listed under the id.
  listed-id :
      (b : Backup) (node : Node)
      → Memᴰ b (listed format parse wid (file_name format parse now kind) node)
      → b.id ≡ backup_id format parse wid now kind
  unfolding listed stored
  listed-id b (folder e) m = elim m [ ]
  listed-id b (file s) m = elim (subst (λ bs. Memᴰ b bs) (listed-file_name s) m) [
    | Memᴰ.head e ↦ ap (λ c. c.id) e
    | Memᴰ.tail n ↦ elim n [ ]
  ]

  pub Memᴰ-written :
      (s : Text) (files : Table Node)
      → Memᴰ
          (stored format parse wid now kind s)
          (walk_entries format parse wid (insert (file_name format parse now kind) (file s) files))
  unfolding walk_entries insert
  Memᴰ-written s [] = rw (listed-file_name s) (Memᴰ.head refl)
  Memᴰ-written s ((j, n) ∷ files) =
      elim (Bool-cases (text_eq j (file_name format parse now kind))) [
        | inl e ↦ rw (e, listed-file_name s) (Memᴰ.head refl)
        | inr e ↦ rw e (
            Memᴰ-right (stored format parse wid now kind s) (listed format parse wid j n) _
              (Memᴰ-written s files))
      ]

  pub Memᴰ-kept :
      (b : Backup) (s : Text) (files : Table Node)
      → b.id ≢ backup_id format parse wid now kind
      → Memᴰ b (walk_entries format parse wid files)
      → Memᴰ b
          (walk_entries format parse wid (insert (file_name format parse now kind) (file s) files))
  unfolding walk_entries insert
  Memᴰ-kept b s [] h m = elim m [ ]
  Memᴰ-kept b s ((j, n) ∷ files) h m =
      elim (Bool-cases (text_eq j (file_name format parse now kind))) [
        | inl e ↦
            rw (e, listed-file_name s)
              (elim (Memᴰ-either b (listed format parse wid j n) _ m) [
                | inl k ↦ absurd (
                    h (
                      listed-id b n (
                        subst (λ i. Memᴰ b (listed format parse wid i n))
                          ((text_eq_iff j (file_name format parse now kind)).0 e) k)))
                | inr k ↦ Memᴰ.tail k
              ])
        | inr e ↦ rw e (elim (Memᴰ-either b (listed format parse wid j n) _ m) [
          | inl k ↦ Memᴰ-left b _ _ k
          | inr k ↦ Memᴰ-right b (listed format parse wid j n) _ (Memᴰ-kept b s files h k)
        ])
      ]
