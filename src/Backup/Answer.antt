-- ===== src/Backup/Answer.antt =====
-- When Put succeeds.
use orchd.Prelude.{
  ℕ, Text, codes, text_eq, text_eq_iff, ◌≡◌, refl, ap, arith, Option, none, some, [], Bool, not,
  ◌&&◌, Bool-cases, text_eq-append, inl, inr, true, false, ◌∙◌,
}
use orchd.Table.{lookup, insert, lookup-insert, lookup-insert_self}
use orchd.Backup.Names.{dot, file_name}
use orchd.Backup.Local.{
  file, RootNode, stray, dir, Disk, Copy, whole, broken, partial, Result, files_of, is_folder,
  is_stray, make_dir, make_dir_at, node_at, set_file, rename, write_partial, put_in, put,
}

-- Whether a call returns a backup.
abbrev pub is_done : Result → Bool
is_done (inl e, d) = false
is_done (inr b, d) = true

abbrev is_whole : Copy → Bool
is_whole (whole s) = true
is_whole (broken s) = false

module _ (format : ℕ → Text) (parse : Text → Option ℕ) (wid : Text) (kind : Text) (now : ℕ) where
  -- The copy succeeds, the workload's name is not a file's, and the two names are free for files.
  abbrev pub can_put : Copy → Disk → Bool
  can_put copy disk =
      let name = file_name format parse now kind in
      not (is_stray (lookup wid disk))
      && not (is_folder (node_at wid (partial name) disk))
      && is_whole copy
      && not (is_folder (node_at wid name disk))

  node_at-set_partial :
      (name s : Text) (d : Disk)
      → node_at wid name (set_file wid (partial name) s d) ≡ node_at wid name d
  unfolding node_at set_file files_of
  node_at-set_partial name s d =
      rw
        (
          lookup-insert_self wid (dir (insert (partial name) (file s) (files_of (lookup wid d)))) d,
          lookup-insert (partial name) name (file s) (files_of (lookup wid d)),
          other name,
        )
        refl
    where
      other : (n : Text) → text_eq (partial n) n ≡ false
      other n = ground (
        arith,
        text_eq_iff (partial n) n,
        text_eq_iff n (partial n),
        text_eq-append n dot (codes "partial"),
      )

  is_done-rename :
      (s : Text) (d : Disk)
      → is_done (rename format parse wid now kind s d)
        ≡ not (is_folder (node_at wid (file_name format parse now kind) d))
  unfolding rename
  is_done-rename s d =
      elim (Bool-cases (is_folder (node_at wid (file_name format parse now kind) d))) [
        | inl e ↦ rw (rename, e) refl
        | inr e ↦ rw (rename, e) refl
      ]

  is_done-write_partial :
      (copy : Copy) (d : Disk)
      → is_done (write_partial format parse wid now kind copy d)
        ≡ (is_whole copy && not (is_folder (node_at wid (file_name format parse now kind) d)))
  unfolding write_partial
  is_done-write_partial (whole s) d =
      let name = file_name format parse now kind in
      is_done-rename s (set_file wid (partial name) s d)
      ∙ ap (λ o. not (is_folder o)) (node_at-set_partial name s d)
  is_done-write_partial (broken s) d = refl

  is_done-put_in :
      (copy : Copy) (d : Disk)
      → is_done (put_in format parse wid now kind copy d) ≡ (
          not (is_folder (node_at wid (partial (file_name format parse now kind)) d))
          && is_whole copy
          && not (is_folder (node_at wid (file_name format parse now kind) d)))
  unfolding put_in
  is_done-put_in copy d =
      elim (Bool-cases (is_folder (node_at wid (partial (file_name format parse now kind)) d))) [
        | inl e ↦ rw (put_in, e) refl
        | inr e ↦ rw (put_in, e) (is_done-write_partial copy d)
      ]

  -- A directory that was just made is empty.
  node_at-new : (name : Text) (disk : Disk) → node_at wid name (insert wid (dir []) disk) ≡ none
  unfolding node_at files_of lookup
  node_at-new name disk = rw (node_at, lookup-insert_self wid (dir []) disk) refl

  is_done-put_at :
      (copy : Copy) (disk : Disk) (o : Option RootNode)
      → lookup wid disk ≡ o
      → is_done (put format parse wid copy kind now disk) ≡ can_put copy disk
  unfolding put make_dir make_dir_at is_stray node_at is_folder files_of lookup
  is_done-put_at copy disk none e =
      let name = file_name format parse now kind in
      let there = insert wid (dir []) disk in
      let free : not (is_folder (node_at wid (partial name) there))
            && is_whole copy
            && not (is_folder (node_at wid name there))
          ≡ is_whole copy && true =
        rw (node_at-new name disk, node_at-new (partial name) disk) refl in
      rw (put, make_dir, e) (is_done-put_in copy there ∙ free)
  is_done-put_at copy disk (some stray) e = rw (put, make_dir, e) refl
  is_done-put_at copy disk (some (dir files)) e =
      let h = is_done-put_in copy disk in rw (put, make_dir, e) (h ∙ rw (node_at, e) refl)

  pub is_done-put :
      (copy : Copy) (disk : Disk)
      → is_done (put format parse wid copy kind now disk) ≡ can_put copy disk
  is_done-put copy disk = is_done-put_at copy disk (lookup wid disk) refl
