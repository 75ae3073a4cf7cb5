-- ===== src/Backup/Put.antt =====
-- What Put and Fetch do together in the local store.
use mathlib.Core.List.{Memᴰ}
use orchd.Prelude.{
  ℕ, Text, text_eq, ◌≡◌, ◌≢◌, refl, Option, none, some, [], Bool-cases, inl, inr, false, index_of,
}
use orchd.Prelude.Sorting.{sort_by, Memᴰ-sort_by, sort_by-Memᴰ}
use orchd.Table.{lookup, insert, lookup-insert_self}
use orchd.Backup.Names.{dot, underscore, backup_id, file_name, IsKind, parse_id-backup_id}
use orchd.Backup.Local.{
  file, dir, Disk, Backup, Copy, whole, broken, written, partial, Result, files_of, is_folder,
  newer, make_dir, node_at, set_file, unset, walk_entries, walk_dir, list, stored, rename,
  write_partial, put_in, put, path, read, fetch,
}
use orchd.Backup.Alike.{
  AreListedAlike, AllAlike, parse_file_name-partial, set_file-AreListedAlike, unset-AreListedAlike,
  remove_file-AreListedAlike, make_dir_at-AllAlike,
}
use orchd.Backup.Answer.{is_done, can_put, is_done-put}
use orchd.Backup.Stored.{Memᴰ-written, Memᴰ-kept}

module _ (format : ℕ → Text) (parse : Text → Option ℕ) (reads : (t : ℕ) → parse (format t) ≡ some t)
    (dotless : (t : ℕ) → index_of dot (format t) ≡ none)
    (unmarked : (t : ℕ) → index_of underscore (format t) ≡ none) (wid : Text)
    (named : text_eq wid [] ≡ false) (now : ℕ) (kind : Text)
    (is_kind : IsKind format parse kind) where
  -- What a call leaves: after an error the same listings, and otherwise the new archive among the
  -- old ones, with its bytes behind its id.
  abbrev pub IsCommitted : Text → Disk → Result → Type 0
  IsCommitted s disk (inl e, d) = AreListedAlike format parse d disk
  IsCommitted s disk (inr b, d) =
      (b.id ≡ backup_id format parse wid now kind)
      × Memᴰ b (list format parse wid d)
      × (fetch format parse b.id d ≡ inr s)
      × ((old : Backup)
          → Memᴰ old (list format parse wid disk)
          → old.id ≢ b.id
          → Memᴰ old (list format parse wid d))

  list-named : (d : Disk) → list format parse wid d ≡ sort_by newer (walk_dir format parse wid d)
  unfolding list
  list-named d = rw named refl

  node_at-set_file :
      (s name : Text) (d : Disk) → node_at wid name (set_file wid name s d) ≡ some (file s)
  unfolding node_at set_file files_of
  node_at-set_file s name d =
      rw
        (
          lookup-insert_self wid (dir (insert name (file s) (files_of (lookup wid d)))) d,
          lookup-insert_self name (file s) (files_of (lookup wid d)),
        )
        refl

  path-backup_id :
      path format parse (backup_id format parse wid now kind)
      ≡ some (wid, file_name format parse now kind)
  unfolding path
  path-backup_id =
      rw (path, (parse_id-backup_id format parse reads dotless unmarked wid now kind is_kind).0)
        refl

  fetch-set_file :
      (s : Text) (d : Disk)
      → fetch format parse
          (backup_id format parse wid now kind)
          (set_file wid (file_name format parse now kind) s d)
        ≡ inr s
  unfolding fetch read
  fetch-set_file s d =
      rw (fetch, path-backup_id, node_at-set_file s (file_name format parse now kind) d) refl

  walk_dir-set_file :
      (s : Text) (d : Disk)
      → walk_dir format parse wid (set_file wid (file_name format parse now kind) s d)
        ≡ walk_entries format parse wid
            (insert (file_name format parse now kind) (file s) (files_of (lookup wid d)))
  unfolding set_file walk_dir files_of
  walk_dir-set_file s d =
      rw
        (lookup-insert_self wid
          (dir (insert (file_name format parse now kind) (file s) (files_of (lookup wid d)))) d)
        refl

  list-set_file_new :
      (s : Text) (d : Disk)
      → Memᴰ
          (stored format parse wid now kind s)
          (list format parse wid (set_file wid (file_name format parse now kind) s d))
  list-set_file_new s d =
      rw (list-named (set_file wid (file_name format parse now kind) s d), walk_dir-set_file s d)
        (Memᴰ-sort_by newer _ _
          (Memᴰ-written format parse reads dotless unmarked wid named now kind is_kind s _))

  list-set_file_old :
      (s : Text) (d : Disk) (old : Backup)
      → old.id ≢ backup_id format parse wid now kind
      → Memᴰ old (list format parse wid d)
      → Memᴰ old (list format parse wid (set_file wid (file_name format parse now kind) s d))
  unfolding walk_dir
  list-set_file_old s d old h m =
      rw (list-named (set_file wid (file_name format parse now kind) s d), walk_dir-set_file s d)
        (Memᴰ-sort_by newer _ _ (
          Memᴰ-kept format parse reads dotless unmarked wid named now kind is_kind old s
            (files_of (lookup wid d)) h
            (sort_by-Memᴰ newer old (walk_dir format parse wid d) (rw (list-named d) at m))))

  rename-IsCommitted :
      (s : Text) (d disk : Disk)
      → AreListedAlike format parse d disk
      → IsCommitted s disk (rename format parse wid now kind s d)
  unfolding rename stored
  rename-IsCommitted s d disk h =
      let name = file_name format parse now kind in
      let clean = unset wid (partial name) d in
      let same =
        unset-AreListedAlike format parse wid (partial name) d disk
          (parse_file_name-partial format parse name) h in
      elim (Bool-cases (is_folder (node_at wid name d))) [
        | inl e ↦ rw (rename, e) h
        | inr e ↦
            rw (rename, e)
              (
                refl,
                list-set_file_new s clean,
                fetch-set_file s clean,
                λ old m n. list-set_file_old s clean old n (rw (same wid) m),
              )
      ]

  write_partial-IsCommitted :
      (copy : Copy) (d disk : Disk)
      → AreListedAlike format parse d disk
      → IsCommitted (written copy) disk (write_partial format parse wid now kind copy d)
  unfolding write_partial
  write_partial-IsCommitted (whole s) d disk h =
      let name = partial (file_name format parse now kind) in
      rename-IsCommitted s (set_file wid name s d) disk (
        set_file-AreListedAlike format parse wid name s d disk
          (parse_file_name-partial format parse (file_name format parse now kind)) h)
  write_partial-IsCommitted (broken s) d disk h =
      let name = partial (file_name format parse now kind) in
      let quiet = parse_file_name-partial format parse (file_name format parse now kind) in
      unset-AreListedAlike format parse wid name (set_file wid name s d) disk quiet
        (set_file-AreListedAlike format parse wid name s d disk quiet h)

  put_in-IsCommitted :
      (copy : Copy) (d disk : Disk)
      → AreListedAlike format parse d disk
      → IsCommitted (written copy) disk (put_in format parse wid now kind copy d)
  unfolding put_in
  put_in-IsCommitted copy d disk h =
      let name = partial (file_name format parse now kind) in
      elim (Bool-cases (is_folder (node_at wid name d))) [
        | inl e ↦
            rw (put_in, e)
              (remove_file-AreListedAlike format parse wid name d disk
                (parse_file_name-partial format parse (file_name format parse now kind)) h)
        | inr e ↦ rw (put_in, e) (write_partial-IsCommitted copy d disk h)
      ]

  put_made :
      (copy : Copy) (disk : Disk) (o : Option Disk)
      → make_dir wid disk ≡ o
      → AllAlike format parse o disk
      → IsCommitted (written copy) disk (put format parse wid copy kind now disk)
  unfolding put
  put_made copy disk none e h = rw (put, e) (λ v. refl)
  put_made copy disk (some d) e h = rw (put, e) (put_in-IsCommitted copy d disk h)

  -- With a layout of times that reads back what it wrote and has no dot and no underscore, for a
  -- workload with a name and a kind of the program: whatever part of the archive was written so
  -- far, every listing is the one before; the call succeeds exactly when the copy succeeds, the
  -- workload's name is not a file's and its two file names are not directories; after an error
  -- every listing is the one before; and after a success the listing has the backup, the bytes are
  -- fetched by its id, and what was listed under another id still is.
  pub put-IsCommitted :
      (copy : Copy) (disk : Disk)
      → ((torn : Text)
          → AreListedAlike format parse
              (set_file wid (partial (file_name format parse now kind)) torn disk)
              disk)
        × (is_done (put format parse wid copy kind now disk)
            ≡ can_put format parse wid kind now copy disk)
        × IsCommitted (written copy) disk (put format parse wid copy kind now disk)
  unfolding make_dir
  put-IsCommitted copy disk = (
    λ torn.
        set_file-AreListedAlike format parse wid _ torn disk disk
          (parse_file_name-partial format parse (file_name format parse now kind)) (λ v. refl),
    is_done-put format parse wid kind now copy disk,
    put_made copy disk (make_dir wid disk) refl
        (make_dir_at-AllAlike format parse wid disk (lookup wid disk) refl),
  )
