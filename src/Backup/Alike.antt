-- ===== src/Backup/Alike.antt =====
-- Disks of the local store on which every listing is the same.
use orchd.Prelude.{
  ℕ, Text, codes, text_eq, text_eq_refl, ◌≡◌, ◌+◌, ◌-◌, refl, arith, Option, none, some, [],
  Bool-cases, inl, inr, true, false, ◌∙◌, trim_suffix, has_suffix, length, length-append,
}
use orchd.Table.{lookup}
use orchd.Backup.Names.{dot, parse_file_name, drop_past}
use orchd.Backup.Local.{
  Node, file, folder, RootNode, stray, dir, Disk, partial, files_of, is_stray, make_dir_at, node_at,
  set_file, unset, remove_node, remove_file, walk_entries, walk_dir, list,
}
use orchd.Backup.Listed.{list-insert, list-set_file, list-unset}

partial_suffix : (s : Text) → trim_suffix (partial s) (codes ".tar.gz") ≡ partial s
unfolding trim_suffix has_suffix text_eq
partial_suffix s =
    let n : length (partial s) - length (codes ".tar.gz") ≡ length s + 1 =
      omega (arith, length-append s (codes ".partial")) in
    rw (n, drop_past s dot (codes "partial")) (ground arith)

module _ (format : ℕ → Text) (parse : Text → Option ℕ) where
  -- No listing reads the name of a partial file.
  pub parse_file_name-partial : (s : Text) → parse_file_name format parse (partial s) ≡ none
  unfolding parse_file_name
  parse_file_name-partial s = rw (partial_suffix s, text_eq_refl (partial s)) refl

  -- Two disks on which every listing is the same.
  abbrev pub AreListedAlike : Disk → Disk → Type 0
  AreListedAlike d e = (v : Text) → list format parse v d ≡ list format parse v e

  pub set_file-AreListedAlike :
      (wid name bytes : Text) (d disk : Disk)
      → parse_file_name format parse name ≡ none
      → AreListedAlike d disk
      → AreListedAlike (set_file wid name bytes d) disk
  set_file-AreListedAlike wid name bytes d disk q h v =
      list-set_file format parse wid name bytes d q v ∙ h v

  pub unset-AreListedAlike :
      (wid name : Text) (d disk : Disk)
      → parse_file_name format parse name ≡ none
      → AreListedAlike d disk
      → AreListedAlike (unset wid name d) disk
  unset-AreListedAlike wid name d disk q h v = list-unset format parse wid name d q v ∙ h v

  remove_node-AreListedAlike :
      (o : Option Node) (wid name : Text) (d disk : Disk)
      → parse_file_name format parse name ≡ none
      → AreListedAlike d disk
      → AreListedAlike (remove_node o wid name d).1 disk
  unfolding remove_node
  remove_node-AreListedAlike none wid name d disk q h = h
  remove_node-AreListedAlike (some (file s)) wid name d disk q h =
      unset-AreListedAlike wid name d disk q h
  remove_node-AreListedAlike (some (folder true)) wid name d disk q h =
      unset-AreListedAlike wid name d disk q h
  remove_node-AreListedAlike (some (folder false)) wid name d disk q h = h

  pub remove_file-AreListedAlike :
      (wid name : Text) (d disk : Disk)
      → parse_file_name format parse name ≡ none
      → AreListedAlike d disk
      → AreListedAlike (remove_file wid name d).1 disk
  unfolding remove_file
  remove_file-AreListedAlike wid name d disk q h = elim (Bool-cases (is_stray (lookup wid d))) [
    | inl e ↦ rw (remove_file, e) h
    | inr e ↦
        rw (remove_file, e) (remove_node-AreListedAlike (node_at wid name d) wid name d disk q h)
  ]

  -- A new directory of a workload lists nothing.
  abbrev pub AllAlike : Option Disk → Disk → Type 0
  AllAlike none disk = Unit
  AllAlike (some d) disk = AreListedAlike d disk

  pub make_dir_at-AllAlike :
      (wid : Text) (disk : Disk) (o : Option RootNode)
      → lookup wid disk ≡ o
      → AllAlike (make_dir_at o wid disk) disk
  unfolding make_dir_at walk_dir walk_entries files_of
  make_dir_at-AllAlike wid disk none e =
      list-insert format parse wid [] disk (rw (walk_dir, e) refl)
  make_dir_at-AllAlike wid disk (some stray) e = tt
  make_dir_at-AllAlike wid disk (some (dir files)) e = λ v. refl
