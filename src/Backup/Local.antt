-- ===== src/Backup/Local.antt =====
-- LocalStore of orchestrator/internal/backup/store.go: archives as files in one directory for each
-- workload. The disk below `root` is a table of tables; `format` and `parse` are those of
-- Backup/Names. A workload's id is taken as one name below the root. What is left out: errors of
-- the disk other than a name of the wrong kind, and the archive of a data directory (tar.go), whose
-- bytes are given to Create.
use orchd.Prelude.{
  ℕ, Text, codes, text_eq, Bool, true, false, Option, none, some, List, [], ◌∷◌, ◌++◌,
  if◌then◌else◌, length, drop, inl, inr, ◌⊎◌, ltb,
}
use orchd.Prelude.Sorting.{sort_by}
use orchd.Table.{Table, lookup, insert, remove, keys}
use orchd.Backup.Names.{backup_id, parse_id, file_name, parse_file_name}

-- What stands in a workload's directory: a file with its bytes, or a directory, empty or not.
pub data Node : Type 0 where
  file : (bytes : Text) → Node
  folder : (is_empty : Bool) → Node

-- What stands in the root.
pub data RootNode : Type 0 where
  stray : RootNode
  dir : (files : Table Node) → RootNode

abbrev pub Disk : Type 0
Disk = Table RootNode

pub record Backup : Type 0 where
  pub id : Text
  pub workload_id : Text
  pub created_at : ℕ
  pub size_bytes : ℕ
  pub kind : Text

pub data BackupError : Type 0 where
  bad_id not_found not_a_file not_a_directory copy_failed not_extractable : BackupError

-- What a copy or an archiver did: all of the bytes, or a part of them and then an error.
pub data Copy : Type 0 where
  whole : (bytes : Text) → Copy
  broken : (bytes : Text) → Copy

abbrev pub written : Copy → Text
written (whole s) = s
written (broken s) = s

-- os.ReadDir of a workload's directory; an error has no entries
unfoldable pub files_of : Option RootNode → Table Node
files_of none = []
files_of (some stray) = []
files_of (some (dir files)) = files

-- list[i].CreatedAt.After(list[j].CreatedAt)
unfoldable pub newer : Backup → Backup → Bool
newer a b = ltb b.created_at a.created_at

-- os.MkdirAll of a workload's directory
unfoldable pub make_dir_at : Option RootNode → Text → Disk → Option Disk
make_dir_at none wid disk = some (insert wid (dir []) disk)
make_dir_at (some stray) wid disk = none
make_dir_at (some (dir files)) wid disk = some disk

unfoldable pub make_dir : Text → Disk → Option Disk
unfolding make_dir_at
make_dir wid disk = make_dir_at (lookup wid disk) wid disk

-- What a name of a workload's directory stands for.
unfoldable pub node_at : Text → Text → Disk → Option Node
unfolding files_of
node_at wid name disk = lookup name (files_of (lookup wid disk))

-- A file of a workload's directory is written, and taken away.
unfoldable pub set_file : Text → Text → Text → Disk → Disk
unfolding files_of
set_file wid name bytes disk =
    insert wid (dir (insert name (file bytes) (files_of (lookup wid disk)))) disk

unfoldable pub unset : Text → Text → Disk → Disk
unfolding files_of
unset wid name disk = insert wid (dir (remove name (files_of (lookup wid disk)))) disk

-- os.Remove of a file or an empty directory; what is not there is no error.
unfoldable pub remove_node : Option Node → Text → Text → Disk → Bool × Disk
remove_node none wid name disk = (true, disk)
remove_node (some (file s)) wid name disk = (true, unset wid name disk)
remove_node (some (folder true)) wid name disk = (true, unset wid name disk)
remove_node (some (folder false)) wid name disk = (false, disk)

unfoldable pub is_stray : Option RootNode → Bool
is_stray none = false
is_stray (some stray) = true
is_stray (some (dir files)) = false

-- A name below what is not a directory is an error.
unfoldable pub remove_file : Text → Text → Disk → Bool × Disk
unfolding remove_node is_stray node_at
remove_file wid name disk =
    if is_stray (lookup wid disk)
    then (false, disk)
    else remove_node (node_at wid name disk) wid name disk

-- os.Rename of a file onto a name: it takes the place of a file, not of a directory.
unfoldable pub is_folder : Option Node → Bool
is_folder none = false
is_folder (some (file s)) = false
is_folder (some (folder e)) = true

-- The archive is written beside its place, under a name that no listing takes.
abbrev pub partial : Text → Text
partial name = name ++ codes ".partial"

abbrev pub Result : Type 0
Result = (BackupError ⊎ Backup) × Disk

module _ (format : ℕ → Text) (parse : Text → Option ℕ) where
  -- (s *LocalStore) path
  unfoldable pub path : Text → Option (Text × Text)
  path id = elim (parse_id format parse id) [
    | none ↦ none
    | some (wid, ts, kind) ↦ some (wid, file_name format parse ts kind)
  ]

  -- One entry of walkDir
  unfoldable pub listed : Text → Text → Node → List Backup
  listed wid name (folder e) = []
  listed wid name (file bytes) = elim (parse_file_name format parse name) [
    | none ↦ []
    | some (ts, kind) ↦
        record {
          id = backup_id format parse wid ts kind;
          workload_id = wid;
          created_at = ts;
          size_bytes = length bytes;
          kind = kind;
        }
        ∷ []
  ]

  unfoldable pub walk_entries : Text → Table Node → List Backup
  unfolding listed
  walk_entries wid [] = []
  walk_entries wid ((name, node) ∷ files) = listed wid name node ++ walk_entries wid files

  -- walkDir
  unfoldable pub walk_dir : Text → Disk → List Backup
  unfolding walk_entries files_of
  walk_dir wid disk = walk_entries wid (files_of (lookup wid disk))

  -- The directories of the root, each walked
  unfoldable pub walk_root : Disk → List Text → List Backup
  unfolding walk_dir
  walk_root disk [] = []
  walk_root disk (wid ∷ wids) = walk_dir wid disk ++ walk_root disk wids

  -- List; "" is every workload
  unfoldable pub list : Text → Disk → List Backup
  unfolding walk_root walk_dir newer
  list workload_id disk =
      sort_by newer
        (if text_eq workload_id [] then walk_root disk (keys disk) else walk_dir workload_id disk)

  unfoldable pub stored : Text → ℕ → Text → Text → Backup
  stored workload_id now kind bytes = record {
    id = backup_id format parse workload_id now kind;
    workload_id = workload_id;
    created_at = now;
    size_bytes = length bytes;
    kind = kind;
  }

  -- os.Rename of what was written to its place
  unfoldable pub rename : Text → ℕ → Text → Text → Disk → Result
  unfolding is_folder node_at
  rename wid now kind bytes disk =
      let name = file_name format parse now kind in
      if is_folder (node_at wid name disk) then (inl not_a_file, disk) else (
        inr (stored wid now kind bytes),
        set_file wid name bytes (unset wid (partial name) disk),
      )

  -- The partial file is written, then renamed, or removed after an error.
  unfoldable pub write_partial : Text → ℕ → Text → Copy → Disk → Result
  write_partial wid now kind (whole s) disk =
      rename wid now kind s (set_file wid (partial (file_name format parse now kind)) s disk)
  write_partial wid now kind (broken s) disk =
      let name = partial (file_name format parse now kind) in
      (inl copy_failed, unset wid name (set_file wid name s disk))

  unfoldable pub put_in : Text → ℕ → Text → Copy → Disk → Result
  unfolding is_folder node_at write_partial remove_file
  put_in wid now kind copy disk =
      let name = partial (file_name format parse now kind) in
      if is_folder (node_at wid name disk)
      then (inl copy_failed, (remove_file wid name disk).1)
      else write_partial wid now kind copy disk

  unfoldable pub create_in : Text → ℕ → Copy → Disk → Result
  unfolding is_folder node_at write_partial
  create_in wid now copy disk =
      if is_folder (node_at wid (partial (file_name format parse now [])) disk)
      then (inl not_a_file, disk)
      else write_partial wid now [] copy disk

  -- Put, of a file that copies as it says
  unfoldable pub put : Text → Copy → Text → ℕ → Disk → Result
  unfolding make_dir put_in
  put workload_id copy kind now disk = elim (make_dir workload_id disk) [
    | none ↦ (inl not_a_directory, disk)
    | some d ↦ put_in workload_id now kind copy d
  ]

  -- Create, of a data directory that archives as it says
  unfoldable pub create : Text → Copy → ℕ → Disk → Result
  unfolding make_dir create_in
  create workload_id copy now disk = elim (make_dir workload_id disk) [
    | none ↦ (inl not_a_directory, disk)
    | some d ↦ create_in workload_id now copy d
  ]

  -- os.Open and the bytes behind it
  unfoldable pub read : Option Node → BackupError ⊎ Text
  read none = inl not_found
  read (some (folder e)) = inl not_a_file
  read (some (file s)) = inr s

  -- Fetch: the bytes that are written to the destination
  unfoldable pub fetch : Text → Disk → BackupError ⊎ Text
  unfolding path read node_at
  fetch id disk = elim (path id) [
    | none ↦ inl bad_id
    | some (wid, name) ↦ read (node_at wid name disk)
  ]

  unfoldable pub is_extractable : Option (Text × ℕ × Text) → Bool
  is_extractable none = true
  is_extractable (some (wid, ts, kind)) = text_eq kind []

  -- Restore: the archive that is extracted into the destination
  unfoldable pub restore : Text → Disk → BackupError ⊎ Text
  unfolding is_extractable fetch
  restore id disk =
      if is_extractable (parse_id format parse id) then fetch id disk else inl not_extractable

  -- Delete
  unfoldable pub delete : Text → Disk → Option BackupError × Disk
  unfolding path remove_file
  delete id disk = elim (path id) [
    | none ↦ (some bad_id, disk)
    | some (wid, name) ↦
        let (done, d) = remove_file wid name disk in (if done then none else some not_a_file, d)
  ]

  unfoldable pub delete_all : List Backup → Disk → Disk
  unfolding delete
  delete_all [] disk = disk
  delete_all (b ∷ bs) disk = delete_all bs (delete b.id disk).1

  -- Retain
  unfoldable pub retain : Text → ℕ → Disk → Disk
  unfolding list delete_all
  retain workload_id keep disk = delete_all (drop keep (list workload_id disk)) disk
