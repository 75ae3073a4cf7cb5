-- ===== src/Examples/Backup.antt =====
-- Ids of backups, with times written as one byte each.
use mathlib.Core.Option
use orchd.Prelude.{
  ℕ, zero, suc, ◌≡◌, refl, Text, codes, Option, none, some, List, [], ◌∷◌, map, index_of, inr,
  text_eq, false,
}
use orchd.Backup.Names.{dot, underscore, file_name}
use orchd.Backup.Local
use orchd.Backup.Local.{Disk, Result, dir, file, whole, partial, set_file, put}
use orchd.Backup.Alike.{AreListedAlike}
use orchd.Backup.Answer.{is_done, can_put}
use orchd.Backup.Put.{IsCommitted, put-IsCommitted}
use orchd.Backup.Multi
use orchd.Backup.Multi.{Store, MultiStore}
use orchd.Backup.Fanout.{IsMerged, list-IsMerged}

-- A layout of times as digits, one for each unit.
abbrev stamp_of : ℕ → Text
stamp_of zero = []
stamp_of (suc n) = 49 ∷ stamp_of n

abbrev time_of : Text → Option ℕ
time_of [] = some 0
time_of (c ∷ s) = elim (time_of s) [ none ↦ none | some n ↦ some (suc n) ]

time_of-stamp_of : (t : ℕ) → time_of (stamp_of t) ≡ some t
time_of-stamp_of zero = refl
time_of-stamp_of (suc t) = rw (time_of-stamp_of t) refl

stamp_of-dotless : (t : ℕ) → index_of dot (stamp_of t) ≡ none
unfolding index_of
stamp_of-dotless zero = refl
stamp_of-dotless (suc t) = rw (stamp_of-dotless t) refl

stamp_of-unmarked : (t : ℕ) → index_of underscore (stamp_of t) ≡ none
unfolding index_of
stamp_of-unmarked zero = refl
stamp_of-unmarked (suc t) = rw (stamp_of-unmarked t) refl

-- A disk with one archive of the workload w1.
abbrev one_archive : Disk
one_archive = (codes "w1", dir ((codes "1.tar.gz", file (codes "old")) ∷ [])) ∷ []

abbrev second_dump : Result
second_dump = put stamp_of time_of (codes "w1") (whole (codes "new")) (codes "dump") 3 one_archive

-- Both are listed, the newer first.
dump_is_listed :
    map (λ b. b.id) (Local.list stamp_of time_of (codes "w1") second_dump.1)
    ≡ codes "w1__111.dump" ∷ codes "w1__1" ∷ []
unfolding Local.list orchd.Prelude.Sorting.sort_by orchd.Prelude.text_eq orchd.Table.lookup put
    file_name Local.rename set_file orchd.Table.insert Local.unset orchd.Table.remove
    orchd.Backup.Names.parse_file_name orchd.Prelude.trim_suffix index_of
    orchd.Backup.Names.backup_id
dump_is_listed = refl

named_w1 : text_eq (codes "w1") [] ≡ false
unfolding text_eq
named_w1 = refl

put-IsCommitted_example :
    ((torn : Text)
      → AreListedAlike stamp_of time_of
          (set_file
            (codes "w1")
            (partial (file_name stamp_of time_of 3 (codes "dump")))
            torn
            one_archive)
          one_archive)
    × (is_done second_dump
        ≡ can_put stamp_of time_of (codes "w1") (codes "dump") 3 (whole (codes "new")) one_archive)
    × IsCommitted stamp_of time_of time_of-stamp_of stamp_of-dotless stamp_of-unmarked
        (codes "w1")
        named_w1
        3
        (codes "dump")
        (inr refl)
        (codes "new")
        one_archive
        second_dump
put-IsCommitted_example =
    put-IsCommitted stamp_of time_of time_of-stamp_of stamp_of-dotless stamp_of-unmarked
      (codes "w1") named_w1 3 (codes "dump") (inr refl) (whole (codes "new")) one_archive

-- The local store behind the interface, with files and directories that are copied as their names.
abbrev local_store : Store
local_store = record {
  State = Disk;
  create = λ w d disk. Local.create stamp_of time_of w (whole d) 5 disk;
  put = λ w f k disk. put stamp_of time_of w (whole f) k 5 disk;
  list = λ w disk. some (Local.list stamp_of time_of w disk);
  restore = λ id disk. Local.restore stamp_of time_of id disk;
  fetch = λ id disk. Local.fetch stamp_of time_of id disk;
  delete = λ id disk. Local.delete stamp_of time_of id disk;
}

-- The older store has an archive that both have.
abbrev two_disks : MultiStore local_store stamp_of time_of
two_disks = record { primary = one_archive; older = second_dump.1 ∷ [] }

ids_are_merged :
    Option.map (map (λ b. b.id)) (Multi.list local_store stamp_of time_of (codes "w1") two_disks)
    ≡ some (codes "w1__111.dump" ∷ codes "w1__1" ∷ [])
unfolding Multi.list Local.list orchd.Prelude.Sorting.sort_by orchd.Prelude.text_eq
    orchd.Table.lookup put file_name Local.rename set_file orchd.Table.insert Local.unset
    orchd.Table.remove orchd.Backup.Names.parse_file_name orchd.Prelude.trim_suffix index_of
    orchd.Backup.Names.backup_id
ids_are_merged = refl

one_is_retained :
    Option.map (map (λ b. b.id)) (
      Multi.list local_store stamp_of time_of
        (codes "w1")
        (Multi.retain local_store stamp_of time_of (codes "w1") 0 two_disks).1)
    ≡ some (codes "w1__1" ∷ [])
unfolding Multi.list Local.list Multi.retain Multi.delete Local.delete orchd.Backup.Names.last_mark
    orchd.Prelude.has_prefix orchd.Backup.Names.parse_id orchd.Prelude.Sorting.sort_by
    orchd.Prelude.text_eq orchd.Table.lookup put file_name Local.rename set_file orchd.Table.insert
    Local.unset orchd.Table.remove orchd.Backup.Names.parse_file_name orchd.Prelude.trim_suffix
    index_of orchd.Backup.Names.backup_id
one_is_retained = refl

list-IsMerged_example :
    IsMerged local_store stamp_of time_of
      (codes "w1")
      two_disks
      (Multi.list local_store stamp_of time_of (codes "w1") two_disks)
list-IsMerged_example = list-IsMerged local_store stamp_of time_of (codes "w1") two_disks
