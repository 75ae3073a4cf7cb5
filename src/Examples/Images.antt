-- ===== src/Examples/Images.antt =====
-- The collection of the old images of a template.
use orchd.Prelude.{
  ℕ, ◌≡◌, refl, Text, codes, text_eq, trim_prefix, has_prefix, to_lower, lower, text_ltb, false,
  Option, none, some, List, [], ◌∷◌, if◌then◌else◌,
}
use mathlib.Core.List.{Memᴰ}
use orchd.Prelude.Int.{ℤ, pos}
use orchd.Prelude.Sorting.{sort_by, insert_by}
use orchd.Table.{values, lookup, insert, remove, remove_if}
use orchd.Store.Records.{Image, Workload, image_id}
use orchd.Store.Ops.{Op, image, workload, run, call}
use orchd.Store.Mem.{
  MemStore, restore, put_image, put_workload, flush, delete_image, workload_before,
}
use orchd.Store.Query.{get_image, list_images, list_workloads}
use orchd.Manager.Images.{
  newer, version_number, versions_of, is_pinned, is_tag_used, gc_one, gc_all, gc_image_versions,
}
use orchd.Manager.Collected.{gc_image_versions-get_image}
use orchd.Examples.Store.{Disk, keep_last, no_settings, workload_of}

abbrev image_of : Text → ℕ → Image
image_of version t = record {
  template = codes "shop";
  version = version;
  tarball = [];
  dockers = [];
  registry = [];
  workloads = [];
  imported = false;
  created_at = t;
}

-- The numbers 1, 2 and 3.
abbrev atoi : Text → Option ℤ
atoi s =
    if text_eq s (codes "1")
    then some (pos 1)
    else if text_eq s (codes "2")
    then some (pos 2)
    else if text_eq s (codes "3")
    then some (pos 3)
    else none

abbrev pinned : Workload
pinned = record (workload_of (codes "w1") (codes "p1")) {
  template = codes "shop";
  image_ver = codes "v1";
}

abbrev image_calls : List Op
image_calls =
    image (image_of (codes "v1") 1)
    ∷ image (image_of (codes "v2") 2)
    ∷ image (image_of (codes "v3") 3)
    ∷ workload pinned
    ∷ []

abbrev image_store : MemStore Disk
image_store = run keep_last image_calls (restore no_settings none none)

listed : list_workloads [] image_store ≡ pinned ∷ []
unfolding list_workloads sort_by values run call put_workload flush insert put_image restore text_eq
listed = refl

second_collected :
    get_image
      (codes "shop")
      (codes "v2")
      (gc_image_versions keep_last atoi (λ tag. false) (codes "shop") 1 image_store)
    ≡ none
unfolding gc_image_versions get_image lookup gc_all sort_by versions_of list_images values run call
    put_workload flush put_image insert restore text_eq image_id version_number gc_one is_pinned
    is_tag_used newer insert_by has_prefix text_ltb to_lower lower trim_prefix delete_image remove
    remove_if list_workloads workload_before
second_collected = refl

gc_image_versions-get_image_example :
    get_image
      (codes "shop")
      (codes "v1")
      (gc_image_versions keep_last atoi (λ tag. false) (codes "shop") 1 image_store)
    ≡ get_image (codes "shop") (codes "v1") image_store
unfolding list_workloads sort_by values run call put_workload flush insert put_image restore text_eq
gc_image_versions-get_image_example =
    gc_image_versions-get_image keep_last atoi (λ tag. false) (codes "shop") pinned 1 image_store
      (Memᴰ.head refl) refl
