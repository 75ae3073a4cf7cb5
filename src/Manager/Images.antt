-- ===== src/Manager/Images.antt =====
-- The versions of frozen template images (orchestrator/internal/manager/image.go). `atoi` stands
-- for strconv.Atoi, and `in_use` for whether "docker ps" lists a container of a tag or fails.
-- sort.Slice is taken to keep the order of equal numbers. The tags and files of a version that is
-- removed are left out.
use orchd.Prelude.{
  ℕ, ◌+◌, Text, codes, text_eq, trim_prefix, Bool, true, false, ◌&&◌, ◌||◌, Option, none, some,
  List, [], ◌∷◌, ◌++◌, ltb, if◌then◌else◌, any, drop, is_some,
}
use orchd.Prelude.Int.{ℤ, pos, negsuc, pos_part}
use orchd.Prelude.Sorting.{sort_by}
use orchd.Table.{Table, values}
use orchd.Store.Records.{Snapshot, Image, Workload}
use orchd.Store.Mem
use orchd.Store.Mem.{MemStore}
use orchd.Store.Query.{get_image, list_images, list_workloads}

abbrev pub is_less : ℤ → ℤ → Bool
is_less (pos a) (pos b) = ltb a b
is_less (pos a) (negsuc b) = false
is_less (negsuc a) (pos b) = true
is_less (negsuc a) (negsuc b) = ltb b a

-- A version with its number.
pub record Numbered : Type 0 where
  pub n : ℤ
  pub image : Image

unfoldable pub newer : Numbered → Numbered → Bool
newer a b = is_less b.n a.n

module _ (atoi : Text → Option ℤ) where
  -- The number of a version; `none` is an error.
  unfoldable pub version_number : Text → Option ℤ
  version_number v = atoi (trim_prefix v (codes "v"))

  abbrev cons_numbered : Option ℤ → Image → List Numbered → List Numbered
  cons_numbered none im vers = vers
  cons_numbered (some n) im vers = record { n = n; image = im } ∷ vers

  -- The versions of a template that have a number.
  unfoldable pub versions_of : Text → List Image → List Numbered
  versions_of tmpl [] = []
  versions_of tmpl (im ∷ ims) =
      let vers = versions_of tmpl ims in
      if text_eq im.template tmpl then cons_numbered (version_number im.version) im vers else vers

  -- atoiVer: 0 for what is no number
  unfoldable pub atoi_ver : Text → ℤ
  atoi_ver v = elim (version_number v) [ none ↦ pos 0 | some n ↦ n ]

  unfoldable pub greatest : Text → ℤ → List Image → ℤ
  greatest tmpl m [] = m
  greatest tmpl m (im ∷ ims) =
      elim (if text_eq im.template tmpl then version_number im.version else none) [
        | none ↦ greatest tmpl m ims
        | some n ↦ greatest tmpl (if is_less m n then n else m) ims
      ]

  -- nextImageVersion, with strconv.Itoa as `itoa`
  unfoldable pub next_image_version : {D : Type 0} → (ℕ → Text) → Text → MemStore D → Text
  unfolding greatest
  next_image_version itoa tmpl s =
      codes "v" ++ itoa (pos_part (greatest tmpl (pos 0) (list_images s)) + 1)

  -- The versions of a template, as latestImageVersion collects them.
  unfoldable pub names_of : Text → List Image → List Text
  names_of tmpl [] = []
  names_of tmpl (im ∷ ims) =
      let names = names_of tmpl ims in
      if text_eq im.template tmpl then im.version ∷ names else names

  unfoldable pub latest_image_version : {D : Type 0} → Text → MemStore D → Option Text
  unfolding atoi_ver names_of
  latest_image_version tmpl s =
      elim (sort_by (λ a b. is_less (atoi_ver b) (atoi_ver a)) (names_of tmpl (list_images s))) [
        | [] ↦ none
        | v ∷ vs ↦ some v
      ]

-- Whether a workload boots from a version of a template.
unfoldable pub is_pinned : Text → Text → List Workload → Bool
is_pinned tmpl version ws = any (λ w. text_eq w.template tmpl && text_eq w.image_ver version) ws

unfoldable pub is_tag_used : (Text → Bool) → Table Text → Bool
is_tag_used in_use dockers = any in_use (values dockers)

module _ {D : Type 0} (save : D → Snapshot → Option D) (atoi : Text → Option ℤ)
    (in_use : Text → Bool) where
  -- One round of gcImageVersions' loop; the error of the deletion is logged.
  unfoldable pub gc_one : Text → Image → MemStore D → MemStore D
  gc_one tmpl im s =
      if is_pinned tmpl im.version (list_workloads [] s) || is_tag_used in_use im.dockers
      then s
      else (Mem.delete_image save tmpl im.version s).0

  unfoldable pub gc_all : Text → List Numbered → MemStore D → MemStore D
  gc_all tmpl [] s = s
  gc_all tmpl (v ∷ vers) s = gc_all tmpl vers (gc_one tmpl v.image s)

  unfoldable pub gc_image_versions : Text → ℕ → MemStore D → MemStore D
  gc_image_versions tmpl keep s =
      gc_all tmpl (drop keep (sort_by newer (versions_of atoi tmpl (list_images s)))) s

  -- DeleteImage; whether there was an error
  unfoldable pub delete_image : Text → Text → MemStore D → MemStore D × Option Mem.Error
  delete_image tmpl version s =
      if is_some (get_image tmpl version s)
      then Mem.delete_image save tmpl version s
      else (s, some Mem.not_found)
