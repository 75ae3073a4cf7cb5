-- ===== src/Manager/Regions.antt =====
-- The regions that a project can be placed in (orchestrator/internal/manager/manager.go).
use orchd.Prelude.{
  ℕ, Text, codes, text_eq, to_lower, trim_space, Bool, true, false, not, ◌&&◌, ◌||◌, Option, none,
  some, List, [], ◌∷◌, ltb, leb, ◌==◌, if◌then◌else◌, length, is_some,
}
use orchd.Store.Records.{Snapshot, Region}
use orchd.Store.Mem
use orchd.Store.Mem.{MemStore, put_region}
use orchd.Store.Query.{get_region, list_regions}

abbrev dash : ℕ
dash = 45

unfoldable pub is_slug_char : ℕ → Bool
is_slug_char c = (leb b'a' c && leb c b'z') || (leb b'0' c && leb c b'9')

-- The loop of slug: `prev_dash`, and whether something was written yet. A rune of several bytes
-- is a run of bytes that are no slug characters, and gives one dash as the rune does.
unfoldable pub slug_loop : Bool → Bool → Text → Text
unfolding is_slug_char
slug_loop prev_dash begun [] = []
slug_loop prev_dash begun (c ∷ s) = elim (is_slug_char c) [
  | true ↦ c ∷ slug_loop false true s
  | false ↦ elim (begun && not prev_dash) [
    | true ↦ dash ∷ slug_loop true true s
    | false ↦ slug_loop prev_dash begun s
  ]
]

-- strings.TrimRight(s, "-")
unfoldable pub trim_dashes : Text → Text
trim_dashes [] = []
trim_dashes (c ∷ s) =
    let rest = trim_dashes s in if text_eq rest [] && c == dash then [] else c ∷ rest

unfoldable pub slug : Text → Text
unfolding slug_loop trim_dashes
slug s = trim_dashes (slug_loop false false (to_lower (trim_space s)))

pub data RegionError : Type 0 where
  name_required exists not_found is_default_region save_failed : RegionError

-- The default of a list of regions: the first that is marked.
unfoldable pub marked_region : List Region → Option Region
marked_region [] = none
marked_region (rg ∷ rgs) = if rg.is_default then some rg else marked_region rgs

unfoldable pub first_id : Text → List Region → Text
first_id otherwise [] = otherwise
first_id otherwise (rg ∷ rgs) = rg.id

module _ {D : Type 0} where
  -- defaultRegionID; `region` is the configured one
  unfoldable pub default_region_id : Text → MemStore D → Text
  default_region_id region s = elim (marked_region (list_regions s)) [
    | some rg ↦ rg.id
    | none ↦ first_id (slug region) (list_regions s)
  ]

abbrev or_local : Text → Text
or_local id = if text_eq id (codes "") then codes "local" else id

module _ {D : Type 0} (save : D → Snapshot → Option D) where
  abbrev region_error : Option Mem.Error → Option RegionError
  region_error none = none
  region_error (some Mem.not_found) = some not_found
  region_error (some Mem.save_failed) = some save_failed

  -- seedRegions; the error of the write is dropped.
  unfoldable pub seed_regions : Text → ℕ → MemStore D → MemStore D
  seed_regions region now s =
      if ltb 0 (length (list_regions s))
      then s
      else (put_region save
          (record {
            id = or_local (slug region);
            name = region;
            docker_host = [];
            is_default = true;
            created_at = now;
          })
          s).0

  -- CreateRegion
  unfoldable pub create_region : Text → Text → ℕ → MemStore D → MemStore D × Option RegionError
  create_region given docker_host now s =
      let name = trim_space given in
      let id = slug name in
      if text_eq id (codes "")
      then (s, some name_required)
      else if is_some (get_region id s)
      then (s, some exists)
      else (let (s', failure) =
            put_region save
              (record {
                id = id;
                name = name;
                docker_host = docker_host;
                is_default = length (list_regions s) == 0;
                created_at = now;
              })
              s in
          (s', region_error failure))

  -- DeleteRegion
  unfoldable pub delete_region : Text → MemStore D → MemStore D × Option RegionError
  delete_region id s = elim (get_region id s) [
    | none ↦ (s, some not_found)
    | some rg ↦
        if rg.is_default
        then (s, some is_default_region)
        else (let (s', failure) = Mem.delete_region save id s in (s', region_error failure))
  ]

  -- The body of SetDefaultRegion's loop; the error of the write is dropped.
  unfoldable pub mark_if : Text → Region → MemStore D → MemStore D
  mark_if id rg s =
      let want = text_eq rg.id id in
      if (rg.is_default && not want) || (not rg.is_default && want)
      then (put_region save (record rg { is_default = want }) s).0
      else s

  unfoldable pub mark_all : Text → List Region → MemStore D → MemStore D
  mark_all id [] s = s
  mark_all id (rg ∷ rgs) s = mark_all id rgs (mark_if id rg s)

  -- SetDefaultRegion
  unfoldable pub set_default_region : Text → MemStore D → MemStore D × Option RegionError
  unfolding mark_all
  set_default_region id s =
      if is_some (get_region id s)
      then (mark_all id (list_regions s) s, none)
      else (s, some not_found)
