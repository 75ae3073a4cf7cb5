-- ===== src/Examples/Regions.antt =====
-- Regions that are created, chosen and deleted.
use orchd.Prelude.{codes, ◌≡◌, refl, none, [], ◌∷◌, List, inl, to_lower, trim_space, text_eq}
use orchd.Prelude.Sorting.{sort_by}
use orchd.Table.{values}
use orchd.Store.Mem.{MemStore, restore}
use orchd.Store.Query.{list_regions}
use orchd.Store.Keyed.{restore-IsWellKeyed}
use orchd.Manager.Regions.{slug, seed_regions, default_region_id}
use orchd.Manager.Placement.{RegionCall, create, drop, choose, region_calls, HasOneDefault}
use orchd.Manager.OneDefault.{region_calls-HasOneDefault}
use orchd.Examples.Store.{Disk, keep_last, no_settings}

slug_spaces : slug (codes " US  East (1)! ") ≡ codes "us-east-1"
unfolding slug to_lower trim_space text_eq
slug_spaces = refl

abbrev new_store : MemStore Disk
new_store = restore no_settings none none

abbrev placement : List RegionCall
placement =
    create (codes "US East") [] 2
    ∷ create (codes "eu") [] 3
    ∷ drop (codes "local")
    ∷ choose (codes "eu")
    ∷ drop (codes "local")
    ∷ []

region_calls-HasOneDefault_example :
    (h : HasOneDefault
      (region_calls keep_last placement (seed_regions keep_last (codes "Local") 1 new_store)))
    × (default_region_id
          (codes "Local")
          (region_calls keep_last placement (seed_regions keep_last (codes "Local") 1 new_store))
        ≡ h.0)
unfolding list_regions restore sort_by values
region_calls-HasOneDefault_example =
    region_calls-HasOneDefault keep_last (codes "Local") 1 placement new_store
      (restore-IsWellKeyed no_settings none none) (inl refl)
