-- ===== src/Examples/Gateway.antt =====
-- Requests to a small route table.
use orchd.Prelude.{
  codes, text_eq, ◌≡◌, refl, some, none, [], to_lower, trim_space, index_of, has_suffix, true,
}
use orchd.Table.{lookup, insert}
use orchd.Store.Records.{Workload}
use orchd.Store.Mem.{MemStore, restore, put_workload, put_project, put_route, delete_route, flush}
use orchd.Store.Query.{get_workload, get_route_by_host}
use orchd.Store.Ops.{call, run}
use orchd.Manager.Routes.{add_route, remove_route, resolve_host}
use orchd.Gateway.Routing.{resolve}
use orchd.Gateway.Routed.{add_route-resolve, spelled, remove_route-resolve_host}
use orchd.Examples.Store.{Disk, keep_last}
use orchd.Examples.Manager.{fleet_store}

-- The fleet's workload, with a route.
abbrev routed : MemStore Disk
routed = (add_route keep_last 7 (codes " Shop.dev ") (codes "w1") fleet_store).0

add_route-resolve_example :
    (w : Workload) × (get_workload (codes "w1") fleet_store ≡ some w)
    × (resolve [] (spelled true (some (codes "443")) (codes "SHOP.dev")) (codes "/a") routed
        ≡ some (w, codes "/a"))
unfolding add_route get_workload get_route_by_host lookup insert restore call run put_workload flush
    put_project put_route text_eq to_lower trim_space index_of has_suffix
add_route-resolve_example =
    add_route-resolve keep_last 7 (codes " Shop.dev ") (codes "w1") fleet_store []
      (codes "SHOP.dev") (codes "/a") true (some (codes "443")) refl refl refl refl

remove_route-resolve_host_example :
    resolve_host (codes "SHOP.dev") (remove_route keep_last (codes "shop.dev ") routed).0 ≡ none
unfolding add_route get_workload get_route_by_host lookup insert restore call run put_workload flush
    put_project put_route text_eq to_lower trim_space remove_route delete_route
remove_route-resolve_host_example =
    remove_route-resolve_host keep_last (codes "shop.dev ") (codes "SHOP.dev") routed refl
