-- ===== src/Examples/Interpolate.antt =====
-- Environments with references.
use orchd.Prelude.{
  ℕ, ◌≡◌, refl, arith, Text, codes, text_eq, has_prefix, some, List, [], ◌∷◌, trim_prefix,
}
use orchd.Table.{Table, lookup}
use orchd.Store.Records.{Workload}
use orchd.Store.Query.{list_workloads}
use orchd.Manager.Interpolate.{
  Addressing, is_token_start, is_token_char, token_value, interpolate_env, gateway_suffix,
  last_index, sibling, resolve_token, secret_token, secret_of,
}
use orchd.Manager.References.{Piece, text, reference, render, substituted, interpolate_env-render}
use orchd.Examples.Store.{workload_of}
use orchd.Examples.Manager.{fleet_store}

abbrev addressing : Addressing
addressing = record {
  base_domain = codes "apps.dev";
  public_scheme = codes "http";
  gateway_addr = codes ":8443";
}

-- What "%d" writes, for the one port of these tests.
abbrev show : ℕ → Text
show n = codes "3000"

port_of_gateway : gateway_suffix addressing.gateway_addr ≡ codes ":8443"
unfolding gateway_suffix last_index
port_of_gateway = refl

abbrev db : Workload
db = record (workload_of (codes "w1") (codes "p1")) {
  workspace = codes "db";
  anon_key = codes "k${x}";
}

anon_key :
    resolve_token show addressing (codes "p1") (db ∷ []) (codes "workload.db.anon_key")
    ≡ some (codes "k${x}")
unfolding resolve_token secret_token secret_of sibling last_index has_prefix trim_prefix text_eq
anon_key = refl

abbrev pieces : List Piece
pieces =
    text (codes "at ")
    ∷ reference (codes "project.ref")
    ∷ text (codes "/")
    ∷ reference (codes "base_domain")
    ∷ []

abbrev variables : Table Text
variables = (codes "PLAIN", codes "a$b") ∷ (codes "URL", render pieces) ∷ []

interpolate_env-render_example :
    lookup (codes "URL") (
      interpolate_env show addressing (workload_of (codes "w1") (codes "p1")) variables fleet_store)
    ≡ some (
        substituted
          (token_value show addressing (codes "p1") (list_workloads (codes "p1") fleet_store))
          pieces)
unfolding lookup text_eq is_token_start is_token_char
interpolate_env-render_example =
    interpolate_env-render show addressing (workload_of (codes "w1") (codes "p1")) fleet_store
      (codes "URL") pieces variables (ground arith) refl
