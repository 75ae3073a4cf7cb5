-- ===== src/Gateway/Routing.antt =====
-- From the Host header and the path of a request to a workload
-- (orchestrator/internal/gateway/gateway.go).
use orchd.Prelude.{
  ℕ, ◌-◌, Text, codes, text_eq, to_lower, trim_suffix, has_prefix, has_suffix, index_of, ◌||◌, not,
  Option, none, some, List, [], ◌∷◌, ◌++◌, if◌then◌else◌, length, take, drop, any, or_else,
}
use orchd.Store.Records.{Workload}
use orchd.Store.Mem.{MemStore}
use orchd.Manager.Routes.{resolve_host, resolve_key}

abbrev pub slash : ℕ
slash = 47

abbrev pub colon : ℕ
colon = 58

-- hostOnly
unfoldable pub before_byte : ℕ → Text → Text
before_byte c s = elim (index_of c s) [ none ↦ s | some i ↦ take i s ]

unfoldable pub host_only : Text → Text
unfolding before_byte
host_only host = to_lower (trim_suffix (before_byte colon host) (codes "."))

-- New: the base domain and the alternatives in lower case, each once and none empty.
unfoldable pub domains_of : List Text → List Text → List Text
domains_of seen [] = seen
domains_of seen (d ∷ ds) =
    let low = to_lower d in
    domains_of
      (if text_eq low (codes "") || any (text_eq low) seen then seen else seen ++ (low ∷ [])) ds

-- parseSubroute: the key and the rest of "/w/<key>/rest"
unfoldable pub split_tail : Text → Text × Text
split_tail tail = elim (index_of slash tail) [
  | none ↦ (tail, codes "/")
  | some i ↦ (take i tail, drop i tail)
]

unfoldable pub parse_subroute : Text → Option (Text × Text)
unfolding split_tail
parse_subroute path =
    if not (has_prefix path (codes "/w/")) || text_eq (drop 3 path) (codes "")
    then none
    else (let (key, rest) = split_tail (drop 3 path) in
        if text_eq key (codes "") then none else some (key, rest))

module _ {D : Type 0} where
  -- resolveAlias: the inner loop, for a host that is `prefix` and then `d`.
  unfoldable pub try_others : Text → Text → List Text → MemStore D → Option Workload
  try_others prefix d [] s = none
  try_others prefix d (alt ∷ alts) s =
      let rest = try_others prefix d alts s in
      if text_eq alt d then rest else or_else (resolve_host (prefix ++ alt) s) rest

  -- The outer loop, over the domains that are left; `all` are all of them.
  unfoldable pub try_domains : List Text → Text → List Text → MemStore D → Option Workload
  unfolding try_others
  try_domains all host [] s = none
  try_domains all host (d ∷ ds) s =
      let rest = try_domains all host ds s in
      if not (has_suffix host (codes "." ++ d))
      then rest
      else or_else (try_others (take (length host - length d) host) d all s) rest

  unfoldable pub resolve_alias : List Text → Text → MemStore D → Option Workload
  unfolding try_domains
  resolve_alias domains host s = try_domains domains host domains s

  -- lookupHost
  unfoldable pub lookup_host : List Text → Text → MemStore D → Option Workload
  unfolding resolve_alias
  lookup_host domains host s = or_else (resolve_host host s) (resolve_alias domains host s)

  -- resolve: the workload, and the path that the upstream sees
  unfoldable pub resolve : List Text → Text → Text → MemStore D → Option (Workload × Text)
  unfolding parse_subroute host_only resolve_alias
  resolve domains header path s = elim (resolve_host (host_only header) s) [
    | some w ↦ some (w, path)
    | none ↦ elim (resolve_alias domains (host_only header) s) [
      | some w ↦ some (w, path)
      | none ↦ elim (parse_subroute path) [
        | none ↦ none
        | some sub ↦ elim (resolve_key sub.0 s) [ none ↦ none | some w ↦ some (w, sub.1) ]
      ]
    ]
  ]
