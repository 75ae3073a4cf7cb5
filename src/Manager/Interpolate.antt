-- ===== src/Manager/Interpolate.antt =====
-- References between the workloads of a project in the values of their environments
-- (orchestrator/internal/manager/interpolate.go). `show` stands for "%d" of fmt.Sprintf.
use orchd.Prelude.{
  ℕ, suc, zero, ◌+◌, Text, codes, text_eq, has_prefix, trim_prefix, Bool, false, not, ◌&&◌, ◌||◌,
  Option, none, some, List, [], ◌∷◌, ◌++◌, ltb, leb, ◌==◌, if◌then◌else◌, take, drop, length,
}
use orchd.Table.{Table}
use orchd.Store.Records.{Workload}
use orchd.Store.Mem.{MemStore}
use orchd.Store.Query.{list_workloads}

-- What the configuration says of addresses
pub record Addressing : Type 0 where
  pub base_domain : Text
  pub public_scheme : Text
  pub gateway_addr : Text

unfoldable pub last_index : ℕ → Text → Option ℕ
last_index b [] = none
last_index b (c ∷ s) =
    let later = last_index b s in
    elim later [ some i ↦ some (suc i) | none ↦ if c == b then some 0 else none ]

unfoldable pub gateway_suffix : Text → Text
unfolding last_index
gateway_suffix addr = elim (last_index 58 addr) [ none ↦ [] | some i ↦ drop i addr ]

unfoldable pub key_for : Text → Text → Text
key_for ref name = if text_eq name (codes "") then ref else ref ++ codes "-" ++ name

unfoldable pub endpoint_for_host : Addressing → Text → Text
unfolding gateway_suffix
endpoint_for_host a host =
    if text_eq a.public_scheme (codes "https")
    then codes "https://" ++ host
    else codes "http://" ++ host ++ gateway_suffix a.gateway_addr

unfoldable pub default_host : Addressing → Workload → Text
unfolding key_for
default_host a w = key_for w.project_id w.name ++ codes "." ++ a.base_domain

-- The characters of a reference's name, of which the first is no "." or "-".
unfoldable pub is_token_start : ℕ → Bool
is_token_start c =
    ((leb 65 c && leb c 90) || (leb 97 c && leb c 122)) || ((leb 48 c && leb c 57) || c == 95)

unfoldable pub is_token_char : ℕ → Bool
unfolding is_token_start
is_token_char c = is_token_start c || (c == 46 || c == 45)

abbrev pub cons_some : ℕ → Option Text → Option Text
cons_some c none = none
cons_some c (some s) = some (c ∷ s)

-- The rest of a name up to its "}".
unfoldable pub token_tail : Text → Option Text
token_tail [] = none
token_tail (c ∷ s) =
    let rest = token_tail s in
    if c == 125 then some [] else if is_token_char c then cons_some c rest else none

-- envTokenRe at the head of a text: the name in "${name}".
unfoldable pub match_token : Text → Option Text
match_token (d ∷ b ∷ c ∷ s) =
    if (d == 36 && b == 123) && is_token_start c then cons_some c (token_tail s) else none
match_token _ = none

-- strings.Contains(v, "${")
unfoldable pub has_reference : Text → Bool
has_reference [] = false
has_reference (c ∷ s) = has_prefix (c ∷ s) (codes "${") || has_reference s

module _ (value : Text → Text) where
  -- ReplaceAllStringFunc, with the number of bytes of a match that are still to be passed over.
  unfoldable pub replace : ℕ → Text → Text
  replace skip [] = []
  replace zero (c ∷ s) =
      let kept = replace zero s in
      elim (match_token (c ∷ s)) [
        | none ↦ c ∷ kept
        | some token ↦ value token ++ replace (length token + 2) s
      ]
  replace (suc skip) (c ∷ s) = replace skip s

-- The first sibling that a name names.
unfoldable pub sibling : Text → List Workload → Option Workload
sibling name [] = none
sibling name (s ∷ ss) =
    if text_eq s.workspace name || (not (text_eq s.name (codes "")) && text_eq s.name name)
    then some s
    else sibling name ss

-- ${workload.<name>.<key>}, of a sibling that there is or is not
unfoldable pub secret_of : Text → Option Workload → Option Text
secret_of key none = some []
secret_of key (some s) =
    if text_eq key (codes "anon_key")
    then some s.anon_key
    else if text_eq key (codes "service_key")
    then some s.svc_key
    else if text_eq key (codes "jwt_secret")
    then some s.jwt_secret
    else none

unfoldable pub secret_token : List Workload → Text → Option Text
unfolding last_index sibling secret_of
secret_token siblings rest = elim (last_index 46 rest) [
  | none ↦ none
  | some i ↦ if i == 0 then none else secret_of (drop (i + 1) rest) (sibling (take i rest) siblings)
]

unfoldable pub needs : Table Text → Bool
needs [] = false
needs ((k, v) ∷ env) = has_reference v || needs env

unfoldable pub replace_all : (Text → Text) → Table Text → Table Text
replace_all value [] = []
replace_all value ((k, v) ∷ env) = (k, replace value 0 v) ∷ replace_all value env

module _ (show : ℕ → Text) (a : Addressing) where
  unfoldable pub public_endpoint : Workload → Text
  unfolding endpoint_for_host default_host
  public_endpoint w =
      if ltb 0 w.host_port
      then codes "http://localhost:" ++ show w.host_port
      else endpoint_for_host a (default_host a w)

  abbrev endpoint_or_empty : Option Workload → Text
  endpoint_or_empty none = []
  endpoint_or_empty (some s) = public_endpoint s

  abbrev host_or_empty : Option Workload → Text
  host_or_empty none = []
  host_or_empty (some s) = default_host a s

  -- resolve; `none` leaves the reference as it is.
  unfoldable pub resolve_token : Text → List Workload → Text → Option Text
  unfolding sibling secret_token
  resolve_token project_id siblings token =
      if text_eq token (codes "project.ref")
      then some project_id
      else if text_eq token (codes "base_domain")
      then some a.base_domain
      else if has_prefix token (codes "route.")
      then some (endpoint_or_empty (sibling (trim_prefix token (codes "route.")) siblings))
      else if has_prefix token (codes "host.")
      then some (host_or_empty (sibling (trim_prefix token (codes "host.")) siblings))
      else if has_prefix token (codes "workload.")
      then secret_token siblings (trim_prefix token (codes "workload."))
      else none

  -- What stands for "${token}": its value, or itself.
  unfoldable pub token_value : Text → List Workload → Text → Text
  unfolding resolve_token
  token_value project_id siblings token = elim (resolve_token project_id siblings token) [
    | none ↦ codes "${" ++ token ++ codes "}"
    | some v ↦ v
  ]

  -- interpolateEnv
  unfoldable pub interpolate_env : {D : Type 0} → Workload → Table Text → MemStore D → Table Text
  interpolate_env w env s =
      if needs env
      then replace_all (token_value w.project_id (list_workloads w.project_id s)) env
      else env
