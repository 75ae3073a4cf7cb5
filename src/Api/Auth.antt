-- ===== src/Api/Auth.antt =====
-- Who may call the control API (auth, presentedKey, resolveKey, isReadMethod and tlsAllow of
-- orchestrator/internal/api/api.go). A request is its method, its path and the headers that carry
-- a key; headers of CORS are left out.
use orchd.Prelude.{
  ℕ, Text, codes, text_eq, has_prefix, trim_prefix, to_lower, Bool, true, not, ◌&&◌, ◌||◌, Option,
  none, some, List, ◌∷◌, ◌++◌, any, if◌then◌else◌, is_some,
}
use orchd.Store.Mem.{MemStore}
use orchd.Manager.Keys.{admin, readonly, validate_stored_key}
use orchd.Manager.Routes.{resolve_host}
use orchd.Api.RateLimit.{RateLimiter, allow}

pub record Request : Type 0 where
  pub method : Text
  pub path : Text
  pub authorization : Text
  pub x_api_key : Text

-- What auth does with a request: the handler serves it, or an answer is given at once.
pub data Gate : Type 0 where
  preflight served unauthorized limited forbidden : Gate

unfoldable pub presented_key : Request → Text
presented_key r =
    if has_prefix r.authorization (codes "Bearer ")
    then trim_prefix r.authorization (codes "Bearer ")
    else r.x_api_key

unfoldable pub is_read_method : Text → Bool
is_read_method m =
    text_eq m (codes "GET") || text_eq m (codes "HEAD") || text_eq m (codes "OPTIONS")

-- The paths that need no key.
unfoldable pub is_open_path : Text → Bool
is_open_path path = text_eq path (codes "/healthz") || has_prefix path (codes "/internal/")

abbrev pub is_preflight : Request → Bool
is_preflight r = text_eq r.method (codes "OPTIONS")

-- A limiter that is off allows everything.
unfoldable pub allow_if : Text → ℕ → Option RateLimiter → Bool × Option RateLimiter
allow_if key now none = (true, none)
allow_if key now (some l) = let (ok, l') = allow key now l in (ok, some l')

unfoldable pub needs_key : Text → Request → Bool
unfolding is_open_path
needs_key api_key r = not (is_open_path r.path || text_eq api_key (codes ""))

-- A request with a key of a role.
unfoldable pub with_role : Text → Request → ℕ → Option RateLimiter → Gate × Option RateLimiter
with_role role r now limiter =
    let (ok, limiter') = allow_if (presented_key r) now limiter in
    if not ok
    then (limited, limiter')
    else if text_eq role readonly && not (is_read_method r.method)
    then (forbidden, limiter')
    else (served, limiter')

module _ {D : Type 0} (hash_key : Text → Text) (api_key : Text) where
  unfoldable pub resolve_key : Text → MemStore D → Option Text
  resolve_key presented s =
      if text_eq presented (codes "")
      then none
      else if text_eq presented api_key
      then some admin
      else validate_stored_key hash_key presented s

  unfoldable pub auth : Request → ℕ → Option RateLimiter → MemStore D → Gate × Option RateLimiter
  unfolding with_role
  auth r now limiter s =
      if is_preflight r
      then (preflight, limiter)
      else if not (needs_key api_key r)
      then (served, limiter)
      else elim (resolve_key (presented_key r) s) [
        | none ↦ (unauthorized, limiter)
        | some role ↦ with_role role r now limiter
      ]

-- The hosts of the operator under one base domain.
abbrev pub is_operator_host : Text → Text → Bool
is_operator_host domain base =
    text_eq domain (codes "admin." ++ to_lower base)
    || text_eq domain (codes "api." ++ to_lower base)

-- Whether a certificate may be issued for a host.
unfoldable pub tls_allow : {D : Type 0} → Text → List Text → Text → MemStore D → Bool
tls_allow base_domain alt_domains given s =
    let domain = to_lower given in
    any (is_operator_host domain) (base_domain ∷ alt_domains) || is_some (resolve_host domain s)
