-- ===== src/Api/Authorized.antt =====
-- What a request that is served has shown (orchestrator/internal/api/api.go).
use mathlib.Core.List.{Memᴰ}
use orchd.Prelude.{
  ℕ, ◌≡◌, refl, ◌⊎◌, inl, inr, Text, codes, text_eq, text_eq_iff, text_eq_refl, true, Option, none,
  some, List, [], ◌∷◌, arith, Bool-cases, Option-cases,
}
use orchd.Store.Records.{ApiKey}
use orchd.Store.Mem.{MemStore}
use orchd.Store.Query.{list_apikeys}
use orchd.Manager.Keys.{readonly, find_role, validate_stored_key}
use orchd.Api.RateLimit.{RateLimiter}
use orchd.Api.Auth.{
  Request, preflight, served, limited, forbidden, unauthorized, presented_key, is_read_method,
  is_preflight, allow_if, needs_key, with_role, resolve_key, auth,
}

-- A key of the list, with its hash and its role.
abbrev IsFound : Text → Text → List ApiKey → Type 0
IsFound hash role ks = (k : ApiKey) × (Memᴰ k ks × ((k.hash ≡ hash) × (k.role ≡ role)))

find_role-IsFound :
    (hash role : Text) (ks : List ApiKey) → find_role hash ks ≡ some role → IsFound hash role ks
unfolding find_role
find_role-IsFound hash role [] e = cc
find_role-IsFound hash role (k ∷ ks) e = elim (Bool-cases (text_eq k.hash hash)) [
  | inl t ↦
      let q : some k.role ≡ some role = rw (t, find_role) at e in
      (k, (Memᴰ.head refl, ((text_eq_iff k.hash hash).0 t, ground (arith, q))))
  | inr t ↦
      let q : find_role hash ks ≡ some role = rw (t, find_role) at e in
      let (key, (m, p)) = find_role-IsFound hash role ks q in (key, (Memᴰ.tail m, p))
]

with_role-served :
    (role : Text) (r : Request) (now : ℕ) (limiter : Option RateLimiter)
    → (with_role role r now limiter).0 ≡ served
    → role ≡ readonly
    → is_read_method r.method ≡ true
unfolding with_role
with_role-served role r now limiter e ro =
    elim (Bool-cases (allow_if (presented_key r) now limiter).0) [
      | inr f ↦ let q : limited ≡ served = rw (f, with_role) at e in cc
      | inl f ↦ elim (Bool-cases (is_read_method r.method)) [
        | inl g ↦ g
        | inr g ↦
            let only : text_eq role readonly ≡ true = rw ro (text_eq_refl readonly) in
            let q : forbidden ≡ served = rw (f, with_role, only, g) at e in cc
      ]
    ]

module _ {D : Type 0} (hash_key : Text → Text) (api_key : Text) where
  -- The key of the operator, or a stored key that may be used for the request's method.
  abbrev pub IsAuthorized : Request → MemStore D → Type 0
  IsAuthorized r s =
      (presented_key r ≡ api_key)
      ⊎ ((role : Text) × (IsFound (hash_key (presented_key r)) role (list_apikeys s)
            × (role ≡ readonly → is_read_method r.method ≡ true)))

  resolve_key-IsAuthorized :
      (role : Text) (r : Request) (s : MemStore D)
      → resolve_key hash_key api_key (presented_key r) s ≡ some role
      → (role ≡ readonly → is_read_method r.method ≡ true)
      → IsAuthorized r s
  unfolding resolve_key validate_stored_key
  resolve_key-IsAuthorized role r s e may =
      elim (Bool-cases (text_eq (presented_key r) (codes ""))) [
        | inl n ↦ let q : none ≡ some role = rw (n, resolve_key) at e in cc
        | inr n ↦ elim (Bool-cases (text_eq (presented_key r) api_key)) [
          | inl own ↦ inl ((text_eq_iff (presented_key r) api_key).0 own)
          | inr other ↦
              let q : find_role (hash_key (presented_key r)) (list_apikeys s) ≡ some role =
                rw (n, resolve_key, other) at e in
              inr (
                role,
                (find_role-IsFound (hash_key (presented_key r)) role (list_apikeys s) q, may),
              )
        ]
      ]

  -- A request that is served, is no preflight and needs a key shows the operator's key, or the key
  -- of a stored record; a stored key that is readonly serves only methods that read.
  pub auth-IsAuthorized :
      (r : Request) (now : ℕ) (limiter : Option RateLimiter) (s : MemStore D)
      → needs_key api_key r ≡ true
      → (auth hash_key api_key r now limiter s).0 ≡ served
      → IsAuthorized r s
  unfolding auth
  auth-IsAuthorized r now limiter s needs e = elim (Bool-cases (is_preflight r)) [
    | inl p ↦ let q : preflight ≡ served = rw (p, auth) at e in cc
    | inr p ↦ elim (Option-cases (resolve_key hash_key api_key (presented_key r) s)) [
      | inl f ↦ let q : unauthorized ≡ served = rw (p, auth, needs, f) at e in cc
      | inr (role, f) ↦
          let q : (with_role role r now limiter).0 ≡ served = rw (p, auth, needs, f) at e in
          resolve_key-IsAuthorized role r s f (with_role-served role r now limiter q)
    ]
  ]
