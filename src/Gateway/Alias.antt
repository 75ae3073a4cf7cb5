-- ===== src/Gateway/Alias.antt =====
-- What the substitution of domain aliases can find (resolveAlias of
-- orchestrator/internal/gateway/gateway.go).
use mathlib.Core.List.{Memᴰ}
use orchd.Prelude.{
  ◌-◌, ◌≡◌, refl, arith, Text, codes, text_eq, has_suffix, true, false, some, List, [], ◌∷◌, ◌++◌,
  length, take, Bool-cases, Option-cases, inl, inr, ◌∙◌,
}
use orchd.Store.Records.{Workload}
use orchd.Store.Mem.{MemStore}
use orchd.Manager.Routes.{resolve_host}
use orchd.Gateway.Routing.{try_others, try_domains, resolve_alias}

module _ {D : Type 0} (s : MemStore D) where
  -- One of the domains, other than `d`, under which the prefix resolves.
  abbrev pub HasOther : Text → Text → List Text → Workload → Type 0
  HasOther prefix d alts w =
      (alt : Text) × Memᴰ alt alts
      × (text_eq alt d ≡ false)
      × (resolve_host (prefix ++ alt) s ≡ some w)

  -- One of the domains ends the host, and the rest of the host resolves under another of them.
  abbrev pub HasAlias : List Text → Text → List Text → Workload → Type 0
  HasAlias all host ds w =
      (d : Text) × Memᴰ d ds
      × (has_suffix host (codes "." ++ d) ≡ true)
      × HasOther (take (length host - length d) host) d all w

  later_other :
      (prefix d a : Text) (alts : List Text) (w : Workload)
      → HasOther prefix d alts w
      → HasOther prefix d (a ∷ alts) w
  later_other prefix d a alts w h = (h.0, Memᴰ.tail h.1, h.2, h.3)

  try_others-HasOther :
      (prefix d : Text) (alts : List Text) (w : Workload)
      → try_others prefix d alts s ≡ some w
      → HasOther prefix d alts w
  unfolding try_others
  try_others-HasOther prefix d [] w h = absurd (ground (arith, h))
  try_others-HasOther prefix d (a ∷ alts) w h = elim (Bool-cases (text_eq a d)) [
    | inl e ↦
        let q : try_others prefix d alts s ≡ some w = rw (try_others, e) at h in
        later_other prefix d a alts w (try_others-HasOther prefix d alts w q)
    | inr e ↦ elim (Option-cases (resolve_host (prefix ++ a) s)) [
      | inl o ↦
          let q : try_others prefix d alts s ≡ some w = rw (try_others, e, o) at h in
          later_other prefix d a alts w (try_others-HasOther prefix d alts w q)
      | inr (v, o) ↦
          let q : some v ≡ some w = rw (try_others, e, o) at h in (a, Memᴰ.head refl, e, o ∙ q)
    ]
  ]

  later_domain :
      (all : List Text) (host d : Text) (ds : List Text) (w : Workload)
      → HasAlias all host ds w
      → HasAlias all host (d ∷ ds) w
  later_domain all host d ds w h = (h.0, Memᴰ.tail h.1, h.2, h.3)

  try_domains-HasAlias :
      (all : List Text) (host : Text) (ds : List Text) (w : Workload)
      → try_domains all host ds s ≡ some w
      → HasAlias all host ds w
  unfolding try_domains
  try_domains-HasAlias all host [] w h = absurd (ground (arith, h))
  try_domains-HasAlias all host (d ∷ ds) w h =
      elim (Bool-cases (has_suffix host (codes "." ++ d))) [
        | inr e ↦
            let q : try_domains all host ds s ≡ some w = rw (try_domains, e) at h in
            later_domain all host d ds w (try_domains-HasAlias all host ds w q)
        | inl e ↦ elim (Option-cases (try_others (take (length host - length d) host) d all s)) [
          | inl o ↦
              let q : try_domains all host ds s ≡ some w = rw (try_domains, e, o) at h in
              later_domain all host d ds w (try_domains-HasAlias all host ds w q)
          | inr (v, o) ↦
              let q : some v ≡ some w = rw (try_domains, e, o) at h in
              (
                d,
                Memᴰ.head refl,
                e,
                try_others-HasOther (take (length host - length d) host) d all w (o ∙ q),
              )
        ]
      ]

  -- A workload that resolveAlias finds is one to which the host leads when its domain, one of the
  -- known ones, is replaced by another known domain; the part before the domain is kept.
  pub resolve_alias-HasAlias :
      (domains : List Text) (host : Text) (w : Workload)
      → resolve_alias domains host s ≡ some w
      → HasAlias domains host domains w
  unfolding resolve_alias
  resolve_alias-HasAlias domains host w h = try_domains-HasAlias domains host domains w h
