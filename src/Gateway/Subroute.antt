-- ===== src/Gateway/Subroute.antt =====
-- The paths that parseSubroute takes (orchestrator/internal/gateway/gateway.go).
use orchd.Prelude.{
  ℕ, suc, ◌≡◌, ◌⊎◌, refl, arith, sym, Text, codes, text_eq, has_prefix, index_of, true, false, none,
  some, [], ◌∷◌, ◌++◌, length, take, drop, take-append-drop, Bool-cases, Option-cases, inl, inr,
  false≢true, ◌==◌,
}
use orchd.Prelude.{index_of-append, take-length_append, drop-length_append}
use orchd.Gateway.Routing.{slash, split_tail, parse_subroute}

-- A key of a subroute: it has at least one byte, and no slash.
abbrev pub IsKey : Text → Type 0
IsKey key = (text_eq key (codes "") ≡ false) × (index_of slash key ≡ none)

index_of-take : (c : ℕ) (s : Text) {i : ℕ} → index_of c s ≡ some i → index_of c (take i s) ≡ none
unfolding index_of
index_of-take c [] {i} h = cc
index_of-take c (a ∷ s) {i} h = elim (Bool-cases (a == c)) [
  | inl e ↦ ground (arith, e, h)
  | inr e ↦ elim (Option-cases (index_of c s)) [
    | inl o ↦ absurd (ground (arith, e, o, h))
    | inr (j, o) ↦
        let ij : i ≡ suc j = ground (arith, e, o, h) in
        rw ij (ground (arith, e, index_of-take c s {i = j} o))
  ]
]

split_tail-slash :
    (key t : Text) → index_of slash key ≡ none → split_tail (key ++ (slash ∷ t)) ≡ (key, slash ∷ t)
unfolding split_tail
split_tail-slash key t h =
    rw
      (
        split_tail,
        index_of-append slash key t h,
        take-length_append key (slash ∷ t),
        drop-length_append key (slash ∷ t),
      )
      refl

split_tail-whole : (key : Text) → index_of slash key ≡ none → split_tail key ≡ (key, codes "/")
unfolding split_tail
split_tail-whole key h = rw (split_tail, h) refl

-- A path "/w/<key>/rest", and a path "/w/<key>", with a key that is not empty and has no slash, is
-- taken apart into the key and "/rest", or "/".
pub parse_subroute-append :
    (key t : Text)
    → IsKey key
    → (parse_subroute (codes "/w/" ++ key ++ (slash ∷ t)) ≡ some (key, slash ∷ t))
      × (parse_subroute (codes "/w/" ++ key) ≡ some (key, codes "/"))
unfolding parse_subroute has_prefix text_eq
parse_subroute-append [] t h = absurd (false≢true (sym h.0))
parse_subroute-append (a ∷ key) t h =
    (rw (split_tail-slash (a ∷ key) t h.1) refl, rw (split_tail-whole (a ∷ key) h.1) refl)

split_tail-IsKey :
    (s : Text)
    → (index_of slash (split_tail s).0 ≡ none)
      × (((split_tail s).0 ++ (split_tail s).1 ≡ s)
          ⊎ (((split_tail s).0 ≡ s) × ((split_tail s).1 ≡ codes "/")))
unfolding split_tail
split_tail-IsKey s = elim (Option-cases (index_of slash s)) [
  | inl e ↦ rw (split_tail, e) (e, inr (refl, refl))
  | inr (i, e) ↦ rw (split_tail, e) (index_of-take slash s e, inl (take-append-drop i s))
]

has_prefix-drop : (s p : Text) → has_prefix s p ≡ true → s ≡ p ++ drop (length p) s
unfolding has_prefix
has_prefix-drop s [] h = refl
has_prefix-drop [] (b ∷ p) h = absurd (false≢true h)
has_prefix-drop (a ∷ s) (b ∷ p) h =
    let ab : a ≡ b = ground (arith, h) in
    let hs : has_prefix s p ≡ true = ground (arith, h) in rw (ab, ← (has_prefix-drop s p hs)) refl

-- The parts of a tail that was split.
rejoin :
    (s path : Text)
    → path ≡ codes "/w/" ++ s
    → text_eq (split_tail s).0 (codes "") ≡ false
    → IsKey (split_tail s).0
      × ((path ≡ codes "/w/" ++ (split_tail s).0 ++ (split_tail s).1)
          ⊎ ((path ≡ codes "/w/" ++ (split_tail s).0) × ((split_tail s).1 ≡ codes "/")))
rejoin s path p n = (
  (n, (split_tail-IsKey s).0),
  elim (split_tail-IsKey s).1 [ inl e ↦ inl (rw e p) | inr (e, f) ↦ inr (rw e p, f) ],
)

-- Whatever parseSubroute gives, its key is not empty and has no slash, and the path was "/w/", the
-- key and the rest, or was "/w/" and the key, where the rest is "/".
pub parse_subroute-IsKey :
    (path key rest : Text)
    → parse_subroute path ≡ some (key, rest)
    → IsKey key
      × ((path ≡ codes "/w/" ++ key ++ rest) ⊎ ((path ≡ codes "/w/" ++ key) × (rest ≡ codes "/")))
unfolding parse_subroute
parse_subroute-IsKey path key rest h = elim (Bool-cases (has_prefix path (codes "/w/"))) [
  | inr e ↦
      absurd (let q : none ≡ some (key, rest) = rw (parse_subroute, e) at h in ground (arith, q))
  | inl e ↦ elim (Bool-cases (text_eq (drop 3 path) (codes ""))) [
    | inl f ↦
        absurd
          (let q : none ≡ some (key, rest) = rw (parse_subroute, e, f) at h in ground (arith, q))
    | inr f ↦ elim (Bool-cases (text_eq (split_tail (drop 3 path)).0 (codes ""))) [
      | inl g ↦
          absurd (
            let q : none ≡ some (key, rest) = rw (parse_subroute, e, f, g) at h in
            ground (arith, q))
      | inr g ↦
          let q : some ((split_tail (drop 3 path)).0, (split_tail (drop 3 path)).1)
              ≡ some (key, rest) =
            rw (parse_subroute, e, f, g) at h in
          let k : (split_tail (drop 3 path)).0 ≡ key = ground (arith, q) in
          let r : (split_tail (drop 3 path)).1 ≡ rest = ground (arith, q) in
          rw (← k, ← r) (rejoin (drop 3 path) path (has_prefix-drop path (codes "/w/") e) g)
    ]
  ]
]
