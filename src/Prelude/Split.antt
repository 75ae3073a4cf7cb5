-- ===== src/Prelude/Split.antt =====
-- strings.Split by one byte and strings.Cut.
use Prim.Native.Nat.{ℕ, suc}
use mathlib.Core.Path.{◌≡◌, refl, ap}
use mathlib.Core.Option.{Option, none, some}
use mathlib.Core.List.{List, [], ◌∷◌, ◌++◌}
use native.Mathlib.Omega.{arith}
use orchd.Prelude.Tests.{◌==◌, if◌then◌else◌}
use orchd.Prelude.Lists.{length, take, drop, All}
use orchd.Prelude.Texts.{Text, index_of, index_of-append, take-length_append}

-- A byte before the first piece.
abbrev cons_first : ℕ → List Text → List Text
cons_first a [] = (a ∷ []) ∷ []
cons_first a (p ∷ ps) = (a ∷ p) ∷ ps

unfoldable pub split : ℕ → Text → List Text
split c [] = [] ∷ []
split c (a ∷ s) = let rest = split c s in if a == c then [] ∷ rest else cons_first a rest

-- The parts before and after the first occurrence.
unfoldable pub cut : ℕ → Text → Option (Text × Text)
cut c s = elim (index_of c s) [ none ↦ none | some i ↦ some (take i s, drop (suc i) s) ]

abbrev pub join : ℕ → List Text → Text
join c [] = []
join c (p ∷ []) = p
join c (p ∷ q ∷ ps) = p ++ (c ∷ join c (q ∷ ps))

split-piece : (c : ℕ) (p : Text) → index_of c p ≡ none → split c p ≡ p ∷ []
unfolding split index_of
split-piece c [] h = refl
split-piece c (a ∷ p) h = ground (arith, h, split-piece c p)

split-append : (c : ℕ) (p t : Text) → index_of c p ≡ none → split c (p ++ (c ∷ t)) ≡ p ∷ split c t
unfolding split index_of
split-append c [] t h = ground arith
split-append c (a ∷ p) t h = ground (arith, h, split-append c p t)

-- What was joined is split again, where no piece has the byte.
pub split-join :
    (c : ℕ) (p : Text) (ps : List Text)
    → All (λ q. index_of c q ≡ none) (p ∷ ps)
    → split c (join c (p ∷ ps)) ≡ p ∷ ps
split-join c p [] h = split-piece c p h.0
split-join c p (q ∷ ps) h =
    rw (split-append c p (join c (q ∷ ps)) h.0) (ap (λ r. p ∷ r) (split-join c q ps h.1))

drop-suc_append : (s : Text) (c : ℕ) (t : Text) → drop (suc (length s)) (s ++ (c ∷ t)) ≡ t
drop-suc_append [] c t = refl
drop-suc_append (a ∷ s) c t = drop-suc_append s c t

pub cut-append : (c : ℕ) (s t : Text) → index_of c s ≡ none → cut c (s ++ (c ∷ t)) ≡ some (s, t)
unfolding cut
cut-append c s t h =
    rw (index_of-append c s t h, cut, take-length_append s (c ∷ t), drop-suc_append s c t) refl
