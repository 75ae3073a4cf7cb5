-- ===== src/Prelude/Texts.antt =====
-- Texts are lists of bytes, as Go's strings are. The functions of package `strings` that the
-- program uses are written out for bytes; `to_lower` changes the ASCII letters only.
use Prim.Native.Char.{code}
use Prim.Native.String.{String}
use Prim.Native.Nat.{ℕ, suc, ◌+◌, ◌-◌, ◌≤◌}
use mathlib.Core.Path.{◌≡◌, refl, ap, ap₂}
use mathlib.Core.Logic.{◌↔◌, ◌≢◌, inl, inr}
use mathlib.Core.Bool.{Bool, true, false, ◌&&◌, ◌||◌}
use mathlib.Core.Option
use mathlib.Core.Option.{Option, none, some}
use mathlib.Core.List.{List, [], ◌∷◌, ◌++◌, map}
use native.Mathlib.Omega.{arith}
use orchd.Prelude.Tests.{leb, ltb, ◌==◌, if◌then◌else◌, Bool-cases}
use orchd.Prelude.Lists.{length, take, drop, length-append}

abbrev pub Text : Type 0
Text = List ℕ

-- The bytes of an ASCII literal.
abbrev pub codes : String → Text
codes String.[] = []
codes (String.◌∷◌ c s) = code c ∷ codes s

unfoldable pub text_eq : Text → Text → Bool
text_eq [] [] = true
text_eq (a ∷ s) (b ∷ t) = a == b && text_eq s t
text_eq _ _ = false

text_eq→eq : (s t : Text) → text_eq s t ≡ true → s ≡ t
unfolding text_eq
text_eq→eq [] [] h = refl
text_eq→eq [] (b ∷ t) h = cc
text_eq→eq (a ∷ s) [] h = cc
text_eq→eq (a ∷ s) (b ∷ t) h = ground (arith, text_eq→eq s t)

pub text_eq_refl : (s : Text) → text_eq s s ≡ true
unfolding text_eq
text_eq_refl [] = refl
text_eq_refl (a ∷ s) = ground (arith, text_eq_refl s)

pub text_eq_iff : (s t : Text) → (text_eq s t ≡ true) ↔ (s ≡ t)
text_eq_iff s t = (text_eq→eq s t, λ e. rw e (text_eq_refl t))

pub text_eq_ne : (s t : Text) → s ≢ t → text_eq s t ≡ false
text_eq_ne s t h = ground (arith, text_eq_iff s t)

-- `s < t` of Go: byte by byte, the shorter first.
unfoldable pub text_ltb : Text → Text → Bool
text_ltb [] [] = false
text_ltb [] (b ∷ t) = true
text_ltb (a ∷ s) [] = false
text_ltb (a ∷ s) (b ∷ t) = ltb a b || (a == b && text_ltb s t)

unfoldable pub lower : ℕ → ℕ
lower c = if leb b'A' c && leb c b'Z' then c + 32 else c

-- strings.ToLower, on ASCII
unfoldable pub to_lower : Text → Text
unfolding lower
to_lower = map lower

-- strings.HasPrefix
unfoldable pub has_prefix : Text → Text → Bool
has_prefix s [] = true
has_prefix [] (b ∷ p) = false
has_prefix (a ∷ s) (b ∷ p) = a == b && has_prefix s p

-- strings.TrimPrefix
unfoldable pub trim_prefix : Text → Text → Text
unfolding has_prefix
trim_prefix s p = if has_prefix s p then drop (length p) s else s

-- strings.HasSuffix
unfoldable pub has_suffix : Text → Text → Bool
unfolding text_eq
has_suffix s p = leb (length p) (length s) && text_eq (drop (length s - length p) s) p

-- strings.TrimSuffix
unfoldable pub trim_suffix : Text → Text → Text
unfolding has_suffix
trim_suffix s p = if has_suffix s p then take (length s - length p) s else s

-- strings.IndexByte; `none` for -1
unfoldable pub index_of : ℕ → Text → Option ℕ
index_of c [] = none
index_of c (a ∷ s) =
    let rest = index_of c s in if a == c then some 0 else Option.map (λ i. suc i) rest

lower_idem : (c : ℕ) → lower (lower c) ≡ lower c
unfolding lower
lower_idem c = ground arith

pub to_lower_idem : (s : Text) → to_lower (to_lower s) ≡ to_lower s
unfolding to_lower
to_lower_idem [] = refl
to_lower_idem (c ∷ s) = ap₂ (λ a t. a ∷ t) (lower_idem c) (to_lower_idem s)

abbrev is_space : ℕ → Bool
is_space c = c == 32 || (leb 9 c && leb c 13)

abbrev trim_left : Text → Text
trim_left [] = []
trim_left (c ∷ s) = let rest = trim_left s in if is_space c then rest else c ∷ s

abbrev trim_right : Text → Text
trim_right [] = []
trim_right (c ∷ s) =
    let rest = trim_right s in if text_eq rest [] && is_space c then [] else c ∷ rest

-- strings.TrimSpace, of the ASCII spaces
unfoldable pub trim_space : Text → Text
trim_space s = trim_right (trim_left s)

pub index_of-append :
    (c : ℕ) (s t : Text) → index_of c s ≡ none → index_of c (s ++ (c ∷ t)) ≡ some (length s)
unfolding index_of
index_of-append c [] t h = ground arith
index_of-append c (a ∷ s) t h = ground (arith, h, index_of-append c s t)

pub index_of-append_none :
    (c : ℕ) (s t : Text) → index_of c s ≡ none → index_of c t ≡ none → index_of c (s ++ t) ≡ none
unfolding index_of
index_of-append_none c [] t h k = k
index_of-append_none c (a ∷ s) t h k = ground (arith, h, k, index_of-append_none c s t)

pub take-length_append : (s t : Text) → take (length s) (s ++ t) ≡ s
take-length_append [] t = refl
take-length_append (a ∷ s) t = ap (λ r. a ∷ r) (take-length_append s t)

pub drop-length_append : (s t : Text) → drop (length s) (s ++ t) ≡ t
drop-length_append [] t = refl
drop-length_append (a ∷ s) t = drop-length_append s t

pub trim_suffix-append : (s t : Text) → trim_suffix (s ++ t) t ≡ s
unfolding trim_suffix has_suffix
trim_suffix-append s t =
    let n : length (s ++ t) - length t ≡ length s = omega (arith, length-append s t) in
    let b : leb (length t) (length (s ++ t)) ≡ true = ground (arith, length-append s t) in
    rw (n, b, drop-length_append s t, text_eq_refl t, take-length_append s t) refl

pub text_eq-append : (s : Text) (b : ℕ) (t : Text) → text_eq s (s ++ (b ∷ t)) ≡ false
unfolding text_eq
text_eq-append [] b t = refl
text_eq-append (a ∷ s) b t = ground (arith, text_eq-append s b t)

length-trim_left : (s : Text) → length (trim_left s) ≤ length s
length-trim_left [] = omega arith
length-trim_left (c ∷ s) = ground (arith, length-trim_left s)

length-trim_right : (s : Text) → length (trim_right s) ≤ length s
length-trim_right [] = omega arith
length-trim_right (c ∷ s) = ground (arith, length-trim_right s)

trim_right-head : (c : ℕ) (s : Text) → is_space c ≡ false → text_eq (trim_right (c ∷ s)) [] ≡ false
unfolding text_eq
trim_right-head c s e = ground arith

-- A text that begins with a text without outer spaces is not blank.
pub trim_space-append :
    (c : ℕ) (s t : Text) → trim_space (c ∷ s) ≡ c ∷ s → text_eq (trim_space (c ∷ s ++ t)) [] ≡ false
unfolding trim_space text_eq
trim_space-append c s t h = elim (Bool-cases (is_space c)) [
  | inl e ↦
      let q : trim_right (trim_left s) ≡ c ∷ s = rw (e, trim_left) at h in
      let short = length-trim_right (trim_left s) in
      let shorter = length-trim_left s in
      let same : length (trim_right (trim_left s)) ≡ length (c ∷ s) = ap length q in
      absurd (omega arith)
  | inr e ↦ rw (e, trim_left) (trim_right-head c (s ++ t) e)
]
