-- ===== src/Config/Written.antt =====
-- Variables that hold pairs, as they are written and as they are read
-- (orchestrator/internal/config/config.go).
use orchd.Prelude.{
  ◌≡◌, refl, sym, false≢true, ap, ◌∙◌, Text, codes, text_eq, trim_space, trim_space-append,
  index_of, false, not, none, List, [], ◌∷◌, ◌++◌, keep, map, All,
}
use mathlib.Core.List.{append-nil}
use orchd.Prelude.Split.{join, split-join, cut-append}
use orchd.Table.{Table, insert}
use orchd.Config.Env.{is_blank, split_csv, put_pair, put_pairs, env_map}

abbrev pub piece : Text × Text → Text
piece (k, v) = k ++ (b'=' ∷ v)

-- The value of a variable that holds some pairs.
abbrev pub render : List (Text × Text) → Text
render ps = join b',' (map piece ps)

-- The pairs of a map, of which the last under a key counts.
abbrev pub insert_all : List (Text × Text) → Table Text → Table Text
insert_all [] m = m
insert_all ((k, v) ∷ ps) m = insert_all ps (insert k v m)

-- A pair that can be written: no comma, no '=' in the key, no outer spaces and a key.
pub record IsWritten (p : Text × Text) : Type 0 where
  pub no_comma : index_of b',' (piece p) ≡ none
  pub no_equals : index_of b'=' p.0 ≡ none
  pub bare : trim_space (piece p) ≡ piece p
  pub bare_key : trim_space p.0 ≡ p.0
  pub bare_value : trim_space p.1 ≡ p.1
  pub named : text_eq p.0 (codes "") ≡ false

no_comma-All :
    (ps : List (Text × Text)) → All IsWritten ps → All (λ q. index_of b',' q ≡ none) (map piece ps)
no_comma-All [] h = tt
no_comma-All (p ∷ ps) h = (h.0.no_comma, no_comma-All ps h.1)

text_eq-piece : (p : Text × Text) → text_eq (piece p) [] ≡ false
unfolding text_eq
text_eq-piece ([], v) = refl
text_eq-piece (a ∷ k, v) = refl

-- A text that begins with a written pair is not blank.
piece-append :
    (p : Text × Text) (t : Text) → IsWritten p → text_eq (trim_space (piece p ++ t)) [] ≡ false
unfolding text_eq
piece-append ([], v) t w = absurd (false≢true (sym w.named))
piece-append (a ∷ k, v) t w = trim_space-append a (k ++ (b'=' ∷ v)) t w.bare

render-text_eq :
    (p : Text × Text) (ps : List (Text × Text))
    → IsWritten p
    → text_eq (trim_space (render (p ∷ ps))) [] ≡ false
render-text_eq p [] w = rw (← append-nil (piece p)) (piece-append p [] w)
render-text_eq p (q ∷ ps) w = piece-append p (b',' ∷ render (q ∷ ps)) w

keep-pieces :
    (ps : List (Text × Text))
    → All IsWritten ps
    → keep (λ p. not (is_blank p)) (map trim_space (map piece ps)) ≡ map piece ps
keep-pieces [] h = refl
keep-pieces (p ∷ ps) h = rw (h.0.bare, text_eq-piece p) (ap (λ r. piece p ∷ r) (keep-pieces ps h.1))

split_csv-render :
    (ps : List (Text × Text)) → All IsWritten ps → split_csv (render ps) ≡ map piece ps
unfolding split_csv trim_space text_eq
split_csv-render [] h = refl
split_csv-render (p ∷ ps) h =
    rw (render-text_eq p ps h.0, split-join b',' (piece p) (map piece ps) (no_comma-All (p ∷ ps) h))
      (keep-pieces (p ∷ ps) h)

put_pair-piece :
    (p : Text × Text) (m : Table Text) → IsWritten p → put_pair (piece p) m ≡ insert p.0 p.1 m
unfolding put_pair
put_pair-piece (k, v) m w =
    rw (cut-append b'=' k v w.no_equals, put_pair, w.bare_key, w.bare_value, w.named) refl

put_pairs-pieces :
    (ps : List (Text × Text)) (m : Table Text)
    → All IsWritten ps
    → put_pairs (map piece ps) m ≡ insert_all ps m
unfolding put_pairs
put_pairs-pieces [] m h = refl
put_pairs-pieces (p ∷ ps) m h =
    ap (put_pairs (map piece ps)) (put_pair-piece p m h.0)
    ∙ put_pairs-pieces ps (insert p.0 p.1 m) h.1

-- The pairs that are written into a variable are read again, the last under a key, where every pair
-- can be written: no comma, no '=' in a key, no outer spaces and no empty key.
pub env_map-render :
    (ps : List (Text × Text)) → All IsWritten ps → env_map (render ps) ≡ insert_all ps []
unfolding env_map
env_map-render ps h = rw (split_csv-render ps h) (put_pairs-pieces ps [] h)
