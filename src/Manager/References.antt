-- ===== src/Manager/References.antt =====
-- What the interpolation makes of a value that is written as texts and references
-- (orchestrator/internal/manager/interpolate.go).
use orchd.Prelude.{
  ℕ, suc, ◌+◌, ◌≡◌, refl, sym, ap, ◌∙◌, arith, Text, codes, text_eq, has_prefix, true, false,
  Option, none, some, List, [], ◌∷◌, ◌++◌, ◌==◌, length, All, Bool-cases, inl, inr, false≢true,
}
use orchd.Table.{Table, lookup}
use orchd.Store.Records.{Workload}
use orchd.Store.Mem.{MemStore}
use orchd.Store.Query.{list_workloads}
use orchd.Manager.Interpolate.{
  Addressing, is_token_start, is_token_char, token_tail, match_token, has_reference, replace,
  token_value, needs, replace_all, interpolate_env,
}

-- A value is written as texts, here without "$", and references by name.
pub data Piece : Type 0 where
  text : Text → Piece
  reference : Text → Piece

abbrev pub IsName : Text → Type 0
IsName [] = false ≡ true
IsName (c ∷ s) = (is_token_start c ≡ true) × All (λ b. is_token_char b ≡ true) s

abbrev pub IsPiece : Piece → Type 0
IsPiece (text s) = All (λ c. (c == 36) ≡ false) s
IsPiece (reference name) = IsName name

abbrev pub render : List Piece → Text
render [] = []
render (text s ∷ ps) = s ++ render ps
render (reference name ∷ ps) = 36 ∷ 123 ∷ (name ++ (125 ∷ render ps))

-- Each reference by its value.
abbrev pub substituted : (Text → Text) → List Piece → Text
substituted value [] = []
substituted value (text s ∷ ps) = s ++ substituted value ps
substituted value (reference name ∷ ps) = value name ++ substituted value ps

name_not_end : (c : ℕ) → is_token_char c ≡ true → (c == 125) ≡ false
unfolding is_token_char is_token_start
name_not_end c h = ground (arith, h)

token_tail-name :
    (s rest : Text) → All (λ b. is_token_char b ≡ true) s → token_tail (s ++ (125 ∷ rest)) ≡ some s
unfolding token_tail
token_tail-name [] rest h = refl
token_tail-name (c ∷ s) rest h =
    rw (token_tail, name_not_end c h.0, h.0, token_tail-name s rest h.1) refl

match_token-name :
    (name rest : Text) → IsName name → match_token (36 ∷ 123 ∷ (name ++ (125 ∷ rest))) ≡ some name
unfolding match_token
match_token-name [] rest h = absurd (false≢true h)
match_token-name (c ∷ s) rest h = rw (h.0, token_tail-name s rest h.1) refl

match_token-text : (c : ℕ) (s : Text) → (c == 36) ≡ false → match_token (c ∷ s) ≡ none
unfolding match_token
match_token-text c [] h = refl
match_token-text c (b ∷ []) h = refl
match_token-text c (b ∷ a ∷ s) h = rw h refl

one_more : (n : ℕ) → suc n + 1 ≡ suc (n + 1)
one_more n = omega arith

no_reference :
    (c : ℕ) (s : Text)
    → has_reference (c ∷ s) ≡ false
    → (has_prefix (c ∷ s) (codes "${") ≡ false) × (has_reference s ≡ false)
unfolding has_reference
no_reference c s h = ground (arith, h)

no_needs :
    (k v : Text) (env : Table Text)
    → needs ((k, v) ∷ env) ≡ false
    → (has_reference v ≡ false) × (needs env ≡ false)
unfolding needs
no_needs k v env h = ground (arith, h)

two_more : (n : ℕ) → n + 2 ≡ suc n + 1
two_more n = omega arith

match_token-none :
    (c : ℕ) (s : Text) → has_prefix (c ∷ s) (codes "${") ≡ false → match_token (c ∷ s) ≡ none
unfolding match_token has_prefix
match_token-none c [] h = refl
match_token-none c (b ∷ []) h = refl
match_token-none c (b ∷ a ∷ s) h = ground (arith, h)

module _ (value : Text → Text) where
  abbrev replaced : Option Text → Option Text
  replaced none = none
  replaced (some v) = some (replace value 0 v)

  -- The rest of a match is passed over.
  skip_name :
      (s rest : Text) → replace value (length s + 1) (s ++ (125 ∷ rest)) ≡ replace value 0 rest
  unfolding replace
  skip_name [] rest = refl
  skip_name (c ∷ s) rest = rw (one_more (length s)) (skip_name s rest)

  replace-text :
      (s rest : Text)
      → All (λ c. (c == 36) ≡ false) s
      → replace value 0 (s ++ rest) ≡ s ++ replace value 0 rest
  unfolding replace
  replace-text [] rest h = refl
  replace-text (c ∷ s) rest h =
      rw (replace, match_token-text c (s ++ rest) h.0) (ap (λ t. c ∷ t) (replace-text s rest h.1))

  replace-name :
      (name rest : Text)
      → IsName name
      → replace value 0 (36 ∷ 123 ∷ (name ++ (125 ∷ rest))) ≡ value name ++ replace value 0 rest
  unfolding replace
  replace-name name rest h =
      rw (replace, match_token-name name rest h)
        (ap (λ t. value name ++ t)
          (ap (λ n. replace value n (123 ∷ (name ++ (125 ∷ rest)))) (two_more (length name))
            ∙ skip_name (123 ∷ name) rest))

  replace-render :
      (ps : List Piece) → All IsPiece ps → replace value 0 (render ps) ≡ substituted value ps
  unfolding replace
  replace-render [] h = refl
  replace-render (text s ∷ ps) h =
      replace-text s (render ps) h.0 ∙ ap (λ t. s ++ t) (replace-render ps h.1)
  replace-render (reference name ∷ ps) h =
      replace-name name (render ps) h.0 ∙ ap (λ t. value name ++ t) (replace-render ps h.1)

  -- Without "${", nothing is replaced.
  replace-none : (s : Text) → has_reference s ≡ false → replace value 0 s ≡ s
  unfolding replace has_reference
  replace-none [] h = refl
  replace-none (c ∷ s) h =
      let (first, later) = no_reference c s h in
      rw (replace, match_token-none c s first) (ap (λ t. c ∷ t) (replace-none s later))

  -- The value of a key after all values are replaced, whether there is a reference or not.
  lookup-replace_all :
      (k : Text) (env : Table Text) → lookup k (replace_all value env) ≡ replaced (lookup k env)
  unfolding replace_all lookup
  lookup-replace_all k [] = refl
  lookup-replace_all k ((j, v) ∷ env) = elim (Bool-cases (text_eq j k)) [
    | inl e ↦ rw e refl
    | inr e ↦ rw e (lookup-replace_all k env)
  ]

  replace_all-none : (env : Table Text) → needs env ≡ false → replace_all value env ≡ env
  unfolding replace_all needs
  replace_all-none [] h = refl
  replace_all-none ((k, v) ∷ env) h =
      let (first, later) = no_needs k v env h in
      ap (λ x. (k, x) ∷ replace_all value env) (replace-none v first)
      ∙ ap (λ e. (k, v) ∷ e) (replace_all-none env later)

module _ {D : Type 0} (show : ℕ → Text) (a : Addressing) (w : Workload) (s : MemStore D) where
  -- The shortcut of an environment without references gives what the replacement gives.
  interpolate_env_lem :
      (env : Table Text)
      → interpolate_env show a w env s
        ≡ replace_all (token_value show a w.project_id (list_workloads w.project_id s)) env
  unfolding interpolate_env
  interpolate_env_lem env = elim (Bool-cases (needs env)) [
    | inl e ↦ rw (interpolate_env, e) refl
    | inr e ↦
        rw (interpolate_env, e)
          (sym (
            replace_all-none (token_value show a w.project_id (list_workloads w.project_id s)) env
              e))
  ]

  -- A value that is written as texts without "$" and references by name is interpolated to the
  -- texts with the value of each reference between them, which is not read for references again.
  pub interpolate_env-render :
      (k : Text) (ps : List Piece) (env : Table Text)
      → All IsPiece ps
      → lookup k env ≡ some (render ps)
      → lookup k (interpolate_env show a w env s)
        ≡ some (substituted (token_value show a w.project_id (list_workloads w.project_id s)) ps)
  interpolate_env-render k ps env h e =
      let value = token_value show a w.project_id (list_workloads w.project_id s) in
      ap (lookup k) (interpolate_env_lem env)
      ∙ lookup-replace_all value k env
      ∙ ap (replaced value) e
      ∙ ap some (replace-render value ps h)
