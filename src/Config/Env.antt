-- ===== src/Config/Env.antt =====
-- The readers of environment variables (orchestrator/internal/config/config.go). The environment, the
-- parsers of strconv and time, the home directory and filepath.Join are the parameter `System`; a
-- number is not bounded here, so a count of seconds that overflows time.Duration is not modelled.
use orchd.Prelude.{
  ℕ, ◌+◌, ◌-◌, ◌*◌, ◌==◌, Text, codes, text_eq, to_lower, trim_space, Bool, not, ◌&&◌, ◌||◌, Option,
  none, some, List, [], ◌∷◌, keep, map, if◌then◌else◌,
}
use orchd.Prelude.Int.{ℤ, pos, negsuc, is_positive}
use orchd.Prelude.Split.{split, cut}
use orchd.Table.{Table, insert}

pub record System : Type 1 where
  pub Float : Type 0
  pub getenv : Text → Text
  pub home : Text
  pub join_path : Text → Text → Text
  -- strconv.Atoi, strconv.ParseFloat and time.ParseDuration in nanoseconds
  pub atoi : Text → Option ℤ
  pub parse_float : Text → Option Float
  pub parse_duration : Text → Option ℤ
  -- a literal of the code
  pub float_of : Text → Float

abbrev pub is_blank : Text → Bool
is_blank s = text_eq s (codes "")

unfoldable pub split_csv : Text → List Text
split_csv v =
    if is_blank (trim_space v)
    then []
    else keep (λ p. not (is_blank p)) (map trim_space (split b',' v))

-- A piece without '=' or without a name is skipped.
unfoldable pub put_pair : Text → Table Text → Table Text
put_pair piece m = elim (cut b'=' piece) [
  | none ↦ m
  | some (k, v) ↦ if is_blank (trim_space k) then m else insert (trim_space k) (trim_space v) m
]

unfoldable pub put_pairs : List Text → Table Text → Table Text
unfolding put_pair
put_pairs [] m = m
put_pairs (p ∷ ps) m = put_pairs ps (put_pair p m)

-- envMap, of the variable's value
unfoldable pub env_map : Text → Table Text
unfolding split_csv put_pairs
env_map value = put_pairs (split_csv value) []

-- The text from the last colon on.
unfoldable pub port_suffix : Text → Text
port_suffix [] = []
port_suffix (a ∷ s) =
    let rest = port_suffix s in
    if not (is_blank rest) then rest else if a == b':' then a ∷ s else []

-- strings.TrimRight of one byte
unfoldable pub trim_right_byte : ℕ → Text → Text
trim_right_byte c [] = []
trim_right_byte c (a ∷ s) =
    let rest = trim_right_byte c s in if is_blank rest && a == c then [] else a ∷ rest

-- A count of seconds in nanoseconds.
abbrev pub seconds : ℤ → ℤ
seconds (pos n) = pos (n * 1000000000)
seconds (negsuc n) = negsuc ((n + 1) * 1000000000 - 1)

abbrev pub or_default : {A : Type 0} → Option A → A → A
or_default none d = d
or_default (some a) d = a

module _ (os : System) where
  unfoldable pub env : Text → Text → Text
  env key default = let v = os.getenv key in if is_blank v then default else v

  unfoldable pub env_bool : Text → Bool
  env_bool key =
      let v = to_lower (os.getenv key) in
      (text_eq v (codes "1") || text_eq v (codes "true"))
      || (text_eq v (codes "yes") || text_eq v (codes "on"))

  unfoldable pub env_int : Text → ℤ → ℤ
  env_int key default =
      let v = os.getenv key in if is_blank v then default else or_default (os.atoi v) default

  unfoldable pub env_float : Text → os.Float → os.Float
  env_float key default =
      let v = os.getenv key in if is_blank v then default else or_default (os.parse_float v) default

  unfoldable pub env_duration : Text → ℤ → ℤ
  env_duration key default =
      let v = os.getenv key in
      if is_blank v then default else elim (os.parse_duration v) [
        | some d ↦ d
        | none ↦ elim (os.atoi v) [ some n ↦ seconds n | none ↦ default ]
      ]

  -- A value that is not a positive number is skipped.
  unfoldable pub env_int_map : Table Text → Table ℤ
  env_int_map [] = []
  env_int_map ((k, v) ∷ m) =
      let rest = env_int_map m in
      elim (os.atoi v) [ none ↦ rest | some n ↦ if is_positive n then (k, n) ∷ rest else rest ]
