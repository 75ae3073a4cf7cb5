-- ===== src/Examples/Config.antt =====
-- Two settings of tinbase, written into its variable and read again.
use orchd.Prelude.{
  ◌≡◌, refl, Text, codes, text_eq, trim_space, index_of, to_lower, lower, Option, none, some, List,
  [], ◌∷◌, ◌++◌, All,
}
use orchd.Prelude.Int.{pos}
use orchd.Prelude.Split.{split, cut}
use orchd.Table.{Table, lookup, insert}
use orchd.Config.Env.{
  System, env, env_bool, env_duration, env_map, split_csv, put_pair, put_pairs, port_suffix,
  trim_right_byte,
}
use orchd.Config.Load.{mail_key, load, validate}
use orchd.Config.Written.{IsWritten, env_map-render}

abbrev pairs : List (Text × Text)
pairs = (codes "LOG", codes "debug") ∷ (codes "URL", codes "http://a/?b=c") ∷ []

log-IsWritten : IsWritten (codes "LOG", codes "debug")
unfolding index_of trim_space text_eq
log-IsWritten = record {
  no_comma = refl;
  no_equals = refl;
  bare = refl;
  bare_key = refl;
  bare_value = refl;
  named = refl;
}

url-IsWritten : IsWritten (codes "URL", codes "http://a/?b=c")
unfolding index_of trim_space text_eq
url-IsWritten = record {
  no_comma = refl;
  no_equals = refl;
  bare = refl;
  bare_key = refl;
  bare_value = refl;
  named = refl;
}

pairs-IsWritten : All IsWritten pairs
pairs-IsWritten = (log-IsWritten, (url-IsWritten, tt))

abbrev value_or_empty : Option Text → Text
value_or_empty none = []
value_or_empty (some v) = v

-- A system of which only the environment is given.
abbrev system_of : Table Text → System
system_of vars = record {
  Float = Text;
  getenv = λ key. value_or_empty (lookup key vars);
  home = codes "/root";
  join_path = λ a b. a ++ (b'/' ∷ b);
  atoi = λ s. none;
  parse_float = λ s. none;
  parse_duration = λ s. none;
  float_of = λ s. s;
}

abbrev relay : Table Text
relay =
    (codes "ORCHD_TINBASE_SMTP_HOST", codes "10.0.0.1")
    ∷ (codes "ORCHD_TINBASE_SMS_API_URL", codes "http://10.0.0.1/twilio")
    ∷ []

env_map-render_example : env_map (codes "LOG=debug,URL=http://a/?b=c") ≡ pairs
unfolding insert text_eq
env_map-render_example = env_map-render pairs pairs-IsWritten

-- A key of a mail provider beside the relay.
key_refused :
    validate (
      load (
        system_of ((codes "ORCHD_TINBASE_ENV", codes " TINBASE_RESEND_API_KEY = re_1 ,x") ∷ relay)))
    ≡ some mail_key
unfolding insert text_eq lookup env load validate env_map split_csv put_pair put_pairs trim_space
    split cut index_of
key_refused = refl

local_url :
    (load (system_of ((codes "ORCHD_LOCAL", codes "Yes") ∷ []))).public_url
    ≡ codes "http://localhost:8081"
unfolding load env env_bool port_suffix text_eq lookup to_lower lower
local_url = refl

default_wait : (load (system_of [])).startup_wait ≡ pos 60000000000
unfolding load env_duration lookup text_eq
default_wait = refl

trimmed_url :
    (load (system_of ((codes "WEBSITE_URL", codes "https://x.dev//") ∷ []))).website_url
    ≡ codes "https://x.dev"
unfolding load env trim_right_byte lookup text_eq
trimmed_url = refl
