-- ===== src/Metering/Counters.antt =====
-- Counters of orchestrator/internal/metering/meter.go. An int64 is its bit pattern, a number
-- below 2 ^ 64, and a sum wraps round.
use orchd.Prelude.{
  ℕ, ◌+◌, ◌-◌, ◌/◌, ◌%◌, ◌^◌, ◌≡◌, Option, none, some, arith, leb, ltb, ◌==◌, ◌&&◌, if◌then◌else◌,
}

abbrev pub add64 : ℕ → ℕ → ℕ
add64 a b = (a + b) % 2 ^ 64

-- `Status [4]int64`, a field for each class.
pub record Counters : Type 0 where
  pub requests : ℕ
  pub bytes_in : ℕ
  pub bytes_out : ℕ
  pub s2xx : ℕ
  pub s3xx : ℕ
  pub s4xx : ℕ
  pub s5xx : ℕ

abbrev pub zero_counters : Counters
zero_counters = record {
  requests = 0;
  bytes_in = 0;
  bytes_out = 0;
  s2xx = 0;
  s3xx = 0;
  s4xx = 0;
  s5xx = 0;
}

-- Counters.add
infixl 65 ◌⊕◌
unfoldable pub ◌⊕◌ : Counters → Counters → Counters
c ⊕ o = record {
  requests = add64 c.requests o.requests;
  bytes_in = add64 c.bytes_in o.bytes_in;
  bytes_out = add64 c.bytes_out o.bytes_out;
  s2xx = add64 c.s2xx o.s2xx;
  s3xx = add64 c.s3xx o.s3xx;
  s4xx = add64 c.s4xx o.s4xx;
  s5xx = add64 c.s5xx o.s5xx;
}

-- statusClass; `none` for -1
unfoldable pub status_class : ℕ → Option ℕ
status_class code =
    if code == 101
    then some 0
    else if leb 200 code && ltb code 600
    then some (code / 100 - 2)
    else none

-- c.Status[i] = 1
unfoldable pub mark_status : ℕ → Counters → Counters
mark_status i c =
    if i == 0
    then record c { s2xx = 1 }
    else if i == 1
    then record c { s3xx = 1 }
    else if i == 2
    then record c { s4xx = 1 }
    else record c { s5xx = 1 }

pub ⊕_comm : (a b : Counters) → a ⊕ b ≡ b ⊕ a
unfolding ◌⊕◌
⊕_comm a b = ground arith

pub ⊕_assoc : (a b c : Counters) → a ⊕ b ⊕ c ≡ a ⊕ (b ⊕ c)
unfolding ◌⊕◌
⊕_assoc a b c = ground arith

-- A sum is in range, so adding nothing to it changes nothing.
pub ⊕-zero : (a b : Counters) → a ⊕ b ⊕ zero_counters ≡ a ⊕ b
unfolding ◌⊕◌
⊕-zero a b = ground arith
