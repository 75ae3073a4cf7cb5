-- ===== src/Api/Refill.antt =====
-- What the token bucket admits of a sequence of requests (orchestrator/internal/api/ratelimit.go).
use orchd.Prelude.{
  ℕ, ◌+◌, ◌-◌, ◌*◌, ◌≤◌, ◌≡◌, arith, sym, ap, refl, subst, Text, text_eq, text_eq_iff, text_eq_refl,
  false, some, List, [], ◌∷◌, leb, if◌then◌else◌, Bool-cases, inl, inr,
}
use native.Mathlib.Nat.{mul-sub, mul-le-mul_left}
use orchd.Table.{lookup, lookup-insert}
use orchd.Api.RateLimit.{Bucket, RateLimiter, bucket_or_full, token, refill, allow}

-- How many of the requests with a key are admitted.
unfoldable pub admitted : Text → List (Text × ℕ) → RateLimiter → ℕ
admitted key [] l = 0
admitted key ((k, now) ∷ calls) l =
    let (ok, l') = allow k now l in
    (if text_eq k key then if ok then 1 else 0 else 0) + admitted key calls l'

-- The times of the requests, in order, from one time to another.
abbrev pub IsOrdered : ℕ → List (Text × ℕ) → ℕ → Type 0
IsOrdered t [] t' = t ≤ t'
IsOrdered t ((k, u) ∷ calls) t' = (t ≤ u) × IsOrdered u calls t'

refilled : (rate now last : ℕ) → last ≤ now → rate * (now - last) + rate * last ≡ rate * now
refilled rate now last h =
    let split = mul-sub rate now last in let grows = mul-le-mul_left rate h in omega arith

-- The bucket of a key after a request.
abbrev spent : RateLimiter → ℕ → Bucket → Bucket
spent l now b = record {
  tokens = if leb token (refill l now b) then refill l now b - token else refill l now b;
  last = now;
}

lookup-allow :
    (key k : Text) (now : ℕ) (l : RateLimiter)
    → lookup key (allow k now l).1.buckets ≡ (
        if text_eq k key
        then some (spent l now (bucket_or_full l.burst now (lookup k l.buckets)))
        else lookup key l.buckets)
unfolding allow
lookup-allow key k now l = lookup-insert k key _ l.buckets

-- What is taken of a bucket with its refill, at most.
spent-le :
    (l : RateLimiter) (now : ℕ) (b : Bucket)
    → b.last ≤ now
    → ((spent l now b).tokens
          + (if leb token (refill l now b) then 1 else 0) * token
          + l.rate * b.last
        ≤ b.tokens + l.rate * now)
unfolding refill
spent-le l now b h = let grown = refilled l.rate now b.last h in ground arith

spent-le_burst :
    (l : RateLimiter) (now : ℕ) (b : Bucket)
    → (spent l now b).tokens + (if leb token (refill l now b) then 1 else 0) * token ≤ l.burst
unfolding refill
spent-le_burst l now b = ground arith

ordered_le : (t : ℕ) (calls : List (Text × ℕ)) (t' : ℕ) → IsOrdered t calls t' → t ≤ t'
ordered_le t [] t' h = h
ordered_le t ((k, u) ∷ calls) t' h =
    let later = ordered_le u calls t' h.1 in let first = h.0 in omega arith

abbrev own : Text → ℕ → RateLimiter → Bucket
own key now l = bucket_or_full l.burst now (lookup key l.buckets)

admitted-own :
    (key : Text) (u : ℕ) (calls : List (Text × ℕ)) (l : RateLimiter)
    → admitted key ((key, u) ∷ calls) l
      ≡ (if leb token (refill l u (own key u l)) then 1 else 0)
        + admitted key calls (allow key u l).1
unfolding admitted allow
admitted-own key u calls l = rw (text_eq_refl key) refl

lookup-own :
    (key : Text) (u : ℕ) (l : RateLimiter)
    → lookup key (allow key u l).1.buckets ≡ some (spent l u (own key u l))
lookup-own key u l = rw (lookup-allow key key u l, text_eq_refl key) refl

-- From a bucket on, no more is admitted than it holds and is refilled.
abbrev IsWithin : Text → List (Text × ℕ) → ℕ → RateLimiter → ℕ → ℕ → Type 0
IsWithin key calls t' l have since =
    admitted key calls l * token + l.rate * since ≤ have + l.rate * t'

own_step :
    (key : Text) (u : ℕ) (calls : List (Text × ℕ)) (t' have since : ℕ) (l : RateLimiter)
    → (spent l u (own key u l)).tokens
        + (if leb token (refill l u (own key u l)) then 1 else 0) * token
        + l.rate * since
      ≤ have + l.rate * u
    → IsWithin key calls t' (allow key u l).1 (spent l u (own key u l)).tokens u
    → IsWithin key ((key, u) ∷ calls) t' l have since
unfolding allow
own_step key u calls t' have since l h k = rw (admitted-own key u calls l) (omega (arith, h, k))

other_step :
    (key k : Text) (u : ℕ) (calls : List (Text × ℕ)) (t' have since : ℕ) (l : RateLimiter)
    → text_eq k key ≡ false
    → IsWithin key calls t' (allow k u l).1 have since
    → IsWithin key ((k, u) ∷ calls) t' l have since
unfolding admitted allow
other_step key k u calls t' have since l n h = rw n (omega (arith, h))

admitted-stored :
    (key : Text) (calls : List (Text × ℕ)) (t t' : ℕ) (l : RateLimiter) (b : Bucket)
    → lookup key l.buckets ≡ some b
    → b.last ≤ t
    → IsOrdered t calls t'
    → IsWithin key calls t' l b.tokens b.last
unfolding admitted
admitted-stored key [] t t' l b e h o =
    let grows = mul-le-mul_left {m = b.last} {n = t'} l.rate (omega (arith, o)) in omega arith
admitted-stored key ((k, u) ∷ calls) t t' l b e h o = elim (Bool-cases (text_eq k key)) [
  | inr n ↦ other_step key k u calls t' b.tokens b.last l n (
      admitted-stored key calls u t' (allow k u l).1 b (rw (lookup-allow key k u l, n) e)
        (omega (arith, o.0)) o.1)
  | inl y ↦
      let bucket : own key u l ≡ b = ap (bucket_or_full l.burst u) e in
      let step = spent-le l u b (omega (arith, o.0)) in
      subst (λ k. IsWithin key ((k, u) ∷ calls) t' l b.tokens b.last)
        (sym ((text_eq_iff k key).0 y))
        (own_step key u calls t' b.tokens b.last l (rw bucket step) (
          admitted-stored key calls u t' (allow key u l).1 (spent l u (own key u l))
            (lookup-own key u l) (omega arith) o.1))
]

lower_start :
    (key : Text) (calls : List (Text × ℕ)) (t u t' : ℕ) (l : RateLimiter)
    → l.rate * t ≤ l.rate * u
    → IsWithin key calls t' l l.burst u
    → IsWithin key calls t' l l.burst t
lower_start key calls t u t' l g h = omega (arith, g, h)

admitted-any :
    (key : Text) (calls : List (Text × ℕ)) (t t' : ℕ) (l : RateLimiter)
    → IsOrdered t calls t'
    → IsWithin key calls t' l l.burst t
unfolding admitted allow
admitted-any key [] t t' l o = let grows = mul-le-mul_left {m = t} {n = t'} l.rate o in omega arith
admitted-any key ((k, u) ∷ calls) t t' l o =
    let grows = mul-le-mul_left {m = t} {n = u} l.rate o.0 in
    elim (Bool-cases (text_eq k key)) [
      | inr n ↦ other_step key k u calls t' l.burst t l n (
          lower_start key calls t u t' (allow k u l).1 grows
            (admitted-any key calls u t' (allow k u l).1 o.1))
      | inl y ↦
          let cap = spent-le_burst l u (own key u l) in
          subst (λ k. IsWithin key ((k, u) ∷ calls) t' l l.burst t) (sym ((text_eq_iff k key).0 y))
            (own_step key u calls t' l.burst t l (omega arith) (
              admitted-stored key calls u t' (allow key u l).1 (spent l u (own key u l))
                (lookup-own key u l) (omega arith) o.1))
    ]

-- Whatever the buckets hold, the requests with one key that are admitted from one time to another
-- are no more than the burst and what the rate refills in that time.
pub admitted-le :
    (key : Text) (calls : List (Text × ℕ)) (t t' : ℕ) (l : RateLimiter)
    → IsOrdered t calls t'
    → admitted key calls l * token ≤ l.burst + l.rate * (t' - t)
admitted-le key calls t t' l o =
    let within = admitted-any key calls t t' l o in
    let span = refilled l.rate t' t (ordered_le t calls t' o) in omega arith
