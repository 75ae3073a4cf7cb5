-- ===== src/Events/Sink.antt =====
-- MemorySink of orchestrator/internal/events/events.go; an event is of any type.
use orchd.Prelude.{
  ℕ, suc, zero, ◌+◌, ◌-◌, ◌≤◌, ◌<◌, ◌≡◌, refl, arith, ap, subst, sym, ◌∙◌, ◌||◌, ltb, ◌==◌,
  if◌then◌else◌, List, [], ◌∷◌, ◌++◌, length, take, drop, length-append, length-drop, Bool-cases,
  inl, inr,
}
use mathlib.Core.List.{append-nil, append_assoc}
use orchd.Prelude.Lists.{reverse}
use orchd.Prelude.Int.{ℤ, pos_part}

pub record MemorySink {ℓ} (E : Type ℓ) : Type ℓ where
  pub buf : List E
  pub max : ℕ

-- The bound of a new sink.
abbrev pub bound_of : ℤ → ℕ
bound_of max = if pos_part max == 0 then 500 else pos_part max

suc_add : (n k : ℕ) → suc n + k ≡ suc (n + k)
suc_add n k = omega arith

module _ {ℓ} {E : Type ℓ} where
  -- NewMemorySink
  unfoldable pub new_memory_sink : ℤ → MemorySink E
  new_memory_sink max = record { buf = []; max = bound_of max }

  unfoldable pub emit : E → MemorySink E → MemorySink E
  emit e m =
      let buf = m.buf ++ (e ∷ []) in
      record m { buf = if ltb m.max (length buf) then drop (length buf - m.max) buf else buf }

  -- Recent: the newest first, `n` of them or, where `n` is not positive or too large, all.
  unfoldable pub recent : ℤ → MemorySink E → List E
  recent n m =
      let count =
        if pos_part n == 0 || ltb (length m.buf) (pos_part n) then length m.buf else pos_part n in
      take count (reverse m.buf)

  unfoldable pub emit_all : List E → MemorySink E → MemorySink E
  unfolding emit
  emit_all [] m = m
  emit_all (e ∷ es) m = emit_all es (emit e m)

  drop-suc_append :
      (n : ℕ) (xs : List E) (e : E)
      → n ≤ length xs
      → drop n xs ++ (e ∷ []) ≡ drop n (xs ++ (e ∷ []))
  drop-suc_append zero xs e h = refl
  drop-suc_append (suc n) [] e h = absurd (omega (arith, h))
  drop-suc_append (suc n) (x ∷ xs) e h = drop-suc_append n xs e (omega (arith, h))

  drop-drop_more : (n k : ℕ) (xs : List E) → drop k (drop n xs) ≡ drop (n + k) xs
  drop-drop_more zero k xs = ap (λ j. drop j xs) (omega arith)
  drop-drop_more (suc n) zero [] = rw (suc_add n 0) refl
  drop-drop_more (suc n) (suc k) [] = rw (suc_add n (suc k)) refl
  drop-drop_more (suc n) k (x ∷ xs) = rw (suc_add n k) (drop-drop_more n k xs)

  -- A buffer to which one event was added, and then cut to its bound.
  cut :
      (max : ℕ) (seen : List E) (e : E)
      → (if ltb max (length (drop (length seen - max) seen ++ (e ∷ [])))
          then drop
              (length (drop (length seen - max) seen ++ (e ∷ [])) - max)
              (drop (length seen - max) seen ++ (e ∷ []))
          else drop (length seen - max) seen ++ (e ∷ []))
        ≡ drop (length (seen ++ (e ∷ [])) - max) (seen ++ (e ∷ []))
  cut max seen e =
      let whole = seen ++ (e ∷ []) in
      let same : drop (length seen - max) seen ++ (e ∷ []) ≡ drop (length seen - max) whole =
        drop-suc_append (length seen - max) seen e (omega arith) in
      let long : length whole ≡ suc (length seen) = omega (arith, length-append seen (e ∷ [])) in
      let size : length (drop (length seen - max) whole) ≡ suc (length seen) - (length seen - max) =
        omega (arith, length-drop (length seen - max) whole, long) in
      rw same (elim (Bool-cases (ltb max (length (drop (length seen - max) whole)))) [
        | inl f ↦
            let over : max < length (drop (length seen - max) whole) = ground (arith, f) in
            rw f (
              drop-drop_more (length seen - max) _ whole
              ∙ ap (λ n. drop n whole) (omega (arith, size, long, over)))
        | inr f ↦
            let under : length (drop (length seen - max) whole) ≤ max = ground (arith, f) in
            rw f (ap (λ n. drop n whole) (omega (arith, size, long, under)))
      ])

  emit-buf :
      (seen : List E) (e : E) (m : MemorySink E)
      → m.buf ≡ drop (length seen - m.max) seen
      → (emit e m).buf ≡ drop (length (seen ++ (e ∷ [])) - m.max) (seen ++ (e ∷ []))
  unfolding emit
  emit-buf seen e m h = rw h (cut m.max seen e)

  emit_all-buf :
      (seen es : List E) (m : MemorySink E)
      → m.buf ≡ drop (length seen - m.max) seen
      → (emit_all es m).buf ≡ drop (length (seen ++ es) - m.max) (seen ++ es)
  unfolding emit_all emit
  emit_all-buf seen [] m h = rw (append-nil seen) h
  emit_all-buf seen (e ∷ es) m h =
      subst (λ whole. (emit_all es (emit e m)).buf ≡ drop (length whole - m.max) whole)
        (append_assoc seen (e ∷ []) es)
        (emit_all-buf (seen ++ (e ∷ [])) es (emit e m) (emit-buf seen e m h))

  length-reverse : (xs : List E) → length (reverse xs) ≡ length xs
  unfolding reverse
  length-reverse [] = refl
  length-reverse (x ∷ xs) = omega (arith, length-append (reverse xs) (x ∷ []), length-reverse xs)

  take-all : (n : ℕ) (xs : List E) → length xs ≤ n → take n xs ≡ xs
  take-all zero [] h = refl
  take-all zero (x ∷ xs) h = absurd (omega (arith, h))
  take-all (suc n) [] h = refl
  take-all (suc n) (x ∷ xs) h = ap (λ r. x ∷ r) (take-all n xs (omega (arith, h)))

  -- How many events are shown of a buffer of at most `bound`.
  take-count :
      (n bound : ℕ) (xs : List E)
      → length xs ≤ bound
      → take (if n == 0 || ltb (length xs) n then length xs else n) (reverse xs)
        ≡ take (if n == 0 then bound else n) (reverse xs)
  take-count n bound xs h = elim (Bool-cases (n == 0)) [
    | inl e ↦ rw e (
        take-all (length xs) (reverse xs) (omega (arith, length-reverse xs))
        ∙ sym (take-all bound (reverse xs) (omega (arith, h, length-reverse xs))))
    | inr e ↦ elim (Bool-cases (ltb (length xs) n)) [
      | inl f ↦
          let over : length xs < n = ground (arith, f) in
          rw (e, f)
            (take-all (length xs) (reverse xs) (omega (arith, length-reverse xs))
              ∙ sym (take-all n (reverse xs) (omega (arith, over, length-reverse xs))))
      | inr f ↦ rw (e, f) refl
    ]
  ]

  drop-nil : (n : ℕ) → drop {A = E} n [] ≡ []
  drop-nil zero = refl
  drop-nil (suc n) = refl

  -- After any events were emitted to a new sink, Recent shows the last of them, the newest first:
  -- as many as asked for, or all that are kept where the number is not positive; what is kept is
  -- the last events up to the sink's bound, which is 500 where none is given.
  pub recent-emit_all :
      (max n : ℤ) (es : List E)
      → recent n (emit_all es (new_memory_sink max))
        ≡ take
            (if pos_part n == 0 then bound_of max else pos_part n)
            (reverse (drop (length es - bound_of max) es))
  unfolding recent new_memory_sink
  recent-emit_all max n es =
      let kept : (emit_all es (new_memory_sink max)).buf ≡ drop (length es - bound_of max) es =
        emit_all-buf [] es (new_memory_sink max) (sym (drop-nil (0 - bound_of max))) in
      rw kept (
        take-count (pos_part n) (bound_of max) (drop (length es - bound_of max) es)
          (omega (arith, length-drop (length es - bound_of max) es)))
