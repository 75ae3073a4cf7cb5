-- ===== src/Drivers/After.antt =====
-- What holds after a step of a driver that may fail, for steps in sequence (after the early returns
-- of orchestrator/internal/runtime/firecracker.go).
use orchd.Prelude.{◌≡◌, Bool, true, Option, none, some, Bool-cases, Option-cases, inl, inr}
use orchd.Drivers.Machine.{FcHost, Outcome, Action, next, recover, ask, run}

-- What holds of the value and of the state when there is no error.
abbrev pub After : {W A : Type 0} → (A → FcHost W → Type 0) → Outcome W A → Type 0
After P r = elim r.0 [ none ↦ Unit | some a ↦ P a r.1 ]

pub next-After :
    {W A B : Type 0} (P : B → FcHost W → Type 0) (Q : A → FcHost W → Type 0) (r : Outcome W A)
    (f : A → Action W B)
    → After Q r
    → ((a : A) (g : FcHost W) → Q a g → After P (f a g))
    → After P (next r f)
next-After P Q (none, h) f q k = tt
next-After P Q (some a, h) f q k = k a h q

pub weaken :
    {W A : Type 0} (P Q : A → FcHost W → Type 0) (r : Outcome W A)
    → ((a : A) (h : FcHost W) → Q a h → P a h)
    → After Q r
    → After P r
weaken P Q (none, h) k q = tt
weaken P Q (some a, h) k q = k a h q

pub recover-After :
    {W A : Type 0} (P : A → FcHost W → Type 0) (r : Outcome W A) (f : Action W A)
    → After P r
    → ((h : FcHost W) → After P (f h))
    → After P (recover r f)
recover-After P (none, h) f q k = k h
recover-After P (some a, h) f q k = q

pub always : {W A : Type 0} (r : Outcome W A) → After (λ _ _. Unit {0}) r
always (none, h) = tt
always (some a, h) = tt

module _ {W B : Type 0} (P : B → FcHost W → Type 0) where
  pub run-next :
      (op : W → Bool × W) (h : FcHost W) (f : Unit → Action W B)
      → ((op h.world).0 ≡ true → After P (f tt (record h { world = (op h.world).1 })))
      → After P (next (run op h) f)
  run-next op h f k = elim (Bool-cases (op h.world).0) [
    | inl e ↦ rw (e, next) (k e)
    | inr e ↦ rw (e, next, After) tt
  ]

  pub ask-next :
      {A : Type 0} (op : W → Option A × W) (h : FcHost W) (f : A → Action W B)
      → ((a : A) → (op h.world).0 ≡ some a → After P (f a (record h { world = (op h.world).1 })))
      → After P (next (ask op h) f)
  ask-next op h f k = elim (Option-cases (op h.world).0) [
    | inl e ↦ rw (e, next, After) tt
    | inr (a, e) ↦ rw (e, next) (k a e)
  ]
