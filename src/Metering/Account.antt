-- ===== src/Metering/Account.antt =====
-- What becomes of an aggregate (orchestrator/internal/metering/reporter.go).
use mathlib.Core.List.{append_assoc}
use orchd.Prelude.{
  ℕ, zero, suc, ◌≤◌, ◌<◌, Text, codes, text_eq, ◌≡◌, refl, ap, ◌∙◌, ◌⊎◌, inl, inr, Bool, true,
  false, Option, List, [], ◌∷◌, ◌++◌, arith, length, min, length-drop, length-append, Bool-cases,
  take, length-take, take-append-drop, sym, ◌==◌,
}
use orchd.Table.{Table, insert}
use orchd.Metering.Counters.{add64}
use orchd.Metering.Meter.{Bucket}
use orchd.Metering.Reporter.{
  Aggregate, Target, Config, Reporter, Answer, resolved_id, aggregates, note_target, is_past,
  pruned, prune, collect, is_waiting, send_round, send_loop, send, max_batch, min_backoff,
  max_backoff, is_accepted, is_refused,
}

-- The aggregates that went through the reporter: sent, dropped or waiting.
abbrev pub accounted : Reporter → ℕ
accounted r = add64 (add64 r.sent r.dropped) (length r.outbox)

length-pruned :
    (cfg : Config) (now : ℕ) (xs : List Aggregate) → length (pruned cfg now xs) ≤ length xs
unfolding pruned
length-pruned cfg now [] = omega arith
length-pruned cfg now (a ∷ xs) = ground (arith, length-pruned cfg now xs)

accounted-prune :
    (cfg : Config) (now : ℕ) (r : Reporter) → accounted (prune cfg now r) ≡ accounted r
unfolding prune
accounted-prune cfg now r = omega (arith, length-pruned cfg now r.outbox)

pruned-le :
    (cfg : Config) (now : ℕ) (xs : List Aggregate) → length (pruned cfg now xs) ≤ cfg.max_pending
unfolding pruned is_past
pruned-le cfg now [] = omega arith
pruned-le cfg now (a ∷ xs) = ground (arith, pruned-le cfg now xs)

length-aggregates :
    (new_id : ℕ → Text) (resolve : Text → Option Text) (before : Table (Option Text)) (minted : ℕ)
    (now : Table (Option Text)) (bs : List Bucket)
    → length (aggregates new_id resolve before minted now bs).0 ≡ length bs
unfolding aggregates
length-aggregates new_id resolve before minted now [] = refl
length-aggregates new_id resolve before minted now (b ∷ bs) = ap suc (
    length-aggregates new_id resolve before (suc minted)
      (insert b.project (resolved_id resolve now before b.project) now) bs)

-- While a target is set, a drain into the outbox accounts for every bucket, and leaves at most the
-- configured number of aggregates in it.
pub accounted-collect :
    (new_id : ℕ → Text) (cfg : Config) (buckets : List Bucket) (target : Target) (now : ℕ)
    (r : Reporter)
    → text_eq target.url (codes "") ≡ false
    → (accounted (collect new_id cfg buckets target now r) ≡ add64 (accounted r) (length buckets))
      × (length (collect new_id cfg buckets target now r).outbox ≤ cfg.max_pending)
unfolding collect note_target
accounted-collect new_id cfg buckets target now r h =
    let aggs = (aggregates new_id cfg.resolve r.resolved r.minted [] buckets).0 in
    rw (h, collect)
      (
        accounted-prune cfg now _
            ∙ omega (
              arith,
              length-append r.outbox aggs,
              length-aggregates new_id cfg.resolve r.resolved r.minted [] buckets,
            ),
        unfold prune in pruned-le cfg now (r.outbox ++ aggs),
      )

-- What a sender took off the front of the outbox, and the counts of what was sent and dropped.
abbrev pub IsSentOff : Reporter → Reporter → Type 0
IsSentOff r t =
    (gone : List Aggregate) × (r.outbox ≡ gone ++ t.outbox)
    × (add64 t.sent t.dropped ≡ add64 (add64 r.sent r.dropped) (length gone))

send_round-IsSentOff :
    (answer : ℕ → Answer) (clock : ℕ → ℕ) (force : Bool) (r : Reporter)
    → IsSentOff r (send_round answer clock force r).0
unfolding send_round
send_round-IsSentOff answer clock force r =
    let n = min (length r.outbox) max_batch in
    let front = sym (take-append-drop n r.outbox) in
    let size = length-take n r.outbox in
    elim (Bool-cases (is_accepted (answer r.posts))) [
      | inl e ↦ rw (send_round, e) (take n r.outbox, front, omega arith)
      | inr e ↦ elim (Bool-cases (is_refused (answer r.posts))) [
        | inl f ↦ rw (send_round, e, f) (take n r.outbox, front, omega arith)
        | inr f ↦ rw (send_round, e, f) ([], refl, omega arith)
      ]
    ]

IsSentOff-trans : (r t u : Reporter) → IsSentOff r t → IsSentOff t u → IsSentOff r u
IsSentOff-trans r t u (xs, e, h) (ys, f, k) = (
  xs ++ ys,
  e ∙ (ap (λ zs. xs ++ zs) f ∙ sym (append_assoc xs ys u.outbox)),
  omega (arith, length-append xs ys),
)

send_loop-IsSentOff :
    (answer : ℕ → Answer) (clock : ℕ → ℕ) (force : Bool) (fuel : ℕ) (r : Reporter)
    → IsSentOff r (send_loop answer clock force fuel r)
unfolding send_loop
send_loop-IsSentOff answer clock force zero r = ([], refl, omega arith)
send_loop-IsSentOff answer clock force (suc fuel) r =
    let next = (send_round answer clock force r).0 in
    let one = send_round-IsSentOff answer clock force r in
    elim (Bool-cases (is_waiting force (clock r.posts) r)) [
      | inl e ↦ rw e ([], refl, omega arith)
      | inr e ↦ elim (Bool-cases (send_round answer clock force r).1) [
        | inl go ↦
            rw (e, go)
              (IsSentOff-trans r next (send_loop answer clock force fuel next) one
                (send_loop-IsSentOff answer clock force fuel next))
        | inr stop ↦ rw (e, stop) one
      ]
    ]

-- Sending takes aggregates off the front of the outbox only, and counts each of them once, as sent
-- or as dropped, modulo 2 ^ 64: the outbox before is what was taken, followed by the outbox after.
pub send-IsSentOff :
    (answer : ℕ → Answer) (clock : ℕ → ℕ) (force : Bool) (target : Target) (r : Reporter)
    → IsSentOff r (send answer clock force target r)
unfolding send note_target
send-IsSentOff answer clock force target r = elim (Bool-cases (text_eq target.url (codes ""))) [
  | inl e ↦ rw (send, e) ([], refl, omega arith)
  | inr e ↦
      rw (send, e)
        (send_loop-IsSentOff answer clock force (suc (length r.outbox))
          (record r { last_url = target.url }))
]

-- The backoff is off, or within its bounds.
abbrev pub IsPaced : Reporter → Type 0
IsPaced r =
    ((r.backoff ≡ 0) × (r.next_try ≡ 0)) ⊎ ((min_backoff ≤ r.backoff) × (r.backoff ≤ max_backoff))

send_round-IsPaced :
    (answer : ℕ → Answer) (clock : ℕ → ℕ) (force : Bool) (r : Reporter)
    → IsPaced (send_round answer clock force r).0
unfolding send_round
send_round-IsPaced answer clock force r = ground arith

send_loop-IsPaced :
    (answer : ℕ → Answer) (clock : ℕ → ℕ) (force : Bool) (fuel : ℕ) (r : Reporter)
    → IsPaced r
    → IsPaced (send_loop answer clock force fuel r)
unfolding send_loop
send_loop-IsPaced answer clock force zero r h = h
send_loop-IsPaced answer clock force (suc fuel) r h =
    elim (Bool-cases (is_waiting force (clock r.posts) r)) [
      | inl e ↦ rw e h
      | inr e ↦ elim (Bool-cases (send_round answer clock force r).1) [
        | inl go ↦
            rw (e, go)
              (send_loop-IsPaced answer clock force fuel (send_round answer clock force r).0
                (send_round-IsPaced answer clock force r))
        | inr stop ↦ rw (e, stop) (send_round-IsPaced answer clock force r)
      ]
    ]

-- The last post that was made since a state got neither a 2xx nor a 400.
abbrev pub IsFailed : (ℕ → Answer) → Reporter → Reporter → Type 0
IsFailed answer r t =
    (n : ℕ) × (r.posts ≤ n)
    × (t.posts ≡ suc n)
    × (is_accepted (answer n) ≡ false)
    × (is_refused (answer n) ≡ false)
    × (min_backoff ≤ t.backoff)

-- A round that goes on shortens the outbox; one that stops has failed.
round_progress :
    (answer : ℕ → Answer) (clock : ℕ → ℕ) (force : Bool) (now : ℕ) (r : Reporter)
    → is_waiting force now r ≡ false
    → ((send_round answer clock force r).1 ≡ true)
        × (length (send_round answer clock force r).0.outbox < length r.outbox)
        × ((send_round answer clock force r).0.posts ≡ suc r.posts)
      ⊎ ((send_round answer clock force r).1 ≡ false)
        × IsFailed answer r (send_round answer clock force r).0
unfolding send_round is_waiting
round_progress answer clock force now r h =
    let shorter = length-drop (min (length r.outbox) max_batch) r.outbox in
    elim (Bool-cases (is_accepted (answer r.posts))) [
      | inl e ↦ rw (send_round, e) (inl (refl, ground (arith, shorter, h), refl))
      | inr e ↦ elim (Bool-cases (is_refused (answer r.posts))) [
        | inl f ↦ rw (send_round, e, f) (inl (refl, ground (arith, shorter, h), refl))
        | inr f ↦
            rw (send_round, e, f) (inr (refl, (r.posts, omega arith, refl, e, f, omega arith)))
      ]
    ]

-- Why a send ended: nothing was left, it was too early to try, or its last post failed.
abbrev pub IsSettled : (ℕ → Answer) → (ℕ → ℕ) → Bool → Reporter → Reporter → Type 0
IsSettled answer clock force r t =
    (length t.outbox ≡ 0) ⊎ ((force ≡ false) × (clock t.posts < t.next_try)) ⊎ IsFailed answer r t

waiting-IsSettled :
    (answer : ℕ → Answer) (clock : ℕ → ℕ) (force : Bool) (r : Reporter)
    → is_waiting force (clock r.posts) r ≡ true
    → IsSettled answer clock force r r
unfolding is_waiting
waiting-IsSettled answer clock force r h = elim (Bool-cases (length r.outbox == 0)) [
  | inl e ↦ inl (ground (arith, e))
  | inr e ↦ inr (inl (ground (arith, h, e)))
]

-- What settled a later part settles the whole.
earlier-IsSettled :
    (answer : ℕ → Answer) (clock : ℕ → ℕ) (force : Bool) (r t u : Reporter)
    → r.posts ≤ t.posts
    → IsSettled answer clock force t u
    → IsSettled answer clock force r u
earlier-IsSettled answer clock force r t u le (inl h) = inl h
earlier-IsSettled answer clock force r t u le (inr (inl h)) = inr (inl h)
earlier-IsSettled answer clock force r t u le (inr (inr (n, from, h, a, b, c))) =
    inr (inr (n, omega arith, h, a, b, c))

send_loop-IsSettled :
    (answer : ℕ → Answer) (clock : ℕ → ℕ) (force : Bool) (fuel : ℕ) (r : Reporter)
    → length r.outbox < fuel
    → IsSettled answer clock force r (send_loop answer clock force fuel r)
unfolding send_loop
send_loop-IsSettled answer clock force zero r h = absurd (omega arith)
send_loop-IsSettled answer clock force (suc fuel) r h =
    let next = (send_round answer clock force r).0 in
    elim (Bool-cases (is_waiting force (clock r.posts) r)) [
      | inl e ↦ rw e (waiting-IsSettled answer clock force r e)
      | inr e ↦ elim (round_progress answer clock force (clock r.posts) r e) [
        | inl (go, less, more) ↦
            rw (e, go)
              (earlier-IsSettled answer clock force r next (send_loop answer clock force fuel next)
                (omega arith) (send_loop-IsSettled answer clock force fuel next (omega arith)))
        | inr (stop, failed) ↦ rw (e, stop) (inr (inr failed))
      ]
    ]

-- From a backoff that is off or within its bounds, a send to a set target goes on until the outbox
-- is empty, or it is too early to try again and the send is not forced, or its last post, made by
-- this send, got neither a 2xx nor a 400. The backoff it leaves is off, or within its bounds.
pub send_ends :
    (answer : ℕ → Answer) (clock : ℕ → ℕ) (force : Bool) (target : Target) (r : Reporter)
    → text_eq target.url (codes "") ≡ false
    → IsPaced r
    → IsSettled answer clock force r (send answer clock force target r)
      × IsPaced (send answer clock force target r)
unfolding send note_target
send_ends answer clock force target r h paced =
    rw (h, send)
      (
        send_loop-IsSettled answer clock force (suc (length r.outbox))
            (record r { last_url = target.url }) (omega arith),
        send_loop-IsPaced answer clock force (suc (length r.outbox))
            (record r { last_url = target.url }) paced,
      )
