-- ===== src/Manager/Sleep.antt =====
-- That an idle workload is put to sleep by one pass of ReapIdle
-- (orchestrator/internal/manager/manager.go).
use orchd.Prelude.{
  ℕ, ◌+◌, ◌<◌, ◌≡◌, refl, arith, ◌∙◌, Text, text_eq, text_eq_iff, Bool, true, false, not, Option,
  none, some, List, [], ◌∷◌, ◌++◌, keep, any, ◌==◌, Bool-cases, inl, inr, false≢true,
}
use orchd.Table.{Table, lookup, keys, lookup-remove_self}
use orchd.Store.Records.{Snapshot, Workload, suspended}
use orchd.Store.Query.{get_workload}
use orchd.Manager.State.{Runtime, Manager, Config, LiveInstance, is_kept_warm, forget, set_state}
use orchd.Manager.Reaper.{
  is_over, seen_at, stale_live, stale, put_to_sleep, reap_one, reap_all, reap_idle,
}
use orchd.Manager.Frames.{SameService, get_workload-set_state_self}
use orchd.Manager.Reap.{told_apart, Same, slept, put_to_sleep-SameService, reap_one-Same}

abbrev among : Text → List Text → Bool
among id ids = any (λ j. text_eq j id) ids

among-keys :
    (id : Text) (live : Table LiveInstance) {li : LiveInstance}
    → lookup id live ≡ some li
    → among id (keys live) ≡ true
unfolding lookup keys
among-keys id [] h = cc
among-keys id ((j, l) ∷ live) {li} h = ground (arith, h, among-keys id live {li = li})

among-keep :
    (p : Text → Bool) (id : Text) (ids : List Text)
    → p id ≡ true
    → among id ids ≡ true
    → among id (keep p ids) ≡ true
among-keep p id [] h k = k
among-keep p id (j ∷ js) h k = elim (Bool-cases (p j)) [
  | inl e ↦ rw e (ground (arith, k, among-keep p id js h))
  | inr e ↦
      let n : text_eq j id ≡ false = told_apart (λ x. not (p x)) id j (rw e refl) (rw h refl) in
      rw e (among-keep p id js h (ground (arith, n, k)))
]

among-append : (id : Text) (is js : List Text) → among id is ≡ true → among id (is ++ js) ≡ true
among-append id [] js h = cc
among-append id (i ∷ is) js h = ground (arith, h, among-append id is js)

module _ {D : Type 0} (rt : Runtime) (save : D → Snapshot → Option D) (cfg : Config) (now : ℕ) where
  open rt use {Host, status, suspend}

  -- Not live, and suspended in the store.
  abbrev pub IsAsleep : Text → Manager D Host → Type 0
  IsAsleep id m =
      (lookup id m.live ≡ none)
      × ((w : Workload) × (get_workload id m.store ≡ some w) × (w.state ≡ suspended))

  module _
      (suspends_one : (i j : Text) (h : Host)
        → text_eq i j ≡ false
        → status (suspend i h).1 j ≡ status h j)
      (id : Text) (suspends : (h : Host) → (suspend id h).0 ≡ true) where
    put_to_sleep-IsAsleep :
        (m : Manager D Host) (w : Workload)
        → get_workload id m.store ≡ some w
        → IsAsleep id (put_to_sleep rt save cfg now id m)
    unfolding slept forget set_state
    put_to_sleep-IsAsleep m w g =
        let s : SameService save (slept rt save cfg now id m) (put_to_sleep rt save cfg now id m) =
          put_to_sleep-SameService rt save cfg now id m (suspends m.host) in
        rw (s.live, s.workload id)
          (
            lookup-remove_self id m.live,
            (
              _,
              get_workload-set_state_self save id suspended
                  (record m { host = (suspend id m.host).1 }) g,
              refl,
            ),
          )

    reap_one-IsAsleep :
        (i : Text) (m : Manager D Host) → IsAsleep id m → IsAsleep id (reap_one rt save cfg now i m)
    unfolding reap_one
    reap_one-IsAsleep i m h = elim (Bool-cases (text_eq i id)) [
      | inl t ↦
          rw ((text_eq_iff i id).0 t) (elim (Bool-cases (is_kept_warm (get_workload id m.store))) [
            | inl e ↦ rw (e, reap_one) h
            | inr e ↦ rw (e, reap_one) (put_to_sleep-IsAsleep m h.1.0 h.1.1)
          ])
      | inr n ↦
          let s : Same rt save cfg now id m (reap_one rt save cfg now i m) =
            reap_one-Same rt save cfg now suspends_one i id m (inl n) in
          rw (s.live, s.workload) h
    ]

    reap_all-IsAsleep :
        (ids : List Text) (m : Manager D Host)
        → IsAsleep id m
        → IsAsleep id (reap_all rt save cfg now ids m)
    unfolding reap_all
    reap_all-IsAsleep [] m h = h
    reap_all-IsAsleep (i ∷ ids) m h = reap_all-IsAsleep ids _ (reap_one-IsAsleep i m h)

    reap_all-among :
        (ids : List Text) (m : Manager D Host) (w : Workload)
        → get_workload id m.store ≡ some w
        → w.keep_warm ≡ false
        → among id ids ≡ true
        → IsAsleep id (reap_all rt save cfg now ids m)
    unfolding reap_all reap_one
    reap_all-among [] m w g f h = absurd (false≢true h)
    reap_all-among (i ∷ ids) m w g f h = elim (Bool-cases (text_eq i id)) [
      | inl t ↦ rw ((text_eq_iff i id).0 t) (
          reap_all-IsAsleep ids (reap_one rt save cfg now id m)
            (rw (g, reap_one, f) (put_to_sleep-IsAsleep m w g)))
      | inr n ↦
          let s : Same rt save cfg now id m (reap_one rt save cfg now i m) =
            reap_one-Same rt save cfg now suspends_one i id m (inl n) in
          reap_all-among ids (reap_one rt save cfg now i m) w (s.workload ∙ g) f
            (ground (arith, n, h))
    ]

    -- With a driver whose suspend of one workload leaves the status of the others alone and of
    -- this one always succeeds, and with an idle timeout set: a stored workload that is not kept
    -- warm and whose live instance was last used longer ago than the timeout is, after one pass of
    -- the idle reaper, not live any more and suspended in the store.
    pub reap_idle-IsAsleep :
        (m : Manager D Host) (w : Workload) (li : LiveInstance)
        → 0 < cfg.idle_timeout
        → get_workload id m.store ≡ some w
        → w.keep_warm ≡ false
        → lookup id m.live ≡ some li
        → li.last_seen + cfg.idle_timeout < now
        → IsAsleep id (reap_idle rt save cfg now m)
    unfolding reap_idle stale stale_live
    reap_idle-IsAsleep m w li on g f l t =
        let e : (cfg.idle_timeout == 0) ≡ false = ground (arith, on) in
        rw (e, reap_idle)
          (reap_all-among (stale rt save cfg now m).1
            (record m { unowned = (stale rt save cfg now m).0 }) w g f
            (among-append id (stale_live cfg.idle_timeout now m.live) _ (
              among-keep (λ j. is_over cfg.idle_timeout now (seen_at (lookup j m.live))) id
                (keys m.live) (rw l (ground (arith, t))) (among-keys id m.live {li = li} l))))
