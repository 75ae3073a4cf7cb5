-- ===== src/Manager/Lru.antt =====
-- What the choice of the projects to evict guarantees (orchestrator/internal/manager/eviction.go).
use orchd.Prelude.{
  ℕ, suc, zero, ◌+◌, ◌-◌, ◌≤◌, ◌<◌, ◌≡◌, refl, arith, Text, false, not, ◌||◌, List, [], ◌∷◌, leb,
  ◌==◌, if◌then◌else◌, length, length-take, drop, take, keep, map, All, Bool-cases, inl, inr,
}
use mathlib.Core.List.{Memᴰ}
use orchd.Prelude.Lists.{reverse, All-reverse}
use orchd.Prelude.Int.{ℤ, pos_part}
use orchd.Prelude.Sorting.{
  sort_by, insert_by, IsSorted, sort_by-IsSorted, length-sort_by, All-sort_by,
}
use orchd.Manager.Eviction.{Candidate, fresher, is_skipped, walk, select_lru_evictions}

-- How many of the candidates were active at `t` or later.
abbrev pub fresh_count : ℕ → List Candidate → ℕ
fresh_count t cs = length (keep (λ d. leb t d.last_active) cs)

fresh_count-insert_by :
    (t : ℕ) (c : Candidate) (cs : List Candidate)
    → fresh_count t (insert_by fresher c cs) ≡ fresh_count t (c ∷ cs)
unfolding insert_by
fresh_count-insert_by t c [] = refl
fresh_count-insert_by t c (d ∷ ds) = ground (arith, fresh_count-insert_by t c ds)

fresh_count-sort_by :
    (t : ℕ) (cs : List Candidate) → fresh_count t (sort_by fresher cs) ≡ fresh_count t cs
unfolding sort_by
fresh_count-sort_by t [] = refl
fresh_count-sort_by t (c ∷ cs) =
    ground (arith, fresh_count-insert_by t c (sort_by fresher cs), fresh_count-sort_by t cs)

sort_by-fresher-IsSorted : (cs : List Candidate) → IsSorted fresher (sort_by fresher cs)
unfolding fresher
sort_by-fresher-IsSorted cs =
    sort_by-IsSorted fresher (λ x y h. ground (arith, h)) (λ x y z h k. ground (arith, h, k)) cs

-- Counted in a sorted list, a candidate behind the first `n` has more than `n` as fresh as it.
HasFresher : ℕ → List Candidate → Candidate → Type 0
HasFresher n cs c = n < fresh_count c.last_active cs

HasFresher-behind :
    (n : ℕ) (d : Candidate) (cs xs : List Candidate)
    → All (λ c. fresher c d ≡ false) xs
    → All (HasFresher n cs) xs
    → All (HasFresher (suc n) (d ∷ cs)) xs
unfolding HasFresher fresher
HasFresher-behind n d cs [] a h = tt
HasFresher-behind n d cs (x ∷ xs) a h =
    (ground (arith, a.0, h.0), HasFresher-behind n d cs xs a.1 h.1)

All-drop : (P : Candidate → Type 0) (n : ℕ) (xs : List Candidate) → All P xs → All P (drop n xs)
All-drop P zero xs h = h
All-drop P (suc n) [] h = tt
All-drop P (suc n) (x ∷ xs) h = All-drop P n xs h.1

HasFresher-more :
    (d : Candidate) (cs xs : List Candidate)
    → All (HasFresher 0 cs) xs
    → All (HasFresher 0 (d ∷ cs)) xs
unfolding HasFresher
HasFresher-more d cs [] h = tt
HasFresher-more d cs (x ∷ xs) h = (ground (arith, h.0), HasFresher-more d cs xs h.1)

HasFresher-self : (cs : List Candidate) → All (HasFresher 0 cs) cs
unfolding HasFresher
HasFresher-self [] = tt
HasFresher-self (c ∷ cs) = (ground arith, HasFresher-more c cs cs (HasFresher-self cs))

HasFresher-drop :
    (n : ℕ) (cs : List Candidate) → IsSorted fresher cs → All (HasFresher n cs) (drop n cs)
HasFresher-drop zero cs h = HasFresher-self cs
HasFresher-drop (suc n) [] h = tt
HasFresher-drop (suc n) (c ∷ cs) h =
    HasFresher-behind n c cs (drop n cs) (All-drop _ n cs h.0) (HasFresher-drop n cs h.1)

HasFresher-sort_by :
    (n : ℕ) (cs xs : List Candidate)
    → All (HasFresher n (sort_by fresher cs)) xs
    → All (HasFresher n cs) xs
unfolding HasFresher
HasFresher-sort_by n cs [] h = tt
HasFresher-sort_by n cs (x ∷ xs) h =
    (ground (arith, h.0, fresh_count-sort_by x.last_active cs), HasFresher-sort_by n cs xs h.1)

-- The ids of the candidates that the walk may take: from the oldest on, those not skipped.
abbrev pub evictable : ℕ → ℕ → ℕ → List Candidate → List Candidate
evictable n min_age now cands =
    keep (λ c. not (is_skipped min_age now c)) (reverse (drop n (sort_by fresher cands)))

one_less : (n : ℕ) → suc (suc n) - 1 ≡ suc n
one_less n = omega arith

walk_takes :
    (min_age now room : ℕ) (cs : List Candidate)
    → walk min_age now (suc room) cs
      ≡ take (suc room) (map (λ c. c.id) (keep (λ c. not (is_skipped min_age now c)) cs))
unfolding walk
walk_takes min_age now room [] = refl
walk_takes min_age now zero (c ∷ cs) = elim (Bool-cases (is_skipped min_age now c)) [
  | inl e ↦ rw e (walk_takes min_age now zero cs)
  | inr e ↦ rw e refl
]
walk_takes min_age now (suc room) (c ∷ cs) = elim (Bool-cases (is_skipped min_age now c)) [
  | inl e ↦ rw e (walk_takes min_age now (suc room) cs)
  | inr e ↦ rw (e, one_less room, walk_takes min_age now room cs) (ground arith)
]

drop_all : (n : ℕ) (cs : List Candidate) → length cs ≤ n → drop n cs ≡ []
drop_all zero [] h = refl
drop_all (suc n) [] h = refl
drop_all zero (c ∷ cs) h = absurd (omega (arith, h))
drop_all (suc n) (c ∷ cs) h = drop_all n cs (omega (arith, h))

drop_sorted_all :
    (n : ℕ) (cs : List Candidate) → length cs ≤ n → reverse (drop n (sort_by fresher cs)) ≡ []
unfolding reverse
drop_sorted_all n cs h =
    rw (drop_all n (sort_by fresher cs) (omega (arith, h, length-sort_by fresher cs))) refl

victims_of :
    (n b min_age now : ℕ) (cands : List Candidate)
    → 0 < n
    → (if (n == 0 || b == 0) || leb (length cands) n
        then []
        else walk min_age now b (reverse (drop n (sort_by fresher cands))))
      ≡ take b (map (λ c. c.id) (evictable n min_age now cands))
victims_of n zero min_age now cands h = ground (arith, h)
victims_of n (suc b) min_age now cands h = elim (Bool-cases (leb (length cands) n)) [
  | inl e ↦ rw (e, drop_sorted_all n cands (ground (arith, e))) (ground (arith, h))
  | inr e ↦
      rw (e, ← (walk_takes min_age now b (reverse (drop n (sort_by fresher cands)))))
        (ground (arith, h))
]

-- With eviction on, the victims are exactly the first of the candidates that may go, taken from
-- the least recently active on, behind the newest `keep` ones, and as many as the batch allows;
-- an empty or negative batch takes none.
pub select_lru_evictions_lem :
    (cands : List Candidate) (keep batch : ℤ) (min_age now : ℕ)
    → 0 < pos_part keep
    → select_lru_evictions cands keep batch min_age now
      ≡ take (pos_part batch) (map (λ c. c.id) (evictable (pos_part keep) min_age now cands))
unfolding select_lru_evictions
select_lru_evictions_lem cands keep batch min_age now h =
    victims_of (pos_part keep) (pos_part batch) min_age now cands h

-- A candidate that may be evicted: it is one of the candidates, not protected, not active within
-- the minimal age, and more than `n` of the candidates were active at its time or later.
abbrev pub IsVictim : ℕ → ℕ → ℕ → List Candidate → Candidate → Type 0
IsVictim n min_age now cands c =
    Memᴰ c cands
    × (c.protected ≡ false)
    × (c.last_active + min_age ≤ now)
    × (n < fresh_count c.last_active cands)

module _ (n min_age now : ℕ) (cands : List Candidate) where
  -- An id that stands for a candidate that may be evicted.
  abbrev pub IsVictimId : Text → Type 0
  IsVictimId id = (c : Candidate) × (c.id ≡ id) × IsVictim n min_age now cands c

  ids-IsVictimId :
      (cs : List Candidate)
      → All (λ c. Memᴰ c cands × HasFresher n cands c) cs
      → All IsVictimId (map (λ c. c.id) (keep (λ c. not (is_skipped min_age now c)) cs))
  unfolding is_skipped HasFresher
  ids-IsVictimId [] h = tt
  ids-IsVictimId (c ∷ cs) h = elim (Bool-cases (is_skipped min_age now c)) [
    | inl e ↦ rw e (ids-IsVictimId cs h.1)
    | inr e ↦
        rw e
          ((c, refl, (h.0.0, ground (arith, e), ground (arith, e), h.0.1)), ids-IsVictimId cs h.1)
  ]

  take-IsVictimId : (k : ℕ) (ids : List Text) → All IsVictimId ids → All IsVictimId (take k ids)
  take-IsVictimId zero ids h = tt
  take-IsVictimId (suc k) [] h = tt
  take-IsVictimId (suc k) (i ∷ ids) h = (h.0, take-IsVictimId k ids h.1)

All-and :
    (P Q : Candidate → Type 0) (cs : List Candidate) → All P cs → All Q cs → All (λ c. P c × Q c) cs
All-and P Q [] p q = tt
All-and P Q (c ∷ cs) p q = ((p.0, q.0), All-and P Q cs p.1 q.1)

self_members :
    (cs ds : List Candidate) → ((c : Candidate) → Memᴰ c cs → Memᴰ c ds) → All (λ c. Memᴰ c ds) cs
self_members [] ds f = tt
self_members (c ∷ cs) ds f = (f c (Memᴰ.head refl), self_members cs ds (λ d m. f d (Memᴰ.tail m)))

behind :
    (n : ℕ) (cands : List Candidate)
    → All (λ c. Memᴰ c cands × HasFresher n cands c) (drop n (sort_by fresher cands))
behind n cands =
    All-and (λ c. Memᴰ c cands) (HasFresher n cands) (drop n (sort_by fresher cands))
      (All-drop _ n (sort_by fresher cands)
        (All-sort_by fresher (λ c. Memᴰ c cands) cands (self_members cands cands (λ c m. m))))
      (HasFresher-sort_by n cands _
        (HasFresher-drop n (sort_by fresher cands) (sort_by-fresher-IsSorted cands)))

none_when_off :
    (batch : ℤ) (min_age now : ℕ) (cands : List Candidate) (keep : ℤ)
    → pos_part keep ≡ 0
    → select_lru_evictions cands keep batch min_age now ≡ []
unfolding select_lru_evictions
none_when_off batch min_age now cands keep h = rw h refl

length-take_le : (n : ℕ) (ids : List Text) → length (take n ids) ≤ n
length-take_le n ids = omega (arith, length-take n ids)

-- Whatever is configured, at most a batch of projects is chosen, and each is one of the
-- candidates that is not protected, was not active within the minimal age, and has at least
-- `keep` others that were active no earlier than it.
pub select_lru_evictions-IsVictimId :
    (cands : List Candidate) (keep batch : ℤ) (min_age now : ℕ)
    → All
        (IsVictimId (pos_part keep) min_age now cands)
        (select_lru_evictions cands keep batch min_age now)
      × (length (select_lru_evictions cands keep batch min_age now) ≤ pos_part batch)
select_lru_evictions-IsVictimId cands keep batch min_age now =
    elim (Bool-cases (pos_part keep == 0)) [
      | inl e ↦
          rw (none_when_off batch min_age now cands keep (ground (arith, e))) (tt, omega arith)
      | inr e ↦ rw (select_lru_evictions_lem cands keep batch min_age now (ground (arith, e))) (
        take-IsVictimId (pos_part keep) min_age now cands (pos_part batch) _ (
            ids-IsVictimId (pos_part keep) min_age now cands _
              (All-reverse _ _ (behind (pos_part keep) cands))),
        length-take_le (pos_part batch) _,
      )
    ]
