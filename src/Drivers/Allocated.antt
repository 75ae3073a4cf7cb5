-- ===== src/Drivers/Allocated.antt =====
-- What a device id that was allocated is worth (orchestrator/internal/runtime/fc_host.go).
use orchd.Prelude.{
  ℕ, zero, suc, ◌+◌, ◌*◌, ◌/◌, ◌%◌, ◌≤◌, ◌<◌, ◌≡◌, ◌≢◌, refl, ◌∙◌, ap, sym, subst, arith, true,
  false, Option, none, some, List, [], ◌∷◌, All, Bool-cases, inl, inr,
}
use orchd.Drivers.Thin.{
  Answer, accepted, file_exists, refused, Store, Pool, high_water_mark, free_id, next_dev_id,
  settled, offered, unmapped, with_id, attempt, allocate, Address, address_of, ns_ip, host_ip,
}

All-le : (ids : List ℕ) (n m : ℕ) → n ≤ m → All (λ id. id ≤ n) ids → All (λ id. id ≤ m) ids
All-le [] n m h a = tt
All-le (id ∷ ids) n m h a = (omega arith, All-le ids n m h a.1)

high_water_mark-le :
    (id : ℕ) (ids : List ℕ)
    → (id ≤ high_water_mark (id ∷ ids)) × (high_water_mark ids ≤ high_water_mark (id ∷ ids))
unfolding high_water_mark
high_water_mark-le id ids = ground arith

high_water_mark-All : (ids : List ℕ) → All (λ id. id ≤ high_water_mark ids) ids
high_water_mark-All [] = tt
high_water_mark-All (id ∷ ids) =
    let (own, rest) = high_water_mark-le id ids in
    (
      own,
      All-le ids (high_water_mark ids) (high_water_mark (id ∷ ids)) rest (high_water_mark-All ids),
    )

All-lt : (ids : List ℕ) (n m : ℕ) → n < m → All (λ id. id ≤ n) ids → All (λ id. id < m) ids
All-lt [] n m h a = tt
All-lt (id ∷ ids) n m h a = (omega arith, All-lt ids n m h a.1)

free_id-gt : (used : List ℕ) (counter : ℕ) → high_water_mark used < free_id used counter
unfolding free_id
free_id-gt used counter = ground arith

free_id-ge :
    (used : List ℕ) (counter : ℕ) → (counter ≤ free_id used counter) × (100 ≤ free_id used counter)
unfolding free_id
free_id-ge used counter = ground arith

-- An id above every recorded one, above the reserved ones and not below the counter.
pub record IsFreshId (counter : ℕ) (used : List ℕ) (id : ℕ) : Type 0 where
  pub unused : All (λ other. other < id) used
  pub unreserved : 100 ≤ id
  pub later : counter ≤ id

free_id-IsFreshId : (used : List ℕ) (counter : ℕ) → IsFreshId counter used (free_id used counter)
free_id-IsFreshId used counter = record {
  unused =
      All-lt used (high_water_mark used) (free_id used counter) (free_id-gt used counter)
        (high_water_mark-All used);
  unreserved = (free_id-ge used counter).1;
  later = (free_id-ge used counter).0;
}

address_of-eq : (n m : ℕ) → address_of n ≡ address_of m → n ≡ m
address_of-eq n m e =
    let high : n / 256 ≡ m / 256 = ap (λ (x : Address). x.c) e in
    let low : n % 256 ≡ m % 256 = ap (λ (x : Address). x.d) e in omega arith

-- Four numbers of eight bits.
abbrev pub IsAddress : Address → Type 0
IsAddress x = (x.a < 256) × (x.b < 256) × (x.c < 256) × (x.d < 256)

address_of-IsAddress : (n : ℕ) → n < 65536 → IsAddress (address_of n)
address_of-IsAddress n h = (omega arith, omega arith, omega arith, omega arith)

-- Two networks have no address in common, neither inside a namespace nor on the host.
pub record IsApart (id other : ℕ) : Type 0 where
  pub inside : ns_ip id ≢ ns_ip other
  pub outside : host_ip id ≢ host_ip other
  pub inside_outside : ns_ip id ≢ host_ip other
  pub outside_inside : host_ip id ≢ ns_ip other

lt-IsApart : (id other : ℕ) → other < id → IsApart id other
unfolding ns_ip host_ip
lt-IsApart id other h = record {
  inside = λ e. let q = address_of-eq (id * 4 + 2) (other * 4 + 2) e in omega arith;
  outside = λ e. let q = address_of-eq (id * 4 + 1) (other * 4 + 1) e in omega arith;
  inside_outside = λ e. let q = address_of-eq (id * 4 + 2) (other * 4 + 1) e in omega arith;
  outside_inside = λ e. let q = address_of-eq (id * 4 + 1) (other * 4 + 2) e in omega arith;
}

All-IsApart : (id : ℕ) (ids : List ℕ) → All (λ other. other < id) ids → All (IsApart id) ids
All-IsApart id [] h = tt
All-IsApart id (other ∷ ids) h = (lt-IsApart id other h.0, All-IsApart id ids h.1)

module _ (st : Store) where
  abbrev IfGiven : (ℕ → Pool st.World → Type 0) → Option ℕ × Pool st.World → Type 0
  IfGiven P r = elim r.0 [ none ↦ Unit | some id ↦ P id r.1 ]

  -- The id is fresh, and the counter is past it.
  abbrev pub IsGiven : Pool st.World → ℕ → Pool st.World → Type 0
  IsGiven p id q = IsFreshId p.counter p.used id × ((q.counter ≡ id + 1) × (q.used ≡ p.used))

  settled-IsGiven :
      (p q : Pool st.World) (answer : Answer) (later : Option ℕ × Pool st.World)
      → q.counter ≡ free_id p.used p.counter + 1
      → q.used ≡ p.used
      → IfGiven (IsGiven q) later
      → IfGiven (IsGiven p) (settled st answer (free_id p.used p.counter) q later)
  settled-IsGiven p q accepted later c u h = (free_id-IsFreshId p.used p.counter, (c, u))
  settled-IsGiven p q refused later c u h = tt
  settled-IsGiven p q file_exists (none, t) c u h = tt
  settled-IsGiven p q file_exists (some id, t) c u (fresh, (past, same)) =
      let after : free_id p.used p.counter + 1 ≤ id = rw (← c) fresh.later in
      let from = (free_id-ge p.used p.counter).0 in
      (
        record {
          unused = rw (← u) fresh.unused;
          unreserved = fresh.unreserved;
          later = omega arith;
        },
        (past, same ∙ u),
      )

  -- The pool after an id was taken.
  abbrev taken : Pool st.World → Pool st.World
  taken p = record p {
    counter = free_id p.used p.counter + 1;
    world = (st.write_counter (free_id p.used p.counter + 1) p.world).1;
  }

  next_dev_id-some :
      (p : Pool st.World)
      → (st.write_counter (free_id p.used p.counter + 1) p.world).0 ≡ true
      → next_dev_id st p ≡ (some (free_id p.used p.counter), taken p)
  unfolding next_dev_id
  next_dev_id-some p e = rw (e, next_dev_id) refl

  next_dev_id-none :
      (p : Pool st.World)
      → (st.write_counter (free_id p.used p.counter + 1) p.world).0 ≡ false
      → next_dev_id st p ≡ (none, record p { world = (taken p).world })
  unfolding next_dev_id
  next_dev_id-none p e = rw (e, next_dev_id) refl

  abbrev step : ℕ → ℕ → Pool st.World → Option ℕ × Pool st.World
  step k id q =
      let (answer, t) = offered st id q in settled st answer id t (attempt st k (unmapped st t))

  attempt-IsGiven : (k : ℕ) (p : Pool st.World) → IfGiven (IsGiven p) (attempt st k p)
  unfolding attempt
  attempt-IsGiven zero p = tt
  attempt-IsGiven (suc k) p =
      elim (Bool-cases (st.write_counter (free_id p.used p.counter + 1) p.world).0) [
        | inr e ↦
            subst (λ r. IfGiven (IsGiven p) (with_id st r (step k))) (sym (next_dev_id-none p e)) tt
        | inl e ↦
            let (answer, q) = offered st (free_id p.used p.counter) (taken p) in
            subst (λ r. IfGiven (IsGiven p) (with_id st r (step k))) (sym (next_dev_id-some p e))
              (settled-IsGiven p q answer (attempt st k (unmapped st q)) refl refl
                (attempt-IsGiven k (unmapped st q)))
      ]

  -- A device id that allocate gives is above every id that a VM or an image is recorded with, above
  -- the reserved ones and not below the counter, and the counter is past it: so the next one is another.
  pub allocate-IsGiven :
      (p : Pool st.World) (id : ℕ) → (allocate st p).0 ≡ some id → IsGiven p id (allocate st p).1
  unfolding allocate
  allocate-IsGiven p id e = given_some (allocate st p) e (attempt-IsGiven 32 p)
    where
      given_some :
          (r : Option ℕ × Pool st.World) → r.0 ≡ some id → IfGiven (IsGiven p) r → IsGiven p id r.1
      given_some r q h = rw q at h

  -- The addresses of a VM whose device id allocate gave, which is below 16384: they are addresses,
  -- each number below 256, and no VM that is recorded has one of them, whatever the counter file says.
  pub allocate-IsApart :
      (p : Pool st.World) (id : ℕ)
      → (allocate st p).0 ≡ some id
      → id < 16384
      → (IsAddress (ns_ip id) × IsAddress (host_ip id)) × All (IsApart id) p.used
  unfolding ns_ip host_ip
  allocate-IsApart p id e h = (
    (
      address_of-IsAddress (id * 4 + 2) (omega arith),
      address_of-IsAddress (id * 4 + 1) (omega arith),
    ),
    All-IsApart id p.used (allocate-IsGiven p id e).0.unused,
  )
