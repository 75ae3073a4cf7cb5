-- ===== src/Metering/Conserve.antt =====
-- Nothing that the meter counts is lost or counted twice
-- (orchestrator/internal/metering/meter.go).
use orchd.Prelude.{
  ℕ, zero, suc, ◌<◌, Text, text_eq, ◌≡◌, refl, sym, ap, ◌∙◌, true, ◌&&◌, Option, none, some, List,
  [], ◌∷◌, ◌++◌, map, arith, ◌==◌, get_or, set, length, Bool-cases, Option-cases, length-set, inl,
  inr,
}
use orchd.Table.{lookup, insert, remove_if}
use orchd.Metering.Counters.{Counters, zero_counters, ◌⊕◌, ⊕_comm, ⊕_assoc, ⊕-zero}
use orchd.Metering.Meter.{
  Bucket, bucket_key, Shard, Conn, Meter, shard_count, shard_of, open_bucket, add_to, add,
  conn_counters, book, book_all, ripe, unripe, ripe_all, drain_limit, live_minute, drain, swapped,
}

-- The sum over a list of buckets, over a shard, over all shards.
unfoldable pub sum_buckets : List Bucket → Counters
sum_buckets [] = zero_counters
sum_buckets (b ∷ bs) = b.counters ⊕ sum_buckets bs

unfoldable pub sum_shard : Shard → Counters
sum_shard [] = zero_counters
sum_shard ((k, b) ∷ s) = b.counters ⊕ sum_shard s

unfoldable pub sum_shards : List Shard → Counters
sum_shards [] = zero_counters
sum_shards (s ∷ ss) = sum_shard s ⊕ sum_shards ss

unfoldable pub sum_conns : List Conn → Counters
sum_conns [] = zero_counters
sum_conns (c ∷ cs) = conn_counters c ⊕ sum_conns cs

swap_right : (a b c : Counters) → a ⊕ b ⊕ c ≡ a ⊕ c ⊕ b
swap_right a b c = ⊕_assoc a b c ∙ (ap (λ t. a ⊕ t) (⊕_comm b c) ∙ sym (⊕_assoc a c b))

⊕-zero_left : (a c : Counters) → a ⊕ (zero_counters ⊕ c) ≡ a ⊕ c
unfolding ◌⊕◌
⊕-zero_left a c = ground arith

zero-⊕ : (a c : Counters) → zero_counters ⊕ (a ⊕ c) ≡ a ⊕ c
unfolding ◌⊕◌
zero-⊕ a c = ground arith

sum-insert_new :
    (k : Text) (b : Bucket) (c : Counters) (s : Shard)
    → lookup k s ≡ none
    → sum_shard (insert k (record b { counters = zero_counters ⊕ c }) s) ≡ sum_shard s ⊕ c
unfolding sum_shard insert lookup
sum-insert_new k b c [] e = ⊕-zero zero_counters c
sum-insert_new k b c ((j, w) ∷ s) e = elim (Bool-cases (text_eq j k)) [
  | inl t ↦ absurd (ground arith)
  | inr f ↦ rw f (
      ap (λ t. w.counters ⊕ t) (sum-insert_new k b c s (rw f at e))
      ∙ sym (⊕_assoc w.counters (sum_shard s) c))
]

sum-insert_old :
    (k : Text) (b : Bucket) (c : Counters) (s : Shard)
    → lookup k s ≡ some b
    → sum_shard (insert k (record b { counters = b.counters ⊕ c }) s) ≡ sum_shard s ⊕ c
unfolding sum_shard insert lookup
sum-insert_old k b c [] e = absurd (ground arith)
sum-insert_old k b c ((j, w) ∷ s) e = elim (Bool-cases (text_eq j k)) [
  | inl t ↦
      rw t (swap_right b.counters c (sum_shard s) ∙ ap (λ v. v ⊕ sum_shard s ⊕ c) (ground arith))
  | inr f ↦ rw f (
      ap (λ t. w.counters ⊕ t) (sum-insert_old k b c s (rw f at e))
      ∙ sym (⊕_assoc w.counters (sum_shard s) c))
]

sum-add_to :
    (minute : ℕ) (workload project : Text) (c : Counters) (s : Shard)
    → sum_shard (add_to minute workload project c s) ≡ sum_shard s ⊕ c
unfolding add_to open_bucket
sum-add_to minute workload project c s =
    elim (Option-cases (lookup (bucket_key minute workload) s)) [
      | inl e ↦
          rw (e, add_to)
            (sum-insert_new (bucket_key minute workload)
              (record { minute = minute; workload = workload; project = project; counters = c }) c s
              e)
      | inr (b, e) ↦ rw (e, add_to) (sum-insert_old (bucket_key minute workload) b c s e)
    ]

sum-set :
    (ss : List Shard) (i : ℕ) (s : Shard) (c : Counters)
    → i < length ss
    → sum_shard s ≡ sum_shard (get_or ss i []) ⊕ c
    → sum_shards (set ss i s) ≡ sum_shards ss ⊕ c
unfolding sum_shards
sum-set [] i s c h e = absurd (omega arith)
sum-set (t ∷ ts) zero s c h e =
    ap (λ v. v ⊕ sum_shards ts) e ∙ swap_right (sum_shard t) c (sum_shards ts)
sum-set (t ∷ ts) (suc i) s c h e =
    ap (λ v. sum_shard t ⊕ v) (sum-set ts i s c (omega arith) e)
    ∙ sym (⊕_assoc (sum_shard t) (sum_shards ts) c)

shard_of-lt : (workload : Text) → shard_of workload < shard_count
unfolding shard_of
shard_of-lt workload = omega arith

-- What the meter holds, hijacked connections left out.
abbrev pub total : Meter → Counters
total m = sum_shards m.shards

abbrev pub HasShards : Meter → Type 0
HasShards m = length m.shards ≡ shard_count

-- In a meter with all its shards, every count lands in exactly one bucket: the total grows by the
-- counters added, and the shards stay all there.
pub total-add :
    (minute : ℕ) (workload project : Text) (c : Counters) (m : Meter)
    → HasShards m
    → (total (add minute workload project c m) ≡ total m ⊕ c)
      × HasShards (add minute workload project c m)
unfolding add
total-add minute workload project c m h = (
  sum-set m.shards (shard_of workload) _ c (omega (arith, shard_of-lt workload))
      (sum-add_to minute workload project c (get_or m.shards (shard_of workload) [])),
  length-set m.shards (shard_of workload) _ ∙ h,
)

sum_shards-zero : (ss : List Shard) → sum_shards ss ⊕ zero_counters ≡ sum_shards ss
unfolding sum_shards
sum_shards-zero [] = unfold ◌⊕◌ in refl
sum_shards-zero (s ∷ ss) = ⊕-zero (sum_shard s) (sum_shards ss)

sum_conns-zero : (cs : List Conn) → sum_conns cs ⊕ zero_counters ≡ sum_conns cs
unfolding sum_conns
sum_conns-zero [] = unfold ◌⊕◌ in refl
sum_conns-zero (c ∷ cs) = ⊕-zero (conn_counters c) (sum_conns cs)

idle_conn :
    (c : Conn) → (c.bytes_in == 0 && c.bytes_out == 0) ≡ true → conn_counters c ≡ zero_counters
unfolding conn_counters
idle_conn c h = ground arith

pub total-book :
    (minute : ℕ) (c : Conn) (m : Meter)
    → HasShards m
    → (total (book minute c m) ≡ total m ⊕ conn_counters c) × HasShards (book minute c m)
unfolding book
total-book minute c m h = elim (Bool-cases (c.bytes_in == 0 && c.bytes_out == 0)) [
  | inl e ↦
      rw (e, book) (sym (sum_shards-zero m.shards) ∙ ap (λ v. total m ⊕ v) (sym (idle_conn c e)), h)
  | inr e ↦ rw (e, book) (total-add minute c.workload c.project (conn_counters c) m h)
]

total-book_all :
    (minute : ℕ) (cs : List Conn) (m : Meter)
    → HasShards m
    → (total (book_all minute cs m) ≡ total m ⊕ sum_conns cs) × HasShards (book_all minute cs m)
unfolding book_all sum_conns
total-book_all minute [] m h = (sym (sum_shards-zero m.shards), h)
total-book_all minute (c ∷ cs) m h =
    let (now, kept) = total-book minute c m h in
    let (rest, held) = total-book_all minute cs (book minute c m) kept in
    (
      rest ∙ (ap (λ v. v ⊕ sum_conns cs) now ∙ ⊕_assoc (total m) (conn_counters c) (sum_conns cs)),
      held,
    )

sum-ripe :
    (limit : ℕ) (s : Shard) → sum_buckets (ripe limit s) ⊕ sum_shard (unripe limit s) ≡ sum_shard s
unfolding sum_buckets sum_shard ripe unripe remove_if
sum-ripe limit [] = unfold ◌⊕◌ in refl
sum-ripe limit ((k, b) ∷ s) =
    let out = sum_buckets (ripe limit s) in
    let left = sum_shard (unripe limit s) in
    ground (
      arith,
      sum-ripe limit s,
      ⊕_assoc b.counters out left,
      ⊕_assoc out b.counters left,
      swap_right out b.counters left,
      ⊕_comm (sum_shard s) b.counters,
    )

sum_buckets-append :
    (bs cs : List Bucket) (c : Counters)
    → sum_buckets (bs ++ cs) ⊕ c ≡ sum_buckets bs ⊕ (sum_buckets cs ⊕ c)
unfolding sum_buckets
sum_buckets-append [] cs c = sym (zero-⊕ (sum_buckets cs) c)
sum_buckets-append (b ∷ bs) cs c = cc (
  ⊕_assoc b.counters (sum_buckets (bs ++ cs)) c,
  sum_buckets-append bs cs c,
  ⊕_assoc b.counters (sum_buckets bs) (sum_buckets cs ⊕ c),
)

sum-ripe_all :
    (limit : ℕ) (ss : List Shard)
    → sum_buckets (ripe_all limit ss) ⊕ sum_shards (map (unripe limit) ss) ≡ sum_shards ss
unfolding ripe_all sum_buckets sum_shards
sum-ripe_all limit [] = unfold ◌⊕◌ in refl
sum-ripe_all limit (s ∷ ss) =
    let r = sum_buckets (ripe limit s) in
    let rs = sum_buckets (ripe_all limit ss) in
    let u = sum_shard (unripe limit s) in
    let us = sum_shards (map (unripe limit) ss) in
    cc (
      sum_buckets-append (ripe limit s) (ripe_all limit ss) (u ⊕ us),
      ⊕_assoc rs u us,
      ⊕_comm rs u,
      ⊕_assoc u rs us,
      ⊕_assoc r u (rs ⊕ us),
      sum-ripe limit s,
      sum-ripe_all limit ss,
    )

-- The meter's connections after a drain have nothing left to book.
sum_conns-swapped : (cs : List Conn) → sum_conns (map swapped cs) ≡ zero_counters
unfolding sum_conns swapped conn_counters
sum_conns-swapped [] = refl
sum_conns-swapped (c ∷ cs) = rw (sum_conns-swapped cs) (unfold ◌⊕◌ in refl)

live-book_all : (minute : ℕ) (cs : List Conn) (m : Meter) → (book_all minute cs m).live ≡ m.live
unfolding book_all book add
live-book_all minute [] m = refl
live-book_all minute (c ∷ cs) m = ground (arith, live-book_all minute cs (book minute c m))

-- In a meter with all its shards, what a drain returns and what it leaves add up to what the meter held and what the hijacked
-- connections had carried since the last drain, which then have nothing left to book.
pub drain_conserves :
    (before : Option ℕ) (now : ℕ) (m : Meter)
    → HasShards m
    → (sum_buckets (drain before now m).0 ⊕ total (drain before now m).1
        ≡ total m ⊕ sum_conns m.live)
      × (sum_conns (drain before now m).1.live ≡ zero_counters)
unfolding drain
drain_conserves before now m h =
    let minute = live_minute before now in
    let start = record m { live = map swapped m.live } in
    (
      sum-ripe_all (drain_limit before) (book_all minute m.live start).shards
          ∙ (total-book_all minute m.live start h).0,
      rw (live-book_all minute m.live start) (sum_conns-swapped m.live),
    )
