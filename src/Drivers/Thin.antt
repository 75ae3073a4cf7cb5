-- ===== src/Drivers/Thin.antt =====
-- The device ids of the thin pool and the addresses that are derived from them (nextDevID,
-- highWaterMark, allocate and vmNet of orchestrator/internal/runtime/fc_host.go). A device id is
-- also the index of the VM's network. An address is the four numbers that the code writes, which are
-- not bounded: from the id 16384 on, the third is above 255.
use orchd.Prelude.{
  ℕ, zero, suc, ◌+◌, ◌*◌, ◌/◌, ◌%◌, ltb, leb, Text, to_lower, Bool, Option, none, some, List, [],
  ◌∷◌, take, if◌then◌else◌,
}

-- What the pool says to a device id.
pub data Answer : Type 0 where
  accepted file_exists refused : Answer

-- The writes of the counter file and the commands of dmsetup are a parameter; `offer` is the
-- operation that a caller of allocate passes, and `unmap` drops a mapping that is half made.
pub record Store : Type 1 where
  pub World : Type 0
  pub write_counter : ℕ → World → Bool × World
  pub offer : ℕ → World → Answer × World
  pub unmap : World → World

-- The counter file, read as a number that is not negative, and the device ids of the VMs and images
-- that are recorded.
pub record Pool (W : Type 0) : Type 0 where
  pub counter : ℕ
  pub used : List ℕ
  pub world : W

unfoldable pub high_water_mark : List ℕ → ℕ
high_water_mark [] = 0
high_water_mark (id ∷ ids) = let rest = high_water_mark ids in if ltb rest id then id else rest

-- The id that is next; those below 100 are reserved.
unfoldable pub free_id : List ℕ → ℕ → ℕ
free_id used counter =
    let high = high_water_mark used in
    let n = if leb counter high then high + 1 else counter in if ltb n 100 then 100 else n

module _ (st : Store) where
  -- nextDevID; `none` is a counter that could not be written
  unfoldable pub next_dev_id : Pool st.World → Option ℕ × Pool st.World
  next_dev_id p =
      let n = free_id p.used p.counter in
      let (ok, w) = st.write_counter (n + 1) p.world in
      if ok
      then (some n, record p { counter = n + 1; world = w })
      else (none, record p { world = w })

  -- What an answer means, where `later` is the result of the attempts that are left.
  abbrev pub settled :
      Answer → ℕ → Pool st.World → Option ℕ × Pool st.World → Option ℕ × Pool st.World
  settled accepted id p later = (some id, p)
  settled refused id p later = (none, p)
  settled file_exists id p later = later

  -- The attempt at one id.
  abbrev pub offered : ℕ → Pool st.World → Answer × Pool st.World
  offered id p = let (answer, w) = st.offer id p.world in (answer, record p { world = w })

  abbrev pub unmapped : Pool st.World → Pool st.World
  unmapped p = record p { world = st.unmap p.world }

  abbrev pub with_id :
      Option ℕ × Pool st.World
      → (ℕ → Pool st.World → Option ℕ × Pool st.World)
      → Option ℕ × Pool st.World
  with_id (none, p) f = (none, p)
  with_id (some id, p) f = f id p

  -- The loop of allocate, with the attempts that are left.
  unfoldable pub attempt : ℕ → Pool st.World → Option ℕ × Pool st.World
  attempt zero p = (none, p)
  attempt (suc k) p =
      with_id (next_dev_id p)
        λ id q. let (answer, t) = offered id q in settled answer id t (attempt k (unmapped t))

  unfoldable pub allocate : Pool st.World → Option ℕ × Pool st.World
  unfolding attempt
  allocate p = attempt 32 p

pub record Address : Type 0 where
  pub a : ℕ
  pub b : ℕ
  pub c : ℕ
  pub d : ℕ

-- The number of a network's address in 10.201.0.0/16.
abbrev pub address_of : ℕ → Address
address_of n = record { a = 10; b = 201; c = n / 256; d = n % 256 }

unfoldable pub ns_ip : ℕ → Address
ns_ip idx = address_of (idx * 4 + 2)

unfoldable pub host_ip : ℕ → Address
host_ip idx = address_of (idx * 4 + 1)

-- sanitizeNet, of ASCII
unfoldable pub sanitize_net : Text → Text
sanitize_net s = take 10 (to_lower s)
