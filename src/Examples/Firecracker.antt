-- ===== src/Examples/Firecracker.antt =====
-- One microVM on a machine whose only VMM has the pid 7.
use orchd.Prelude.{
  ℕ, ◌==◌, not, ◌≡◌, refl, Text, codes, text_eq, lower, to_lower, All, if◌then◌else◌, Bool, true,
  false, ◌&&◌, none, some, [], ◌∷◌, arith,
}
use orchd.Table.{lookup, insert}
use orchd.Store.Records.{running}
use orchd.Drivers.Machine.{
  VmMeta, FcSpec, ApiCall, pause, resume, Machine, FcHost, has_snapshot, snapshot_of,
}
use orchd.Drivers.Firecracker.{
  is_up, status, start, start_known, start_down, start_up, spawn, admitted, launched, with_deps,
  save_meta, kill, boot, resume_paused, suspend, take_snapshot, stop,
}
use orchd.Drivers.After.{After}
use orchd.Drivers.Booted.{IsMachine}
use orchd.Drivers.Started.{IsFresh, IsRunning, start-IsFresh, start-IsRunning}
use orchd.Drivers.Admission.{
  FcConfig, admit, count_live, admit_done, started, recorded, Reach, here, next, admits, starts,
  records, idle,
}
use orchd.Drivers.Thin.{
  Store, Pool, file_exists, accepted, high_water_mark, free_id, next_dev_id, attempt, allocate,
  ns_ip, host_ip, sanitize_net,
}
use orchd.Drivers.Allocated.{IsAddress, IsApart, allocate-IsApart}
use orchd.Drivers.Suspended.{IsLeft, suspend-IsLeft, stop-IsLeft}

record Box : Type 0 where
  alive : Bool
  paused : Bool
  -- whether the socket of a VMM appears
  opens : Bool

abbrev answer : Text → ApiCall → Box → Bool × Box
answer ref pause b = (b.alive, record b { paused = true })
answer ref resume b = (b.alive, record b { paused = false })
answer ref _ b = (b.alive, b)

abbrev machine : Machine
machine = record {
  World = Box;
  is_alive = λ b pid. b.alive && pid == 7;
  is_paused = λ b ref. b.paused;
  api = answer;
  kill = λ pid b. record b { alive = false };
  admit = λ ref b. (true, b);
  admit_done = λ b. b;
  attach = λ m b. (true, b);
  attach_deps = λ name b. (some true, b);
  launch = λ m b. (some 7, record b { alive = true; paused = false });
  wait_socket = λ ref b. (b.opens, b);
  write_meta = λ m b. (true, b);
  wait_http = λ m b. ((b.alive && m.pid == 7) && not b.paused, b);
  has_zstd = λ b. true;
  compress = λ ref b. (true, b);
  decompress = λ ref b. (true, b);
  warm_volume = λ b image. some 1;
  make_dir = λ ref b. (true, b);
  clone = λ ref warm b. (some 100, b);
  deps_volume = λ dir b. ([], b);
  ensure_guest = λ m spec b. b;
  prepare = λ m spec b. (true, b);
  turn = λ b. (true, b);
  release = λ m b. b;
  remove_dir = λ ref b. b;
  address = λ i. codes "10.201.0.6:8080";
}

machine-IsMachine : IsMachine machine
machine-IsMachine = record {
  launches = λ m w p e. ground arith;
  answers = λ m w e. ground arith;
  resumes = λ ref w e. refl;
}

abbrev meta_of : ℕ → VmMeta
meta_of pid = record {
  ref = codes "w1";
  dev_id = 100;
  net_idx = 100;
  image = codes "expo";
  pid = pid;
  ephemeral = false;
  deps = [];
}

abbrev spec : FcSpec
spec = record { ref = codes "w1"; image = codes "expo"; ephemeral = false; deps_host_dir = [] }

-- A host with the one VM, and with a snapshot of it or without.
abbrev host_of : ℕ → Box → Bool → FcHost Box
host_of pid box snap = record {
  idx = (codes "w1", meta_of pid) ∷ [];
  snaps = (codes "w1", record { mem = snap; zst = false; vm_state = snap }) ∷ [];
  world = box;
}

abbrev down : FcHost Box
down = host_of 0 (record { alive = false; paused = false; opens = true }) true

abbrev up : FcHost Box
up = host_of 7 (record { alive = true; paused = false; opens = true }) false

-- orchd ended after the snapshot and before the kill.
abbrev interrupted : FcHost Box
interrupted = host_of 7 (record { alive = true; paused = true; opens = true }) true

-- The VMM starts and its socket does not appear.
abbrev mute : FcHost Box
mute = host_of 0 (record { alive = false; paused = false; opens = false }) false

start-IsFresh_example :
    After (IsFresh machine machine-IsMachine (codes "w1")) (start machine spec down)
unfolding lookup text_eq is_up
start-IsFresh_example = start-IsFresh machine machine-IsMachine spec (meta_of 0) down refl refl refl

start-IsRunning_example :
    After (IsRunning machine machine-IsMachine (codes "w1")) (start machine spec interrupted)
unfolding lookup text_eq
start-IsRunning_example =
    start-IsRunning machine machine-IsMachine spec interrupted (λ m e. ground arith)

suspend-IsLeft_example : IsLeft machine (codes "w1") true (suspend machine (codes "w1") up).1
unfolding lookup text_eq is_up suspend take_snapshot kill save_meta
suspend-IsLeft_example = suspend-IsLeft machine machine-IsMachine (meta_of 7) up refl refl refl refl

stop-IsLeft_example : IsLeft machine (codes "w1") false (stop machine (codes "w1") up)
unfolding lookup text_eq
stop-IsLeft_example = stop-IsLeft machine (meta_of 7) up refl refl

-- A VM that was left paused is resumed, and its snapshot, which is older than its disk from then
-- on, stays.
resumed-has_snapshot : has_snapshot (codes "w1") (start machine spec interrupted).1 ≡ true
unfolding start start_known status is_up lookup text_eq start_up resume_paused has_snapshot
    snapshot_of
resumed-has_snapshot = refl

-- A start that fails since the socket did not appear leaves the process, and the status says that
-- the VM runs; so the next start gives an address.
mute-status : status machine (start machine spec mute).1 (codes "w1") ≡ running
unfolding start start_known status is_up lookup text_eq start_down has_snapshot snapshot_of boot
    spawn admitted launched with_deps save_meta insert
mute-status = refl

mute-fails : (start machine spec mute).0 ≡ none
unfolding start start_known status is_up lookup text_eq start_down has_snapshot snapshot_of boot
    spawn admitted launched with_deps save_meta insert
mute-fails = refl

abbrev sizes : FcConfig
sizes = record {
  volume_gib = 0;
  vcpu_count = 0;
  mem_size_mib = 0;
  guest_port = 0;
  agent_port = 0;
  max_live = 0;
}

-- Two VMMs that were started under the cap 1, since the slot of the first was given back before its
-- pid was on disk.
overcommitted : Reach 1 1 idle (record { recorded = 2; pending = 0; unrecorded = 0; replaced = 0 })
unfolding admit count_live started admit_done recorded
overcommitted =
    next
      (next
        (next
          (next
            (next (next here (admits 0 (omega arith) (omega arith) refl))
              (starts (ground arith) refl))
            (admits 0 (omega arith) (omega arith) refl))
          (starts (ground arith) refl))
        (records 0 (omega arith) (ground arith) refl))
      (records 0 (omega arith) (ground arith) refl)

-- A pool that holds 101 already, and a counter file that was removed.
abbrev crowded : Store
crowded = record {
  World = Unit;
  write_counter = λ n w. (true, w);
  offer = λ id w. (if id == 101 then file_exists else accepted, w);
  unmap = λ w. w;
}

abbrev pool : Pool Unit
pool = record { counter = 0; used = 100 ∷ 12 ∷ []; world = tt }

allocated : (allocate crowded pool).0 ≡ some 102
unfolding allocate attempt next_dev_id free_id high_water_mark
allocated = refl

allocate-IsApart_example :
    (IsAddress (ns_ip 102) × IsAddress (host_ip 102)) × All (IsApart 102) (100 ∷ 12 ∷ [])
allocate-IsApart_example = allocate-IsApart crowded pool 102 allocated (omega arith)

-- The first index whose address is none.
no_address : (ns_ip 16384).c ≡ 256
unfolding ns_ip
no_address = refl

shared_namespace :
    sanitize_net (codes "tpl-expo-v1-mobile") ≡ sanitize_net (codes "tpl-expo-v2-mobile")
unfolding sanitize_net to_lower lower
shared_namespace = refl
