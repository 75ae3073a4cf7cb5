-- ===== src/Drivers/Machine.antt =====
-- The state of FirecrackerDriver (orchestrator/internal/runtime/firecracker.go) and the machine
-- below it. The commands that the driver runs (ip, dmsetup, mount, rsync, zstd), the kernel's
-- processes and the API of a VMM are the parameter `Machine`: each takes the state of the world to
-- the next one, and says whether it succeeded.
use orchd.Prelude.{ℕ, Text, Bool, true, false, ◌||◌, Option, none, some}
use orchd.Table.{Table, lookup, insert}

pub record VmMeta : Type 0 where
  pub ref : Text
  pub dev_id : ℕ
  pub net_idx : ℕ
  pub image : Text
  pub pid : ℕ
  pub ephemeral : Bool
  pub deps : Text

-- The part of Spec that the driver reads itself; `prepare` reads the rest.
pub record FcSpec : Type 0 where
  pub ref : Text
  pub image : Text
  pub ephemeral : Bool
  pub deps_host_dir : Text

-- What the driver asks of a VMM over its socket.
pub data ApiCall : Type 0 where
  pause resume create_snapshot load_snapshot : ApiCall
  put : Text → ApiCall

pub record Machine : Type 1 where
  pub World : Type 0
  -- pidAlive
  pub is_alive : World → ℕ → Bool
  -- instanceState(ref) is "Paused"
  pub is_paused : World → Text → Bool
  pub api : Text → ApiCall → World → Bool × World
  -- the kill of a process and the wait for its end
  pub kill : ℕ → World → World
  -- admit
  pub admit : Text → World → Bool × World
  pub admit_done : World → World
  -- the mapping of the volume and the link to it
  pub attach : VmMeta → World → Bool × World
  -- ensureDepsActive and the link to it; `none` is a failed link
  pub attach_deps : Text → World → Option Bool × World
  -- the log, the namespace and the start of the VMM; its pid
  pub launch : VmMeta → World → Option ℕ × World
  pub wait_socket : Text → World → Bool × World
  -- the write of meta.json
  pub write_meta : VmMeta → World → Bool × World
  -- waitHTTP on the address of the VM
  pub wait_http : VmMeta → World → Bool × World
  -- zstd on the memory file, and its inverse
  pub has_zstd : World → Bool
  pub compress : Text → World → Bool × World
  pub decompress : Text → World → Bool × World
  -- imageMeta: the warm volume of an image
  pub warm_volume : World → Text → Option ℕ
  pub make_dir : Text → World → Bool × World
  -- the clone of a volume under a fresh device id
  pub clone : Text → ℕ → World → Option ℕ × World
  -- ensureDepsVolume; the empty name where there is none
  pub deps_volume : Text → World → Text × World
  -- ensureGuestBoot and prepareGuest
  pub ensure_guest : VmMeta → FcSpec → World → World
  pub prepare : VmMeta → FcSpec → World → Bool × World
  -- whether a boot may begin: its place in bootSem came before the caller's deadline
  pub turn : World → Bool × World
  -- the namespace and the volume of a VM given back
  pub release : VmMeta → World → World
  pub remove_dir : Text → World → World
  pub address : ℕ → Text

-- The files of a memory snapshot: snap.mem, snap.mem.zst and snap.state.
pub record SnapFiles : Type 0 where
  pub mem : Bool
  pub zst : Bool
  pub vm_state : Bool

abbrev pub no_files : SnapFiles
no_files = record { mem = false; zst = false; vm_state = false }

abbrev pub files_or_none : Option SnapFiles → SnapFiles
files_or_none none = no_files
files_or_none (some f) = f

-- The loaded metas (each is also on disk), the snapshots on disk, and the rest of the world.
pub record FcHost (W : Type 0) : Type 0 where
  pub idx : Table VmMeta
  pub snaps : Table SnapFiles
  pub world : W

-- A result and the state after it; `none` is an error.
abbrev pub Outcome : Type 0 → Type 0 → Type 0
Outcome W A = Option A × FcHost W

abbrev pub Action : Type 0 → Type 0 → Type 0
Action W A = FcHost W → Outcome W A

-- What follows a step is skipped when the step fails.
abbrev pub next : {W A B : Type 0} → Outcome W A → (A → Action W B) → Outcome W B
next (none, h) f = (none, h)
next (some a, h) f = f a h

infixl 5 ◌>>=◌
abbrev pub ◌>>=◌ : {W A B : Type 0} → Action W A → (A → Action W B) → Action W B
(c >>= f) h = next (c h) f

-- What is done instead when a step failed.
abbrev pub recover : {W A : Type 0} → Outcome W A → Action W A → Outcome W A
recover (none, h) f = f h
recover (some a, h) f = (some a, h)

abbrev pub pure : {W A : Type 0} → A → Action W A
pure a h = (some a, h)

-- A step of the world that gives a value, or none.
abbrev pub ask : {W A : Type 0} → (W → Option A × W) → Action W A
ask op h = let r = op h.world in (r.0, record h { world = r.1 })

abbrev pub tested : Bool → Option {0} Unit
tested true = some tt
tested false = none

-- A step of the world that succeeds or fails.
abbrev pub run : {W : Type 0} → (W → Bool × W) → Action W Unit
run op h = let r = op h.world in (tested r.0, record h { world = r.1 })

module _ {W : Type 0} where
  -- the files of snapPath(ref, …)
  unfoldable pub snapshot_of : Text → FcHost W → SnapFiles
  snapshot_of ref h = files_or_none (lookup ref h.snaps)

  unfoldable pub has_snapshot : Text → FcHost W → Bool
  has_snapshot ref h = (snapshot_of ref h).mem || (snapshot_of ref h).zst

  unfoldable pub drop_snapshot : Text → FcHost W → FcHost W
  drop_snapshot ref h = record h { snaps = insert ref no_files h.snaps }
