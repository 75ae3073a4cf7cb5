-- ===== src/Drivers/Admission.antt =====
-- How many microVMs run at once: FirecrackerConfig.defaults, countLive, admit, admitDone and the
-- part of spawn between them (orchestrator/internal/runtime/firecracker.go). Spawns run at the same
-- time, so their steps interleave; a step is what one of them does under its lock.
use orchd.Prelude.{
  ℕ, ◌+◌, ◌-◌, ◌/◌, ◌≤◌, ◌<◌, ◌≡◌, ◌==◌, ltb, leb, ◌&&◌, Option, some, none, if◌then◌else◌,
}

-- The sizes of FirecrackerConfig.
pub record FcConfig : Type 0 where
  pub volume_gib : ℕ
  pub vcpu_count : ℕ
  pub mem_size_mib : ℕ
  pub guest_port : ℕ
  pub agent_port : ℕ
  pub max_live : ℕ

abbrev pub or_default : ℕ → ℕ → ℕ
or_default n d = if n == 0 then d else n

-- The cap that fits half of the host's memory, and at least 4; `total` is hostMemMiB().
unfoldable pub derived_max_live : ℕ → ℕ → ℕ
derived_max_live total mem =
    let fitting = if ltb 0 total && ltb 0 mem then (total / 2) / mem else 0 in
    if ltb fitting 4 then 4 else fitting

unfoldable pub defaults : ℕ → FcConfig → FcConfig
unfolding derived_max_live
defaults total c =
    let mem = or_default c.mem_size_mib 3072 in
    record {
      volume_gib = or_default c.volume_gib 8;
      vcpu_count = or_default c.vcpu_count 4;
      mem_size_mib = mem;
      guest_port = or_default c.guest_port 8080;
      agent_port = or_default c.agent_port 9000;
      max_live = if c.max_live == 0 then derived_max_live total mem else c.max_live;
    }

-- The VMMs that run under the pid that is recorded for their ref, the spawns that hold a slot
-- (pendingSpawns), the VMMs that were started and whose slot was given back but whose pid is not on
-- disk yet, and the VMMs that still run although the pid of a later one was recorded for their ref.
pub record Slots : Type 0 where
  pub recorded : ℕ
  pub pending : ℕ
  pub unrecorded : ℕ
  pub replaced : ℕ

-- countLive, where `own` is 1 if the excluded ref has a VMM under its recorded pid, and else 0
unfoldable pub count_live : ℕ → Slots → ℕ
count_live own s = s.recorded - own

-- One turn of admit's loop; `none` is a wait.
unfoldable pub admit : ℕ → ℕ → Slots → Option Slots
unfolding count_live
admit cap own s =
    if leb cap 0
    then some s
    else if ltb (count_live own s + s.pending) cap
    then some (record s { pending = s.pending + 1 })
    else none

unfoldable pub admit_done : Slots → Slots
admit_done s = if ltb 0 s.pending then record s { pending = s.pending - 1 } else s

-- cmd.Start: m.PID is set and the slot given back.
unfoldable pub started : Slots → Slots
unfolding admit_done
started s = record (admit_done s) { unrecorded = s.unrecorded + 1 }

-- The saveMeta after it, which takes the place of the ref's earlier pid.
unfoldable pub recorded : ℕ → Slots → Slots
recorded own s = record s {
  recorded = (s.recorded - own) + 1;
  unrecorded = s.unrecorded - 1;
  replaced = s.replaced + own;
}

-- The VMMs that an admission for a ref does not count.
abbrev pub unseen : ℕ → Slots → ℕ
unseen own s = own + s.unrecorded + s.replaced

-- What one spawn does, or the end of a VMM; `window` bounds the VMMs that the admissions do not
-- count.
pub data Step (cap window : ℕ) (s t : Slots) : Type 0 where
  admits :
      (own : ℕ)
      → own ≤ s.recorded
      → unseen own s ≤ window
      → admit cap own s ≡ some t
      → Step cap window s t
  fails : t ≡ admit_done s → Step cap window s t
  starts : 0 < s.pending → t ≡ started s → Step cap window s t
  records :
      (own : ℕ) → own ≤ s.recorded → 0 < s.unrecorded → t ≡ recorded own s → Step cap window s t
  ends : 0 < s.recorded → t ≡ record s { recorded = s.recorded - 1 } → Step cap window s t
  ends_replaced : 0 < s.replaced → t ≡ record s { replaced = s.replaced - 1 } → Step cap window s t

pub data Reach (cap window : ℕ) (s : Slots) : Slots → Type 0 where
  here : Reach cap window s s
  next : {t u : Slots} → Reach cap window s t → Step cap window t u → Reach cap window s u

-- The VMMs, with those that may still be started.
abbrev pub load : Slots → ℕ
load s = s.recorded + s.pending + s.unrecorded + s.replaced

abbrev pub idle : Slots
idle = record { recorded = 0; pending = 0; unrecorded = 0; replaced = 0 }
