-- ===== src/Manager/Due.antt =====
-- What is due for a backup against what the coverage says of it
-- (orchestrator/internal/manager/schedule.go).
use orchd.Prelude.{
  ℕ, ◌≡◌, ◌≤◌, refl, sym, ap, ◌∙◌, inl, inr, arith, Bool, true, false, not, ◌&&◌, Option, none,
  some, List, [], ◌∷◌, if◌then◌else◌, is_some, All, Bool-cases, false≢true,
}
use orchd.Table.{lookup}
use orchd.Store.Records.{Snapshot, Workload}
use orchd.Store.Query.{list_workloads}
use orchd.Manager.State.{Runtime}
use orchd.Manager.Vault.{
  DumpState, Backup, Vault, DumpFailure, BackupRuns, BackupConfig, Site, backs_up, dumps,
}
use orchd.Manager.Dumps.{dump_current, runs_now}
use orchd.Manager.Schedule.{
  is_within, first_backup, created_or_zero, is_recent_failure, unchanged_since_backup,
  newest_backup, checked_at, tar_due, dump_due, is_due,
}
use orchd.Manager.Coverage.{
  Cover, current, recent, stale, failed, not_backed_up, count, time_of, is_recent, state_time,
  dump_status, tar_status, cover, cover_dump, cover_tar, cover_all, coverage, BackupCoverage,
}

-- At risk: stale or failed.
abbrev pub is_at_risk : Cover → Bool
is_at_risk stale = true
is_at_risk failed = true
is_at_risk _ = false

-- dumpDue and coverDump on what they read: whether the dump is current, the last failure, whether
-- the workload runs, and its dump state.
due_cases :
    (now interval : ℕ) (c runs : Bool) (o : Option DumpState) (fl : Option DumpFailure)
    → (if c then false else if is_recent_failure now fl then false else elim o [
      | none ↦ true
      | some st ↦ if not runs then true else not (is_within now st.at interval)
    ])
      ≡ (is_at_risk (
            if c
            then current
            else if runs && is_recent now interval (state_time o)
            then recent
            else if is_some fl
            then failed
            else stale)
          && not (is_recent_failure now fl))
due_cases now interval true runs o fl = refl
due_cases now interval false false none none = refl
due_cases now interval false true none none = refl
due_cases now interval false false (some st) none = refl
due_cases now interval false true (some st) none = ground arith
due_cases now interval false false none (some fl) = ground arith
due_cases now interval false true none (some fl) = ground arith
due_cases now interval false false (some st) (some fl) = ground arith
due_cases now interval false true (some st) (some fl) = ground arith

-- Whether there is a report that says that the box can be wiped.
abbrev pub is_safe : Option BackupCoverage → Bool
is_safe none = false
is_safe (some c) = c.safe_to_wipe

module _ (v : Vault) (cfg : BackupConfig) where
  -- A database is due for a dump exactly when the coverage counts it as stale or failed and its
  -- last dump did not fail within the hour.
  pub dump_due-at_risk :
      (now : ℕ) (runs : Bool) (w : Workload) (f : v.Files) (r : BackupRuns)
      → dump_due v cfg now runs w f r ≡ (
          is_at_risk (dump_status v cfg now runs w f r)
          && not (is_recent_failure now (lookup w.id r.failed)))
  unfolding dump_due dump_status
  dump_due-at_risk now runs w f r =
      due_cases now cfg.backup_interval (dump_current v f w) runs (v.read_state f w.data_dir)
        (lookup w.id r.failed)

  -- What is remembered of a tar is no older than the newest backup in the store.
  abbrev pub IsUpToDate : Workload → v.Files → BackupRuns → Type 0
  IsUpToDate w f r = newest_backup v f w.id ≤ (checked_at v f w.id r).0

  tar_due-young :
      (now : ℕ) (w : Workload) (f : v.Files) (r : BackupRuns)
      → is_within now (checked_at v f w.id r).0 cfg.backup_interval ≡ true
      → (tar_due v cfg now w f r).0 ≡ false
  unfolding tar_due
  tar_due-young now w f r e = rw (tar_due, e) refl

  tar_due-unchanged :
      (now : ℕ) (w : Workload) (f : v.Files) (r : BackupRuns)
      → unchanged_since_backup v f w ≡ true
      → (tar_due v cfg now w f r).0 ≡ false
  unfolding tar_due
  tar_due-unchanged now w f r u =
      elim (Bool-cases (is_within now (checked_at v f w.id r).0 cfg.backup_interval)) [
        | inl e ↦ rw (tar_due, e) refl
        | inr e ↦ rw (tar_due, e, u) refl
      ]

  tar_due-old :
      (now : ℕ) (w : Workload) (f : v.Files) (r : BackupRuns)
      → (tar_due v cfg now w f r).0 ≡ true
      → (is_within now (checked_at v f w.id r).0 cfg.backup_interval ≡ false)
        × (unchanged_since_backup v f w ≡ false)
  tar_due-old now w f r d =
      elim (Bool-cases (is_within now (checked_at v f w.id r).0 cfg.backup_interval)) [
        | inl e ↦ absurd (false≢true (sym (tar_due-young now w f r e) ∙ d))
        | inr e ↦ elim (Bool-cases (unchanged_since_backup v f w)) [
          | inl u ↦ absurd (false≢true (sym (tar_due-unchanged now w f r u) ∙ d))
          | inr u ↦ (e, u)
        ]
      ]

  status_old :
      (now : ℕ) (w : Workload) (o : Option Backup)
      → is_within now (created_or_zero o) cfg.backup_interval ≡ false
      → is_at_risk (
          if is_some (time_of o) && false
          then current
          else if is_recent now cfg.backup_interval (time_of o)
          then recent
          else stale)
        ≡ true
  status_old now w none e = refl
  status_old now w (some b) e = ground (arith, e)

  tar_due-at_risk :
      (now : ℕ) (w : Workload) (f : v.Files) (r : BackupRuns)
      → IsUpToDate w f r
      → (tar_due v cfg now w f r).0 ≡ true
      → is_at_risk (tar_status v cfg now w f) ≡ true
  unfolding newest_backup tar_status
  tar_due-at_risk now w f r h d =
      let (old, changed) = tar_due-old now w f r d in
      rw (tar_status, changed) (status_old now w (first_backup (v.list f w.id)) (ground arith))

-- Lines that are counted as at risk.
count-le : (st c : Cover) (totals : Cover → ℕ) → totals c ≤ count st totals c
unfolding count
count-le st c totals = ground arith

count-at_risk :
    (st : Cover) (totals : Cover → ℕ)
    → count st totals stale ≡ 0
    → count st totals failed ≡ 0
    → is_at_risk st ≡ false
unfolding count
count-at_risk current totals h k = refl
count-at_risk recent totals h k = refl
count-at_risk not_backed_up totals h k = refl
count-at_risk stale totals h k = absurd (omega (arith, h))
count-at_risk failed totals h k = absurd (omega (arith, k))

module _ {D : Type 0} (rt : Runtime) (v : Vault) (save : D → Snapshot → Option D)
    (cfg : BackupConfig) where
  cover_all-le :
      (now : ℕ) (c : Cover) (ws : List Workload) (s : Site D rt.Host v.Files) (totals : Cover → ℕ)
      → totals c ≤ (cover_all rt v save cfg now ws s totals).0 c
  unfolding cover_all
  cover_all-le now c [] s totals = omega arith
  cover_all-le now c (w ∷ ws) s totals =
      let status =
        if backs_up cfg w.kind then (cover rt v save cfg now w s).status else not_backed_up in
      let here = count-le status c totals in
      let later = cover_all-le now c ws s (count status totals) in omega arith

  -- What a workload is to satisfy when nothing is at risk.
  abbrev pub IsSafe : ℕ → Site D rt.Host v.Files → Workload → Type 0
  IsSafe now s w =
      backs_up cfg w.kind ≡ true → is_at_risk (cover rt v save cfg now w s).status ≡ false

  cover_all-IsSafe :
      (now : ℕ) (ws : List Workload) (s : Site D rt.Host v.Files) (totals : Cover → ℕ)
      → (cover_all rt v save cfg now ws s totals).0 stale ≡ 0
      → (cover_all rt v save cfg now ws s totals).0 failed ≡ 0
      → All (IsSafe now s) ws
  unfolding cover_all
  cover_all-IsSafe now [] s totals h k = tt
  cover_all-IsSafe now (w ∷ ws) s totals h k =
      let status =
        if backs_up cfg w.kind then (cover rt v save cfg now w s).status else not_backed_up in
      let h' = cover_all-le now stale ws s (count status totals) in
      let k' = cover_all-le now failed ws s (count status totals) in
      (
        λ b.
            ap (λ x. is_at_risk (if x then (cover rt v save cfg now w s).status else not_backed_up))
              (sym b)
            ∙ count-at_risk status totals (omega arith) (omega arith),
        cover_all-IsSafe now ws s (count status totals) h k,
      )

  is_due-at_risk :
      (now : ℕ) (w : Workload) (s : Site D rt.Host v.Files)
      → IsUpToDate v cfg w s.files s.runs
      → is_at_risk (cover rt v save cfg now w s).status ≡ false
      → (is_due rt v save cfg now w s).0 ≡ false
  unfolding is_due cover cover_dump cover_tar
  is_due-at_risk now w s u h = elim (Bool-cases (dumps cfg w.kind)) [
    | inl e ↦
        let same : (cover rt v save cfg now w s).status
            ≡ dump_status v cfg now (runs_now rt v w s) w s.files s.runs =
          rw (cover, e) refl in
        rw (is_due, e)
          (dump_due-at_risk v cfg now (runs_now rt v w s) w s.files s.runs
            ∙ ap (λ b. b && not (is_recent_failure now (lookup w.id s.runs.failed)))
                (sym (ap is_at_risk same) ∙ h))
    | inr e ↦
        let same : (cover rt v save cfg now w s).status ≡ tar_status v cfg now w s.files =
          rw (cover, e) refl in
        rw (is_due, e)
          (elim (Bool-cases (tar_due v cfg now w s.files s.runs).0) [
            | inr n ↦ n
            | inl d ↦ absurd (
                false≢true
                  (sym h ∙ ap is_at_risk same ∙ tar_due-at_risk v cfg now w s.files s.runs u d))
          ])
  ]

  coverage-totals :
      (s : Site D rt.Host v.Files)
      → is_safe (coverage rt v save cfg s) ≡ true
      → ((cover_all rt v save cfg (v.clock s.files) (list_workloads [] s.fleet.store) s (λ x. 0)).0
            stale
          ≡ 0)
        × ((cover_all rt v save cfg
                (v.clock s.files)
                (list_workloads [] s.fleet.store)
                s
                (λ x. 0)).0
              failed
            ≡ 0)
  unfolding coverage
  coverage-totals s h = ground (arith, h)

  IsSafe-due :
      (now : ℕ) (ws : List Workload) (s : Site D rt.Host v.Files)
      → All (λ w. IsUpToDate v cfg w s.files s.runs) ws
      → All (IsSafe now s) ws
      → All (λ w. backs_up cfg w.kind ≡ true → (is_due rt v save cfg now w s).0 ≡ false) ws
  IsSafe-due now [] s u h = tt
  IsSafe-due now (w ∷ ws) s u h =
      (λ b. is_due-at_risk now w s u.0 (h.0 b), IsSafe-due now ws s u.1 h.1)

  -- Where the coverage says that the box is safe to wipe, and what is remembered of the archives is
  -- no older than the newest ones, no workload that is backed up is due for a backup at that time.
  pub coverage-is_due :
      (s : Site D rt.Host v.Files)
      → is_safe (coverage rt v save cfg s) ≡ true
      → All (λ w. IsUpToDate v cfg w s.files s.runs) (list_workloads [] s.fleet.store)
      → All
          (λ w. backs_up cfg w.kind ≡ true → (is_due rt v save cfg (v.clock s.files) w s).0 ≡ false)
          (list_workloads [] s.fleet.store)
  unfolding coverage
  coverage-is_due s h u =
      let safe = coverage-totals s h in
      IsSafe-due (v.clock s.files) (list_workloads [] s.fleet.store) s u (
        cover_all-IsSafe (v.clock s.files) (list_workloads [] s.fleet.store) s (λ x. 0) safe.0
          safe.1)
