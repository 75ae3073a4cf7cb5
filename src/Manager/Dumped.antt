-- ===== src/Manager/Dumped.antt =====
-- What a dump that went through leaves (orchestrator/internal/manager/dump.go).
use orchd.Prelude.{
  ℕ, ◌+◌, ◌≡◌, ◌≤◌, ◌<◌, refl, sym, ap, ◌∙◌, inl, inr, arith, Text, codes, text_eq, text_eq_refl,
  Bool, true, false, not, ◌&&◌, Option, none, some, [], is_some, Bool-cases, Option-cases,
  false≢true,
}
use orchd.Table.{lookup}
use orchd.Store.Records.{Workload}
use orchd.Store.Query.{get_workload}
use orchd.Manager.State.{Runtime}
use orchd.Manager.Vault.{
  DumpManifest, DumpState, Vault, DumpError, write_failed, seal_failed, BackupRuns, BackupConfig,
  Site,
}
use orchd.Manager.Dumps.{
  new_state, has_content, backup_id_of, has_backup, dump_current, write_or, seal_dump, put_dump,
  store_dump, sealed_unless, backup_dump_once, runs_now, backup_dump, daily_dump,
}
use orchd.Manager.Coverage.{dump_status}
use orchd.Manager.Schedule.{dump_due, is_recent_failure}
use orchd.Manager.Due.{is_at_risk, dump_due-at_risk}

-- What the dumps rely on: a state that was written is read back, and writing it does not touch
-- pg_control; a fingerprint, the hex form of a hash, is not empty; and the clock does not go back.
pub record IsVault (v : Vault) : Type 0 where
  pub reads :
      (dir : Text) (st : DumpState) (f : v.Files)
      → (v.write_state dir st f).0 ≡ true
      → v.read_state (v.write_state dir st f).1 dir ≡ some st
  pub keeps_print :
      (dir : Text) (st : DumpState) (f : v.Files)
      → v.fingerprint (v.write_state dir st f).1 dir ≡ v.fingerprint f dir
  pub prints :
      (dir fp : Text) (f : v.Files) → v.fingerprint f dir ≡ some fp → text_eq fp (codes "") ≡ false
  pub export_clock :
      (w : Workload) (runs : Bool) (f : v.Files) → v.clock f ≤ v.clock (v.export_dump w runs f).1

-- Where no error is returned, the files satisfy P.
abbrev pub Done : {F : Type 0} → (F → Type 0) → Option DumpError × F → Type 0
Done P r = r.0 ≡ none → P r.1

abbrev fails : Option DumpError → Bool
fails none = false
fails (some e) = true

failed_not_done : {B : Type 0} {e : DumpError} → some e ≡ none → B
failed_not_done h = absurd (false≢true (sym (ap fails h)))

module _ (v : Vault) (laws : IsVault v) where
  open v use {Files, clock, read_state, fingerprint, write_state, put, retain, export_dump}

  write_or-read :
      (e : DumpError) (dir : Text) (st : DumpState) (f : Files)
      → Done (λ f'. read_state f' dir ≡ some st) (write_or v e dir st f)
  unfolding write_or
  write_or-read e dir st f = elim (Bool-cases (write_state dir st f).0) [
    | inl t ↦ λ h. laws.reads dir st f t
    | inr n ↦ rw (write_or, n) failed_not_done
  ]

  write_or-print :
      (e : DumpError) (dir : Text) (st : DumpState) (f : Files)
      → fingerprint (write_or v e dir st f).1 dir ≡ fingerprint f dir
  unfolding write_or
  write_or-print e dir st f = laws.keeps_print dir st f

  dump_current-of :
      (w : Workload) (st : DumpState) (fp : Text) (f : Files)
      → read_state f w.data_dir ≡ some st
      → fingerprint f w.data_dir ≡ some fp
      → st.pg_control ≡ fp
      → text_eq fp (codes "") ≡ false
      → dump_current v f w ≡ true
  unfolding dump_current
  dump_current-of w st fp f r p e n = rw (dump_current, r, e, n, p, e) (text_eq_refl fp)

  -- A database that was sealed is current.
  seal_dump-current :
      (w : Workload) (f : Files) → Done (λ f'. dump_current v f' w ≡ true) (seal_dump v w f)
  unfolding seal_dump
  seal_dump-current w f = elim (Option-cases (read_state f w.data_dir)) [
    | inl r ↦ rw (seal_dump, r) failed_not_done
    | inr (st, r) ↦ elim (Option-cases (fingerprint f w.data_dir)) [
      | inl p ↦ rw (seal_dump, r, p) failed_not_done
      | inr (fp, p) ↦
          rw (seal_dump, r, p)
            (λ h.
              dump_current-of w (record st { pg_control = fp }) fp _
                (write_or-read seal_failed w.data_dir (record st { pg_control = fp }) f h)
                (write_or-print seal_failed w.data_dir (record st { pg_control = fp }) f ∙ p) refl
                (laws.prints w.data_dir fp f p))
    ]
  ]

  -- A dump that was stored left a state no older than the call.
  abbrev pub IsFresh : ℕ → Workload → Files → Type 0
  IsFresh since w f = (st : DumpState) × (read_state f w.data_dir ≡ some st) × (since ≤ st.at)

  write_or-IsFresh :
      (since : ℕ) (w : Workload) (man : DumpManifest) (id : Text) (f : Files)
      → Done (IsFresh since w) (write_or v write_failed w.data_dir (new_state since man id) f)
  unfolding new_state
  write_or-IsFresh since w man id f h = (
    new_state since man id,
    write_or-read write_failed w.data_dir (new_state since man id) f h,
    omega arith,
  )

  put_dump-IsFresh :
      (since : ℕ) (w : Workload) (man : DumpManifest) (f : Files)
      → Done (IsFresh since w) (put_dump v w since man f)
  unfolding put_dump
  put_dump-IsFresh since w man f = elim (Option-cases (put w.id f).0) [
    | inl e ↦ rw (put_dump, e) failed_not_done
    | inr (b, e) ↦ rw (put_dump, e) (write_or-IsFresh since w man b.id (retain w.id (put w.id f).1))
  ]

  store_dump-IsFresh :
      (w : Workload) (man : DumpManifest) (force : Bool) (f : Files)
      → Done (IsFresh (clock f) w) (store_dump v w man force f)
  unfolding store_dump
  store_dump-IsFresh w man force f = elim (Bool-cases (man.pristine && not force)) [
    | inl e ↦ rw (store_dump, e) (write_or-IsFresh (clock f) w man [] f)
    | inr e ↦
        elim (Bool-cases (
          (not force && has_content man.content_hash (read_state f w.data_dir))
          && has_backup v f w.id (backup_id_of (read_state f w.data_dir)))) [
            | inl c ↦
                rw (store_dump, e, c)
                  (write_or-IsFresh (clock f) w man (backup_id_of (read_state f w.data_dir)) f)
            | inr c ↦ rw (store_dump, e, c) (put_dump-IsFresh (clock f) w man f)
          ]
  ]

  -- What a dump leaves of a database that runs, and of one that does not.
  abbrev pub IsDumped : Bool → ℕ → Workload → Files → Type 0
  IsDumped true since w f = IsFresh since w f
  IsDumped false since w f = dump_current v f w ≡ true

  sealed_unless-IsDumped :
      (runs : Bool) (since : ℕ) (w : Workload) (r : Option DumpError × Files)
      → Done (IsFresh since w) r
      → Done (IsDumped runs since w) (sealed_unless v runs w r)
  unfolding sealed_unless
  sealed_unless-IsDumped runs since w (some e, f) h = failed_not_done
  sealed_unless-IsDumped true since w (none, f) h = h
  sealed_unless-IsDumped false since w (none, f) h = seal_dump-current w f

  older :
      (w : Workload) (runs : Bool) (f : Files) {f' : Files}
      → IsFresh (clock (export_dump w runs f).1) w f'
      → IsFresh (clock f) w f'
  older w runs f (st, r, l) = let first = laws.export_clock w runs f in (st, r, omega arith)

  backup_dump_once-IsDumped :
      (w : Workload) (runs force : Bool) (f : Files)
      → Done (IsDumped runs (clock f) w) (backup_dump_once v w runs force f)
  unfolding backup_dump_once
  backup_dump_once-IsDumped w runs force f = elim (Option-cases (export_dump w runs f).0) [
    | inl e ↦ rw (backup_dump_once, e) failed_not_done
    | inr (man, e) ↦
        rw (backup_dump_once, e)
          (sealed_unless-IsDumped runs (clock f) w
            (store_dump v w man force (export_dump w runs f).1)
            (λ h. older w runs f (store_dump-IsFresh w man force (export_dump w runs f).1 h)))
  ]

module _ (v : Vault) (laws : IsVault v) (cfg : BackupConfig) where
  stopped_current-IsDumped :
      (since : ℕ) (runs : Bool) (w : Workload) (f : v.Files)
      → (not runs && dump_current v f w) ≡ true
      → IsDumped v laws runs since w f
  stopped_current-IsDumped since true w f h = absurd (false≢true h)
  stopped_current-IsDumped since false w f h = h

  -- What covers a database is neither stale nor failed, up to the interval after a dump.
  IsDumped-status :
      (now since : ℕ) (runs : Bool) (w : Workload) (f : v.Files) (r : BackupRuns)
      → IsDumped v laws runs since w f
      → now < since + cfg.backup_interval
      → is_at_risk (dump_status v cfg now runs w f r) ≡ false
  unfolding dump_status
  IsDumped-status now since false w f r h l = rw (dump_status, h) refl
  IsDumped-status now since true w f r (st, e, a) l = elim (Bool-cases (dump_current v f w)) [
    | inl c ↦ rw (dump_status, c) refl
    | inr c ↦ rw (dump_status, c, e) (ground arith)
  ]

module _ {D : Type 0} (rt : Runtime) (v : Vault) (laws : IsVault v) (cfg : BackupConfig) where
  -- What is left when there is no error.
  abbrev Covers :
      ℕ → Workload → Site D rt.Host v.Files → Option DumpError × Site D rt.Host v.Files → Type 0
  Covers since w s r = r.0 ≡ none → IsDumped v laws (runs_now rt v w r.1) since w r.1.files

  backup_dump-Covers :
      (w : Workload) (force : Bool) (s : Site D rt.Host v.Files)
      → Covers (v.clock s.files) w s (backup_dump rt v cfg w force s)
  unfolding backup_dump runs_now
  backup_dump-Covers w force s = elim (Bool-cases cfg.enabled) [
    | inl e ↦
        rw (backup_dump, e) (backup_dump_once-IsDumped v laws w (runs_now rt v w s) force s.files)
    | inr e ↦ rw (backup_dump, e) failed_not_done
  ]

  daily_dump-Covers :
      (w : Workload) (s : Site D rt.Host v.Files)
      → Covers (v.clock s.files) w s (daily_dump rt v cfg w s)
  unfolding daily_dump runs_now
  daily_dump-Covers w s = elim (Bool-cases (is_some (get_workload w.id s.fleet.store))) [
    | inr e ↦ rw (daily_dump, e) failed_not_done
    | inl e ↦ elim (Bool-cases (not (runs_now rt v w s) && dump_current v s.files w)) [
      | inr c ↦ rw (daily_dump, e, c) (backup_dump-Covers w false s)
      | inl c ↦
          rw (daily_dump, e, c)
            (λ h.
              stopped_current-IsDumped v laws cfg (v.clock s.files) (runs_now rt v w s) w s.files c)
    ]
  ]

  -- A scheduled dump that returns no error leaves a database that the coverage report counts
  -- neither as stale nor as failed, and that is not due for a dump, at any time up to the backup
  -- interval after the dump began.
  pub daily_dump-dump_due :
      (now : ℕ) (w : Workload) (s : Site D rt.Host v.Files)
      → (daily_dump rt v cfg w s).0 ≡ none
      → now < v.clock s.files + cfg.backup_interval
      → (is_at_risk (
            dump_status v cfg now
              (runs_now rt v w (daily_dump rt v cfg w s).1)
              w
              (daily_dump rt v cfg w s).1.files
              (daily_dump rt v cfg w s).1.runs)
          ≡ false)
        × (dump_due v cfg now
              (runs_now rt v w (daily_dump rt v cfg w s).1)
              w
              (daily_dump rt v cfg w s).1.files
              (daily_dump rt v cfg w s).1.runs
            ≡ false)
  daily_dump-dump_due now w s h l =
      let t = (daily_dump rt v cfg w s).1 in
      let safe =
        IsDumped-status v laws cfg now (v.clock s.files) (runs_now rt v w t) w t.files t.runs
          (daily_dump-Covers w s h) l in
      (
        safe,
        dump_due-at_risk v cfg now (runs_now rt v w t) w t.files t.runs
            ∙ ap (λ b. b && not (is_recent_failure now (lookup w.id t.runs.failed))) safe,
      )
