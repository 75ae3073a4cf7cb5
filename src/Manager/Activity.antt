-- ===== src/Manager/Activity.antt =====
-- The clock of a project's activity: SetProjectLastActive and noteProjectActivity of
-- orchestrator/internal/manager/manager.go.
use orchd.Prelude.{
  ℕ, ◌≤◌, ◌≡◌, arith, ap, sym, ◌∙◌, subst, Text, text_eq, text_eq_iff, codes, Bool, Option, none,
  some, ltb, Bool-cases, Option-cases, inl, inr,
}
use orchd.Table.{lookup, lookup-insert, key-lookup}
use orchd.Store.Records.{Snapshot, Project}
use orchd.Store.Mem.{put_project, project_key, flush_state}
use orchd.Store.Query.{get_project}
use orchd.Store.Keyed.{IsWellKeyed}
use orchd.Manager.State.{
  Manager, Config, set_project_last_active, note_project_activity, time_or_zero,
  should_persist_activity,
}

abbrev found_or : Project → Option Project → Project
found_or p none = p
found_or p (some q) = q

abbrev moved_to : ℕ → Project → Option Project
moved_to t p = some (record p { last_active_at = t })

module _ {D H : Type 0} (save : D → Snapshot → Option D) where
  -- The project is the same but for its clock, which was not moved back.
  abbrev pub IsForward : Text → Project → Manager D H → Type 0
  IsForward id p m =
      (t : ℕ) × (p.last_active_at ≤ t)
      × (get_project id m.store ≡ some (record p { last_active_at = t }))

  set_project_last_active-IsForward :
      (q : Text) (now : ℕ) (id : Text) (p : Project) (m : Manager D H)
      → IsWellKeyed m.store
      → get_project id m.store ≡ some p
      → IsForward id p (set_project_last_active save q now m)
  unfolding set_project_last_active put_project get_project project_key
  set_project_last_active-IsForward q now id p m k g = elim (Option-cases (get_project q m.store)) [
    | inl e ↦ rw (e, set_project_last_active) (p.last_active_at, omega arith, g)
    | inr (r, e) ↦ elim (Bool-cases (ltb r.last_active_at now)) [
      | inr f ↦ rw (e, set_project_last_active, f) (p.last_active_at, omega arith, g)
      | inl f ↦
          let own : r.id ≡ q = key-lookup project_key q m.store.projects k.projects e in
          elim (Bool-cases (text_eq r.id id)) [
            | inr n ↦
                rw (e, set_project_last_active, f, flush_state, lookup-insert, n)
                  (p.last_active_at, omega arith, g)
            | inl n ↦
                let same : some r ≡ some p =
                  sym e
                  ∙ ap (λ j. get_project j m.store) (sym own ∙ (text_eq_iff r.id id).0 n)
                  ∙ g in
                let rp : r ≡ p = ap (found_or p) same in
                let late : r.last_active_at ≤ now = ground (arith, f) in
                rw (e, set_project_last_active, f, flush_state, lookup-insert, n)
                  (now, subst (λ x. x.last_active_at ≤ now) rp late, ap (moved_to now) rp)
          ]
    ]
  ]

  -- In a store with each record under its own key, noting activity, of whatever project and at
  -- whatever time, leaves every stored project as it was but for its clock, which never moves back.
  pub note_project_activity-IsForward :
      (cfg : Config) (now : ℕ) (q : Text) (force : Bool) (id : Text) (p : Project) (m : Manager D H)
      → IsWellKeyed m.store
      → get_project id m.store ≡ some p
      → IsForward id p (note_project_activity save cfg now q force m)
  unfolding note_project_activity
  note_project_activity-IsForward cfg now q force id p m k g =
      elim (Bool-cases (text_eq q (codes ""))) [
        | inl e ↦ rw e (p.last_active_at, omega arith, g)
        | inr e ↦
            elim (Bool-cases (
              should_persist_activity (time_or_zero (lookup q m.activity_persist)) now
                cfg.activity_coalesce force)) [
                  | inl f ↦ rw (e, f) (set_project_last_active-IsForward q now id p _ k g)
                  | inr f ↦ rw (e, f) (p.last_active_at, omega arith, g)
                ]
      ]
