-- ===== src/Api/Named.antt =====
-- No two projects that were created through the API have one name
-- (orchestrator/internal/api/api.go).
use orchd.Prelude.{
  ℕ, ◌≡◌, refl, sym, ap, ◌∙◌, subst, inl, inr, Text, codes, text_eq, text_eq_iff, false, Option,
  none, some, List, [], ◌∷◌, is_some, arith, Bool-cases, Option-cases, false≢true, ◌⊎◌, Bool, true,
  not, ◌&&◌, ◌||◌,
}
use orchd.Prelude.Sorting.{Memᴰ-sort_by}
use orchd.Table.{lookup, insert, lookup-insert, Memᴰ-values}
use orchd.Store.Records.{Snapshot, Project, Route, Workload}
use orchd.Store.Mem.{MemStore, project_before, put_project, put_workload, put_route, flush_state}
use orchd.Store.Query.{get_project, list_projects}
use orchd.Manager.Collected.{any-Memᴰ}
use orchd.Manager.Create.{
  WorkloadSpec, Supply, CreateConfig, Outcome, with_create_options, resolve_preset,
}
use orchd.Manager.Interpolate.{key_for}
use orchd.Manager.Register.{
  host_of, put_registered, register_spec, register_workload, register_all, region_for,
  specs_or_default, create_in, create_project, secret_for,
}
use orchd.Api.Projects.{
  Status, Body, at_sign, name_or, from_image, from_template, planned, answered, is_name_taken,
  post_project,
}
use orchd.Prelude.Split.{cut}

-- Two projects with one name, which is not empty, are one project.
abbrev pub HasUniqueNames : {D : Type 0} → MemStore D → Type 0
HasUniqueNames s =
    (i j : Text) (p q : Project)
    → get_project i s ≡ some p
    → get_project j s ≡ some q
    → p.name ≡ q.name
    → text_eq p.name (codes "") ≡ false
    → i ≡ j

HasUniqueNames-projects :
    {D : Type 0} (s t : MemStore D) → t.projects ≡ s.projects → HasUniqueNames s → HasUniqueNames t
unfolding get_project
HasUniqueNames-projects s t e h i j p q a b = h i j p q (rw (← e) a) (rw (← e) b)

-- A name that is not taken is no project's.
is_name_taken-other :
    {D : Type 0} (name : Text) (s : MemStore D)
    → text_eq name (codes "") ≡ false
    → is_name_taken name s ≡ false
    → (i : Text) (p : Project) → get_project i s ≡ some p
    → text_eq p.name name ≡ false
unfolding is_name_taken get_project list_projects
is_name_taken-other name s named free i p e =
    any-Memᴰ (λ (r : Project). text_eq r.name name) p (list_projects s)
      (rw (named, is_name_taken) at free)
      (Memᴰ-sort_by project_before p _ (Memᴰ-values i s.projects e))

abbrev project_or : Project → Option Project → Project
project_or p none = p
project_or p (some q) = q

some_project : (r p : Project) → some r ≡ some p → r ≡ p
some_project r p e = ap (project_or r) e

clash : {A : Type 0} (n m : Text) → n ≡ m → text_eq m n ≡ false → A
clash n m e f = absurd (false≢true (sym f ∙ (text_eq_iff m n).1 (sym e)))

module _ {D : Type 0} (save : D → Snapshot → Option D) where
  put_workload-projects :
      (w : Workload) (s : MemStore D) → (put_workload save w s).0.projects ≡ s.projects
  unfolding put_workload
  put_workload-projects w s = rw flush_state refl

  put_route-projects : (r : Route) (s : MemStore D) → (put_route save r s).0.projects ≡ s.projects
  unfolding put_route
  put_route-projects r s = rw flush_state refl

  -- What is found after a project was put.
  found-put_project :
      (r : Project) (s : MemStore D) (i : Text) (p : Project)
      → get_project i (put_project save r s).0 ≡ some p
      → ((r.id ≡ i) × (r ≡ p)) ⊎ (get_project i s ≡ some p)
  unfolding get_project put_project
  found-put_project r s i p e =
      let f : lookup i (insert r.id r s.projects) ≡ some p = rw flush_state at e in
      elim (Bool-cases (text_eq r.id i)) [
        | inl t ↦
            let q : some r ≡ some p = rw (lookup-insert r.id i r s.projects, t) at f in
            inl ((text_eq_iff r.id i).0 t, some_project r p q)
        | inr t ↦ inr (rw (lookup-insert r.id i r s.projects, t) at f)
      ]

  -- A project under a name that no other has.
  put_project-HasUniqueNames :
      (r : Project) (s : MemStore D)
      → ((i : Text) (p : Project)
          → get_project i s ≡ some p
          → text_eq r.name (codes "") ≡ false
          → text_eq p.name r.name ≡ false)
      → HasUniqueNames s
      → HasUniqueNames (put_project save r s).0
  put_project-HasUniqueNames r s own h i j p q a b same named = elim (found-put_project r s i p a) [
    | inl (ri, rp) ↦ elim (found-put_project r s j q b) [
      | inl (rj, rq) ↦ sym ri ∙ rj
      | inr old ↦ clash r.name q.name (ap (λ (x : Project). x.name) rp ∙ same) (
          own j q old (
            subst (λ n. text_eq n (codes "") ≡ false) (sym (ap (λ (x : Project). x.name) rp))
              named))
    ]
    | inr new ↦ elim (found-put_project r s j q b) [
      | inl (rj, rq) ↦ clash r.name p.name (ap (λ (x : Project). x.name) rq ∙ sym same) (
          own i p new (
            subst (λ n. text_eq n (codes "") ≡ false) (same ∙ sym (ap (λ (x : Project). x.name) rq))
              named))
      | inr old ↦ h i j p q new old same named
    ]
  ]

  module _ (supply : Supply) (cfg : CreateConfig) (now : ℕ) where
    abbrev default_route : Workload → Route
    default_route w = record {
      host = host_of cfg w;
      key = key_for w.project_id w.name;
      workload_id = w.id;
      created_at = now;
    }

    put_registered-projects :
        (w : Workload) (s : MemStore D)
        → (put_registered save supply cfg now w s).1.projects ≡ s.projects
    unfolding put_registered
    put_registered-projects w s =
        let first = put_workload-projects w s in
        ground (arith, first, put_route-projects (default_route w) (put_workload save w s).0)

    register_spec-projects :
        (ref : Text) (ws : WorkloadSpec) (src : supply.Source) (s : MemStore D)
        → (register_spec save supply cfg now ref ws src s).2.projects ≡ s.projects
    unfolding register_spec
    register_spec-projects ref ws src s = elim (Option-cases (supply.new_ref src).0) [
      | inl e ↦ rw (e, register_spec) refl
      | inr (id, e) ↦ elim (Option-cases (secret_for supply ws (supply.new_ref src).1).0) [
        | inl f ↦ rw (e, register_spec, f) refl
        | inr (sec, f) ↦ rw (e, register_spec, f) (put_registered-projects _ s)
      ]
    ]

    register_workload-projects :
        (ref : Text) (ws : WorkloadSpec) (src : supply.Source) (s : MemStore D)
        → (register_workload save supply cfg now ref ws src s).2.projects ≡ s.projects
    unfolding register_workload
    register_workload-projects ref ws src s = elim (Option-cases (get_project ref s)) [
      | inl e ↦ rw (e, register_workload) refl
      | inr (proj, e) ↦ elim (Option-cases (resolve_preset ws)) [
        | inl f ↦ rw (e, register_workload, f) refl
        | inr (full, f) ↦ rw (e, register_workload, f) (register_spec-projects proj.id full src s)
      ]
    ]

    register_all-projects :
        (ref : Text) (specs : List WorkloadSpec) (src : supply.Source) (s : MemStore D)
        → (register_all save supply cfg now ref specs src s).2.projects ≡ s.projects
    unfolding register_all
    register_all-projects ref [] src s = refl
    register_all-projects ref (ws ∷ specs) src s =
        let r : Outcome Workload × supply.Source × MemStore D =
          register_workload save supply cfg now ref ws src s in
        ground
          (arith, register_workload-projects ref ws src s, register_all-projects ref specs r.1 r.2)

    abbrev project_of : Text → Text → Text → Project
    project_of id name region = record {
      id = id;
      name = name;
      region = region;
      env = [];
      created_at = now;
      last_active_at = 0;
    }

    -- No project has a name that is given.
    abbrev IsFree : Text → MemStore D → Type 0
    IsFree name s =
        (i : Text) (p : Project)
        → get_project i s ≡ some p
        → text_eq name (codes "") ≡ false
        → text_eq p.name name ≡ false

    create_in-HasUniqueNames :
        (name region : Text) (specs : List WorkloadSpec) (src : supply.Source) (s : MemStore D)
        → IsFree name s
        → HasUniqueNames s
        → HasUniqueNames (create_in save supply cfg now name region specs src s).2
    unfolding create_in
    create_in-HasUniqueNames name region specs src s free h =
        elim (Option-cases (supply.new_ref src).0) [
          | inl e ↦ rw (e, create_in) h
          | inr (id, e) ↦
              let r : Project = project_of id name region in
              let put : HasUniqueNames (put_project save r s).0 =
                put_project-HasUniqueNames r s free h in
              elim (Bool-cases (is_some (put_project save r s).1)) [
                | inl f ↦ rw (e, create_in, f) put
                | inr f ↦
                    rw (e, create_in, f)
                      (HasUniqueNames-projects (put_project save r s).0 _
                        (register_all-projects id specs (supply.new_ref src).1
                          (put_project save r s).0)
                        put)
              ]
        ]

    create_project-HasUniqueNames :
        (name region : Text) (specs : List WorkloadSpec) (opts : List Text) (src : supply.Source)
        (s : MemStore D)
        → IsFree name s
        → HasUniqueNames s
        → HasUniqueNames (create_project save supply cfg now name region specs opts src s).2
    unfolding create_project
    create_project-HasUniqueNames name region specs opts src s free h =
        elim (Option-cases
          (with_create_options (specs_or_default save supply cfg now specs) opts)) [
            | inl e ↦ rw (e, create_project) h
            | inr (full, e) ↦ elim (Option-cases (region_for save supply cfg now region s)) [
              | inl f ↦ rw (e, create_project, f) h
              | inr (place, f) ↦
                  rw (e, create_project, f) (create_in-HasUniqueNames name place full src s free h)
            ]
          ]

    module _ (template_specs : Text → Option (Text × List WorkloadSpec))
        (image_specs : Text → Text → Option (List WorkloadSpec)) where
      -- The body has a name, or neither an image nor a template that gives it one.
      abbrev pub is_named : Body → Bool
      is_named b =
          not (text_eq b.name (codes ""))
          || text_eq b.image (codes "") && text_eq b.template (codes "")

      -- The name of a plan is that of the body.
      abbrev IsOf : Text → Status ⊎ (Text × List WorkloadSpec) → Type 0
      IsOf name (inl status) = Unit
      IsOf name (inr (other, specs)) = other ≡ name

      from_image-IsOf :
          (b : Body)
          → text_eq b.name (codes "") ≡ false
          → IsOf b.name (from_image template_specs image_specs b)
      unfolding from_image
      from_image-IsOf b e = elim (Option-cases (cut at_sign b.image)) [
        | inl f ↦ rw (from_image, f) tt
        | inr (parts, f) ↦ elim (Option-cases (image_specs parts.0 parts.1)) [
          | inl g ↦ rw (from_image, f, g) tt
          | inr (specs, g) ↦ rw (from_image, f, g, name_or, e) refl
        ]
      ]

      from_template-IsOf :
          (b : Body)
          → text_eq b.name (codes "") ≡ false
          → IsOf b.name (from_template template_specs image_specs b)
      unfolding from_template
      from_template-IsOf b e = elim (Option-cases (template_specs b.template)) [
        | inl f ↦ rw (from_template, f) tt
        | inr (found, f) ↦ rw (from_template, f, name_or, e) refl
      ]

      planned-IsOf :
          (b : Body) → is_named b ≡ true → IsOf b.name (planned template_specs image_specs b)
      unfolding planned
      planned-IsOf b h = elim (Bool-cases (text_eq b.name (codes ""))) [
        | inl e ↦
            let image : text_eq b.image (codes "") ≡ true = ground (arith, h, e) in
            let template : text_eq b.template (codes "") ≡ true = ground (arith, h, e) in
            rw (planned, image, template) refl
        | inr e ↦ elim (Bool-cases (text_eq b.image (codes ""))) [
          | inr f ↦ rw (planned, f) (from_image-IsOf b e)
          | inl f ↦ elim (Bool-cases (text_eq b.template (codes ""))) [
            | inr g ↦ rw (planned, f, g) (from_template-IsOf b e)
            | inl g ↦ rw (planned, f, g) refl
          ]
        ]
      ]

      answered-HasUniqueNames :
          (plan : Status ⊎ (Text × List WorkloadSpec)) (name region : Text) (opts : List Text)
          (src : supply.Source) (s : MemStore D)
          → IsOf name plan
          → IsFree name s
          → HasUniqueNames s
          → HasUniqueNames
              (answered template_specs image_specs save supply cfg now plan region opts src s).1
      unfolding answered
      answered-HasUniqueNames (inl status) name region opts src s e free h = h
      answered-HasUniqueNames (inr (other, specs)) name region opts src s e free h =
          create_project-HasUniqueNames other region specs opts src s
            (subst (λ n. IsFree n s) (sym e) free) h

      -- A creation through the API, whatever its answer, keeps the names of the projects unique, so
      -- that no two of them have one name that is not empty: of a body that has a name, or names
      -- neither an image nor a template.
      pub post_project-HasUniqueNames :
          (b : Body) (opts : List Text) (src : supply.Source) (s : MemStore D)
          → is_named b ≡ true
          → HasUniqueNames s
          → HasUniqueNames
              (post_project template_specs image_specs save supply cfg now b opts src s).1
      unfolding post_project
      post_project-HasUniqueNames b opts src s named h =
          elim (Bool-cases (is_name_taken b.name s)) [
            | inl e ↦ rw (e, post_project) h
            | inr e ↦
                rw (e, post_project)
                  (answered-HasUniqueNames (planned template_specs image_specs b) b.name b.region
                    opts src s (planned-IsOf b named)
                    (λ i p f n. is_name_taken-other b.name s n e i p f) h)
          ]
