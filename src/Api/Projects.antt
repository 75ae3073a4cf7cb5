-- ===== src/Api/Projects.antt =====
-- POST /v1/projects (createProject of orchestrator/internal/api/api.go), with what names a project in
-- CreateFromTemplate and CreateFromImage of orchestrator/internal/manager/manager.go. The lock of a
-- name orders the creations of one name, so each is one step here. The overlay of files is left out,
-- and the workloads that a template's folder or an image's record describe are the parameters
-- `template_specs` and `image_specs`; `none` is an error of theirs.
use orchd.Prelude.{
  ℕ, Text, codes, text_eq, Bool, not, ◌&&◌, Option, none, some, List, any, if◌then◌else◌, ◌⊎◌, inl,
  inr,
}
use orchd.Prelude.Split.{cut}
use orchd.Store.Records.{Snapshot, Project}
use orchd.Store.Mem.{MemStore}
use orchd.Store.Query.{list_projects}
use orchd.Manager.Create.{WorkloadSpec, Supply, CreateConfig, CreateError, bad_secret}
use orchd.Manager.Register.{create_project}

-- The status of an answer.
pub data Status : Type 0 where
  created conflict bad_request server_error : Status

unfoldable pub status_of : Option CreateError → Status
status_of none = created
status_of (some bad_secret) = bad_request
status_of (some _) = server_error

unfoldable pub is_name_taken : {D : Type 0} → Text → MemStore D → Bool
is_name_taken name s =
    not (text_eq name (codes "")) && any (λ (p : Project). text_eq p.name name) (list_projects s)

-- The body of the request.
pub record Body : Type 0 where
  pub name : Text
  pub region : Text
  pub template : Text
  pub image : Text
  pub workloads : List WorkloadSpec

-- The name of a project that was given none.
unfoldable pub name_or : Text → Text → Text
name_or name default = if text_eq name (codes "") then default else name

abbrev pub at_sign : ℕ
at_sign = 64

module _ (template_specs : Text → Option (Text × List WorkloadSpec))
    (image_specs : Text → Text → Option (List WorkloadSpec)) where
  -- CreateFromImage, up to CreateProject: the name and the workloads, or a refusal
  unfoldable pub from_image : Body → Status ⊎ (Text × List WorkloadSpec)
  unfolding cut name_or
  from_image b = elim (cut at_sign b.image) [
    | none ↦ inl bad_request
    | some (template, version) ↦ elim (image_specs template version) [
      | none ↦ inl server_error
      | some specs ↦ inr (name_or b.name template, specs)
    ]
  ]

  -- CreateFromTemplate, likewise
  unfoldable pub from_template : Body → Status ⊎ (Text × List WorkloadSpec)
  unfolding name_or
  from_template b = elim (template_specs b.template) [
    | none ↦ inl server_error
    | some (name, specs) ↦ inr (name_or b.name name, specs)
  ]

  -- The three kinds of bodies
  unfoldable pub planned : Body → Status ⊎ (Text × List WorkloadSpec)
  unfolding from_image from_template
  planned b =
      if not (text_eq b.image (codes ""))
      then from_image b
      else if not (text_eq b.template (codes ""))
      then from_template b
      else inr (b.name, b.workloads)

  module _ {D : Type 0} (save : D → Snapshot → Option D) (supply : Supply) (cfg : CreateConfig)
      (now : ℕ) where
    -- CreateProject and its answer
    unfoldable pub answered :
        Status ⊎ (Text × List WorkloadSpec)
        → Text
        → List Text
        → supply.Source
        → MemStore D
        → Status × MemStore D
    unfolding status_of
    answered (inl status) region opts src s = (status, s)
    answered (inr (name, specs)) region opts src s =
        let (result, src', s') = create_project save supply cfg now name region specs opts src s in
        (status_of result.0, s')

    unfoldable pub post_project :
        Body → List Text → supply.Source → MemStore D → Status × MemStore D
    unfolding is_name_taken planned answered
    post_project b opts src s =
        let reply = answered (planned b) b.region opts src s in
        if is_name_taken b.name s then (conflict, s) else reply
