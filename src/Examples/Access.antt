-- ===== src/Examples/Access.antt =====
-- A key that is minted and used, and a project name that is asked for twice. The hash of a key is
-- the key itself.
use orchd.Prelude.{
  ◌≡◌, refl, Text, codes, text_eq, has_prefix, trim_prefix, lower, to_lower, true, none, some,
  Option, List, ℕ, false, inr, [], ◌∷◌,
}
use orchd.Prelude.Sorting.{sort_by, insert_by}
use orchd.Table.{values, lookup, insert}
use orchd.Store.Records.{ApiKey}
use orchd.Store.Mem.{MemStore, restore, put_apikey, flush}
use orchd.Store.Query.{get_project, list_apikeys}
use orchd.Store.Keyed.{restore-IsWellKeyed}
use orchd.Manager.Keys.{readonly, find_role, validate_stored_key}
use orchd.Manager.Create.{WorkloadSpec}
use orchd.Manager.Minted.{IfMinted, IsWorth, create_api_key-IsWorth}
use orchd.Manager.Keys.{role_or_readonly, create_api_key}
use orchd.Api.Auth.{
  Request, served, forbidden, presented_key, is_read_method, is_open_path, allow_if, needs_key,
  with_role, resolve_key, auth, tls_allow,
}
use orchd.Api.Authorized.{IsAuthorized, auth-IsAuthorized}
use orchd.Api.Projects.{Body, name_or, from_template, planned, is_name_taken, post_project}
use orchd.Api.Named.{HasUniqueNames, is_named, post_project-HasUniqueNames}
use orchd.Examples.Store.{Disk, keep_last, no_settings}
use orchd.Examples.Create.{supply, create_config, spec}

abbrev empty : MemStore Disk
empty = restore no_settings none none

abbrev hash_key : Text → Text
hash_key key = key

abbrev viewer : ApiKey
viewer = record {
  id = codes "k1";
  name = codes "ci";
  role = readonly;
  hash = codes "tbk_s3";
  created_at = 4;
}

abbrev with_viewer : MemStore Disk
with_viewer = (put_apikey keep_last viewer empty).0

abbrev request_of : Text → Request
request_of method = record {
  method = method;
  path = codes "/v1/projects";
  authorization = codes "Bearer tbk_s3";
  x_api_key = [];
}

viewer_reads :
    (auth hash_key (codes "root") (request_of (codes "GET")) 0 none with_viewer).0 ≡ served
unfolding auth needs_key is_open_path resolve_key with_role presented_key is_read_method allow_if
    validate_stored_key find_role list_apikeys put_apikey flush restore insert sort_by insert_by
    values text_eq has_prefix trim_prefix
viewer_reads = refl

viewer_writes :
    (auth hash_key (codes "root") (request_of (codes "POST")) 0 none with_viewer).0 ≡ forbidden
unfolding auth needs_key is_open_path resolve_key with_role presented_key is_read_method allow_if
    validate_stored_key find_role list_apikeys put_apikey flush restore insert sort_by insert_by
    values text_eq has_prefix trim_prefix
viewer_writes = refl

operator_host : tls_allow (codes "Apps.dev") [] (codes "admin.apps.dev") empty ≡ true
unfolding tls_allow to_lower lower text_eq
operator_host = refl

auth-IsAuthorized_example :
    IsAuthorized hash_key (codes "root") (request_of (codes "GET")) with_viewer
unfolding needs_key is_open_path text_eq has_prefix
auth-IsAuthorized_example =
    auth-IsAuthorized hash_key (codes "root") (request_of (codes "GET")) 0 none with_viewer refl
      viewer_reads

create_api_key-IsWorth_example :
    IfMinted hash_key keep_last supply 7
      (IsWorth hash_key keep_last supply 7 (role_or_readonly (codes "owner")))
      (create_api_key hash_key keep_last supply 7 (codes "ci") (codes "owner") 0 empty)
unfolding restore values
create_api_key-IsWorth_example =
    create_api_key-IsWorth hash_key keep_last supply 7 (codes "ci") (codes "owner") 0 empty
      (restore-IsWellKeyed no_settings none none) (λ raw e q m. elim m [ ])

-- Templates whose manifests bear the name expo, and no images.
abbrev expo : Text → Option (Text × List WorkloadSpec)
expo template = some (codes "expo", spec ∷ [])

abbrev no_image : Text → Text → Option (List WorkloadSpec)
no_image template version = none

abbrev body_of : Text → Body
body_of name = record { name = name; region = []; template = codes "t"; image = []; workloads = [] }

abbrev post : Text → ℕ → MemStore Disk → MemStore Disk
post name src s =
    (post_project expo no_image keep_last supply create_config 9 (body_of name) [] src s).1

empty-HasUniqueNames : HasUniqueNames empty
unfolding get_project lookup restore
empty-HasUniqueNames i j p q a b same named = cc

shop_is_named :
    is_named keep_last supply create_config 9 expo no_image (body_of (codes "shop")) ≡ true
unfolding text_eq
shop_is_named = refl

post_project-HasUniqueNames_example :
    HasUniqueNames (post (codes "shop") 5 (post (codes "shop") 0 empty))
post_project-HasUniqueNames_example =
    post_project-HasUniqueNames keep_last supply create_config 9 expo no_image
      (body_of (codes "shop")) [] 5 (post (codes "shop") 0 empty) shop_is_named
      (post_project-HasUniqueNames keep_last supply create_config 9 expo no_image
        (body_of (codes "shop")) [] 0 empty shop_is_named empty-HasUniqueNames)

-- Without a name, a project gets that of the manifest, and no name is looked at.
unnamed : planned expo no_image (body_of []) ≡ inr (codes "expo", spec ∷ [])
unfolding planned from_template name_or text_eq
unnamed = refl

unguarded : (s : MemStore Disk) → is_name_taken [] s ≡ false
unfolding is_name_taken text_eq
unguarded s = refl
