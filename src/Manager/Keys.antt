-- ===== src/Manager/Keys.antt =====
-- The API keys of orchestrator/internal/manager/manager.go (CreateAPIKey, ListAPIKeys, DeleteAPIKey,
-- ValidateStoredKey). SHA-256 in hexadecimal is the parameter `hash_key`, and a comparison in
-- constant time is an equality.
use orchd.Prelude.{
  ℕ, Text, codes, text_eq, trim_space, ◌||◌, Option, none, some, List, [], ◌∷◌, ◌++◌, map,
  if◌then◌else◌, is_some,
}
use orchd.Store.Records.{Snapshot, ApiKey}
use orchd.Store.Mem.{MemStore, put_apikey}
use orchd.Store.Query.{list_apikeys}
use orchd.Manager.Create.{Supply}

pub data KeyError : Type 0 where
  no_name no_key_entropy not_saved : KeyError

-- The key without its hash, and the plaintext that is shown once.
pub data Minted : Type 0 where
  minted : ApiKey → Text → Minted
  refused : KeyError → Minted

abbrev pub admin : Text
admin = codes "admin"

abbrev pub readonly : Text
readonly = codes "readonly"

unfoldable pub role_or_readonly : Text → Text
role_or_readonly role = if text_eq role admin || text_eq role readonly then role else readonly

unfoldable pub find_role : Text → List ApiKey → Option Text
find_role hash [] = none
find_role hash (k ∷ ks) = if text_eq k.hash hash then some k.role else find_role hash ks

abbrev pub hidden : ApiKey → ApiKey
hidden k = record k { hash = [] }

module _ {D : Type 0} (hash_key : Text → Text) where
  unfoldable pub validate_stored_key : Text → MemStore D → Option Text
  unfolding find_role
  validate_stored_key presented s =
      if text_eq presented (codes "") then none else find_role (hash_key presented) (list_apikeys s)

  module _ (save : D → Snapshot → Option D) (supply : Supply) (now : ℕ) where
    abbrev pub key_of : Text → Text → Text → Text → ApiKey
    key_of id name role key = record {
      id = id;
      name = name;
      role = role_or_readonly role;
      hash = hash_key key;
      created_at = now;
    }

    unfoldable pub store_key : ApiKey → Text → MemStore D → Minted × MemStore D
    store_key k key s =
        let (s', e) = put_apikey save k s in
        if is_some e then (refused not_saved, s') else (minted (hidden k) key, s')

    unfoldable pub create_api_key : Text → Text → supply.Source → MemStore D → Minted × MemStore D
    unfolding store_key
    create_api_key given role src s =
        let name = trim_space given in
        let (secret, src1) = supply.new_secret src in
        let (ref, src2) = supply.new_ref src1 in
        if text_eq name (codes "") then (refused no_name, s) else elim secret [
          | none ↦ (refused no_key_entropy, s)
          | some raw ↦ elim ref [
            | none ↦ (refused no_key_entropy, s)
            | some id ↦
                store_key (key_of id name role (codes "tbk_" ++ raw)) (codes "tbk_" ++ raw) s
          ]
        ]

module _ {D : Type 0} where
  -- ListAPIKeys
  unfoldable pub list_api_keys : MemStore D → List ApiKey
  list_api_keys s = map hidden (list_apikeys s)
