-- ===== src/Manager/Minted.antt =====
-- What a key that was minted is worth, until it is deleted
-- (orchestrator/internal/manager/manager.go).
use mathlib.Core.List.{Memᴰ}
use orchd.Prelude.{
  ℕ, ◌≡◌, refl, sym, ap, ◌∙◌, subst, Text, codes, text_eq, text_eq_refl, trim_space, false, true,
  Option, none, some, List, [], ◌∷◌, ◌++◌, All, false≢true, Bool-cases, Option-cases, inl, inr,
  is_some,
}
use orchd.Prelude.Sorting.{All-sort_by, Memᴰ-sort_by}
use orchd.Table.{
  Table, lookup, insert, remove, values, IsKeyed, insert-IsKeyed, remove-IsKeyed, lookup-insert,
  lookup-insert_self, lookup-remove, All-values, Memᴰ-values,
}
use orchd.Store.Records.{Snapshot, ApiKey}
use orchd.Store.Mem.{MemStore, apikey_key, put_apikey, delete_apikey, flush_state}
use orchd.Store.Keyed.{IsWellKeyed}
use orchd.Store.Query.{list_apikeys, apikey_before}
use orchd.Manager.Create.{Supply}
use orchd.Manager.Keys.{
  Minted, minted, refused, role_or_readonly, find_role, validate_stored_key, store_key,
  create_api_key,
}

abbrev role_or_none : Option ApiKey → Text
role_or_none none = []
role_or_none (some k) = k.role

-- The keys with a hash have one role.
abbrev HasRole : Text → Text → ApiKey → Type 0
HasRole hash role k = text_eq k.hash hash ≡ true → k.role ≡ role

find_role-All :
    (hash role : Text) (k : ApiKey) (ks : List ApiKey)
    → All (HasRole hash role) ks
    → text_eq k.hash hash ≡ true
    → Memᴰ k ks
    → find_role hash ks ≡ some role
unfolding find_role
find_role-All hash role k [] a t m = elim m [ ]
find_role-All hash role k (q ∷ ks) a t (Memᴰ.head e) =
    let same : text_eq q.hash hash ≡ true = subst (λ x. text_eq x.hash hash ≡ true) e t in
    rw same (ap (λ r. some r) (a.0 same))
find_role-All hash role k (q ∷ ks) a t (Memᴰ.tail m) = elim (Bool-cases (text_eq q.hash hash)) [
  | inl same ↦ rw same (ap (λ r. some r) (a.0 same))
  | inr other ↦ rw other (find_role-All hash role k ks a.1 t m)
]

find_role-none :
    (hash : Text) (ks : List ApiKey)
    → All (λ k. text_eq k.hash hash ≡ false) ks
    → find_role hash ks ≡ none
unfolding find_role
find_role-none hash [] a = refl
find_role-none hash (k ∷ ks) a = rw (a.0) (find_role-none hash ks a.1)

All-weaken :
    (P Q : ApiKey → Type 0) (ks : List ApiKey) → ((k : ApiKey) → P k → Q k) → All P ks → All Q ks
All-weaken P Q [] f a = tt
All-weaken P Q (k ∷ ks) f a = (f k a.0, All-weaken P Q ks f a.1)

abbrev IsFresh : Text → Table ApiKey → Type 0
IsFresh hash m = (q : ApiKey) → Memᴰ q (values m) → text_eq q.hash hash ≡ false

module _ (k : ApiKey) (m : Table ApiKey) (keyed : IsKeyed apikey_key m)
    (fresh : IsFresh k.hash m) where
  inserted-HasRole : (q : ApiKey) → lookup q.id (insert k.id k m) ≡ some q → HasRole k.hash k.role q
  inserted-HasRole q e same = elim (Bool-cases (text_eq k.id q.id)) [
    | inl own ↦
        let found : some k ≡ some q = rw (lookup-insert k.id q.id k m, own) at e in
        sym (ap role_or_none found)
    | inr other ↦
        let found : lookup q.id m ≡ some q = rw (lookup-insert k.id q.id k m, other) at e in
        absurd (false≢true (sym (fresh q (Memᴰ-values q.id m found)) ∙ same))
  ]

  removed-other :
      (q : ApiKey)
      → lookup q.id (remove k.id (insert k.id k m)) ≡ some q
      → text_eq q.hash k.hash ≡ false
  removed-other q e = elim (Bool-cases (text_eq k.id q.id)) [
    | inl own ↦
        let gone : none ≡ some q = rw (lookup-remove k.id q.id (insert k.id k m), own) at e in cc
    | inr other ↦
        let found : lookup q.id m ≡ some q =
          rw (lookup-remove k.id q.id (insert k.id k m), other, lookup-insert k.id q.id k m, other)
            at e in
        fresh q (Memᴰ-values q.id m found)
  ]

  values-HasRole : All (HasRole k.hash k.role) (values (insert k.id k m))
  unfolding apikey_key
  values-HasRole =
      All-weaken (λ q. lookup q.id (insert k.id k m) ≡ some q) (HasRole k.hash k.role) _
        inserted-HasRole
        (All-values apikey_key (insert k.id k m) (insert-IsKeyed apikey_key k.id k m refl keyed))

  values-other : All (λ q. text_eq q.hash k.hash ≡ false) (values (remove k.id (insert k.id k m)))
  unfolding apikey_key
  values-other =
      All-weaken (λ q. lookup q.id (remove k.id (insert k.id k m)) ≡ some q)
        (λ q. text_eq q.hash k.hash ≡ false) _ removed-other
        (All-values apikey_key (remove k.id (insert k.id k m)) (
          remove-IsKeyed apikey_key k.id (insert k.id k m)
            (insert-IsKeyed apikey_key k.id k m refl keyed)))

module _ {D : Type 0} (hash_key : Text → Text) (save : D → Snapshot → Option D) (supply : Supply)
    (now : ℕ) where
  -- The state after a key was put, and after it was deleted again.
  abbrev after_put : ApiKey → MemStore D → MemStore D
  after_put k s = (put_apikey save k s).0

  abbrev after_delete : ApiKey → MemStore D → MemStore D
  after_delete k s = (delete_apikey save k.id (after_put k s)).0

  put-find_role :
      (k : ApiKey) (s : MemStore D)
      → IsWellKeyed s
      → IsFresh k.hash s.apikeys
      → find_role k.hash (list_apikeys (after_put k s)) ≡ some k.role
  unfolding put_apikey list_apikeys
  put-find_role k s keyed fresh = rw flush_state (
      find_role-All k.hash k.role k _
        (All-sort_by apikey_before _ _ (values-HasRole k s.apikeys keyed.apikeys fresh))
        (text_eq_refl k.hash)
        (Memᴰ-sort_by apikey_before k _
          (Memᴰ-values k.id (insert k.id k s.apikeys) (lookup-insert_self k.id k s.apikeys))))

  put-apikeys : (k : ApiKey) (s : MemStore D) → (after_put k s).apikeys ≡ insert k.id k s.apikeys
  unfolding put_apikey
  put-apikeys k s = rw flush_state refl

  delete-apikeys :
      (id : Text) (s : MemStore D)
      → is_some (lookup id s.apikeys) ≡ true
      → (delete_apikey save id s).0.apikeys ≡ remove id s.apikeys
  unfolding delete_apikey
  delete-apikeys id s e = rw (e, flush_state) refl

  delete-find_role :
      (k : ApiKey) (s : MemStore D)
      → IsWellKeyed s
      → IsFresh k.hash s.apikeys
      → find_role k.hash (list_apikeys (after_delete k s)) ≡ none
  unfolding list_apikeys
  delete-find_role k s keyed fresh =
      let found : is_some (lookup k.id (after_put k s).apikeys) ≡ true =
        rw (put-apikeys k s, lookup-insert_self k.id k s.apikeys) refl in
      rw (delete-apikeys k.id (after_put k s) found, put-apikeys k s)
        (find_role-none k.hash _
          (All-sort_by apikey_before _ _ (values-other k s.apikeys keyed.apikeys fresh)))

  -- What is claimed of a result, when a key was minted.
  abbrev pub IfMinted : (ApiKey → Text → MemStore D → Type 0) → Minted × MemStore D → Type 0
  IfMinted P (minted k key, t) = P k key t
  IfMinted P (refused e, t) = Unit

  -- A key has a role, and none once it was deleted.
  abbrev pub IsWorth : Text → ApiKey → Text → MemStore D → Type 0
  IsWorth role k key t =
      (validate_stored_key hash_key key t ≡ some role)
      × (validate_stored_key hash_key key (delete_apikey save k.id t).0 ≡ none)

  store_key-IsWorth :
      (k : ApiKey) (key : Text) (s : MemStore D)
      → k.hash ≡ hash_key key
      → text_eq key (codes "") ≡ false
      → IsWellKeyed s
      → IsFresh k.hash s.apikeys
      → IfMinted (IsWorth k.role) (store_key hash_key save supply now k key s)
  unfolding store_key validate_stored_key
  store_key-IsWorth k key s h n keyed fresh = elim (Bool-cases (is_some (put_apikey save k s).1)) [
    | inl e ↦ rw (e, store_key) tt
    | inr e ↦
        rw (e, store_key, n, ← h) (put-find_role k s keyed fresh, delete-find_role k s keyed fresh)
  ]

  -- A key that CreateAPIKey gives is worth the role that was asked for, readonly where that is
  -- neither admin nor readonly, and nothing once it was deleted, if no stored key has its hash.
  pub create_api_key-IsWorth :
      (name role : Text) (src : supply.Source) (s : MemStore D)
      → IsWellKeyed s
      → ((raw : Text)
          → (supply.new_secret src).0 ≡ some raw
          → IsFresh (hash_key (codes "tbk_" ++ raw)) s.apikeys)
      → IfMinted
          (IsWorth (role_or_readonly role))
          (create_api_key hash_key save supply now name role src s)
  unfolding create_api_key text_eq
  create_api_key-IsWorth name role src s keyed fresh =
      elim (Bool-cases (text_eq (trim_space name) (codes ""))) [
        | inl e ↦ rw (e, create_api_key) tt
        | inr e ↦ elim (Option-cases (supply.new_secret src).0) [
          | inl f ↦ rw (e, create_api_key, f) tt
          | inr (raw, f) ↦ elim (Option-cases (supply.new_ref (supply.new_secret src).1).0) [
            | inl g ↦ rw (e, create_api_key, f, g) tt
            | inr (id, g) ↦
                rw (e, create_api_key, f, g) (store_key-IsWorth _ _ s refl refl keyed (fresh raw f))
          ]
        ]
      ]
