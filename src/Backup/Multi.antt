-- ===== src/Backup/Multi.antt =====
-- MultiStore of orchestrator/internal/backup/multi.go, over any store with the interface Store of
-- orchestrator/internal/backup/store.go.
use mathlib.Core.Option
use orchd.Prelude.{
  ℕ, zero, suc, Text, text_eq, Bool, true, false, Option, none, some, List, [], ◌∷◌, ◌++◌, ◌⊎◌, inl,
  inr, if◌then◌else◌, drop, any, get_elem?, set,
}
use orchd.Prelude.Sorting.{sort_by}
use orchd.Backup.Names.{parse_id}
use orchd.Backup.Local.{Backup, BackupError, not_found, bad_id, newer}

-- The interface, less Retain, which MultiStore does not call. A store is its state; a data
-- directory and a file are named.
pub record Store : Type 1 where
  pub State : Type 0
  pub create : Text → Text → State → (BackupError ⊎ Backup) × State
  pub put : Text → Text → Text → State → (BackupError ⊎ Backup) × State
  -- `none` is an error
  pub list : Text → State → Option (List Backup)
  -- the bytes that reach the destination
  pub restore : Text → State → BackupError ⊎ Text
  pub fetch : Text → State → BackupError ⊎ Text
  pub delete : Text → State → Option BackupError × State

abbrev pub is_seen : Text → List Backup → Bool
is_seen id out = any (λ b. text_eq b.id id) out

-- The loop over one list
unfoldable pub add_new : List Backup → List Backup → List Backup
add_new [] out = out
add_new (b ∷ bs) out =
    let out' = if is_seen b.id out then out else out ++ (b ∷ []) in add_new bs out'

module _ (V : Store) (format : ℕ → Text) (parse : Text → Option ℕ) where
  pub record MultiStore : Type 0 where
    pub primary : V.State
    pub older : List V.State

  -- all
  abbrev pub all : MultiStore → List V.State
  all m = m.primary ∷ m.older

  -- The loop over the older stores
  unfoldable pub add_older : Text → List V.State → List Backup → List Backup
  unfolding add_new
  add_older workload_id [] out = out
  add_older workload_id (s ∷ ss) out = elim (V.list workload_id s) [
    | none ↦ add_older workload_id ss out
    | some found ↦ add_older workload_id ss (add_new found out)
  ]

  -- List
  unfoldable pub list : Text → MultiStore → Option (List Backup)
  unfolding add_new add_older newer
  list workload_id m = elim (V.list workload_id m.primary) [
    | none ↦ none
    | some found ↦ some (sort_by newer (add_older workload_id m.older (add_new found [])))
  ]

  -- Whether a store lists an id; an error is passed over.
  unfoldable pub has_id : Text → Text → V.State → Bool
  has_id workload_id id s = elim (V.list workload_id s) [
    | none ↦ false
    | some found ↦ is_seen id found
  ]

  -- The loop of owner, as the store's place
  unfoldable pub first_with : Text → Text → List V.State → Option ℕ
  unfolding has_id
  first_with workload_id id [] = none
  first_with workload_id id (s ∷ ss) =
      let later = first_with workload_id id ss in
      if has_id workload_id id s then some 0 else Option.map (λ i. suc i) later

  -- owner
  unfoldable pub owner : Text → MultiStore → BackupError ⊎ ℕ
  unfolding first_with
  owner id m = elim (parse_id format parse id) [
    | none ↦ inl bad_id
    | some (wid, ts, kind) ↦ elim (first_with wid id (all m)) [
      | none ↦ inl not_found
      | some i ↦ inr i
    ]
  ]

  -- The store in a place, and its change
  unfoldable pub at : ℕ → MultiStore → V.State
  at zero m = m.primary
  at (suc i) m = elim (get_elem? m.older i) [ none ↦ m.primary | some s ↦ s ]

  unfoldable pub set_at : ℕ → V.State → MultiStore → MultiStore
  set_at zero s m = record m { primary = s }
  set_at (suc i) s m = record m { older = set m.older i s }

  -- Create and Put
  unfoldable pub create : Text → Text → MultiStore → (BackupError ⊎ Backup) × MultiStore
  create workload_id data_dir m =
      let (r, s) = V.create workload_id data_dir m.primary in (r, record m { primary = s })

  unfoldable pub put : Text → Text → Text → MultiStore → (BackupError ⊎ Backup) × MultiStore
  put workload_id file kind m =
      let (r, s) = V.put workload_id file kind m.primary in (r, record m { primary = s })

  -- Restore and Fetch
  unfoldable pub restore : Text → MultiStore → BackupError ⊎ Text
  unfolding owner at
  restore id m = elim (owner id m) [ inl e ↦ inl e | inr i ↦ V.restore id (at i m) ]

  unfoldable pub fetch : Text → MultiStore → BackupError ⊎ Text
  unfolding owner at
  fetch id m = elim (owner id m) [ inl e ↦ inl e | inr i ↦ V.fetch id (at i m) ]

  -- Delete
  unfoldable pub delete : Text → MultiStore → Option BackupError × MultiStore
  unfolding owner at set_at
  delete id m = elim (owner id m) [
    | inl e ↦ (none, m)
    | inr i ↦ let (r, s) = V.delete id (at i m) in (r, set_at i s m)
  ]

  unfoldable pub delete_all : List Backup → MultiStore → MultiStore
  unfolding delete
  delete_all [] m = m
  delete_all (b ∷ bs) m = delete_all bs (delete b.id m).1

  -- Retain, and whether it returns no error
  unfoldable pub retain : Text → ℕ → MultiStore → Bool × MultiStore
  unfolding list delete_all
  retain workload_id keep m = elim (list workload_id m) [
    | none ↦ (false, m)
    | some found ↦ (true, delete_all (drop keep found) m)
  ]
