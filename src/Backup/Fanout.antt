-- ===== src/Backup/Fanout.antt =====
-- What the listing of several stores has (orchestrator/internal/backup/multi.go).
use mathlib.Core.List.{Memᴰ}
use orchd.Prelude.{
  ℕ, Text, true, false, Option, none, some, List, [], ◌∷◌, ◌↔◌, inl, inr, ◌≡◌, refl, sym, ap, ◌∙◌,
  arith, Option-cases, is_some,
}
use orchd.Prelude.Sorting.{sort_by, IsSorted, sort_by-IsSorted, Memᴰ-sort_by, sort_by-Memᴰ}
use orchd.Backup.Local.{Backup, newer}
use orchd.Backup.Multi.{Store, MultiStore, all, add_new, add_older, list}
use orchd.Backup.Merged.{
  find, or_else, HasUniqueIds, add_new-HasUniqueIds, find-add_new, find-Memᴰ, Memᴰ-find,
  sort_by-HasUniqueIds,
}

or_else_assoc : (o p q : Option Backup) → or_else (or_else o p) q ≡ or_else o (or_else p q)
or_else_assoc none p q = refl
or_else_assoc (some b) p q = refl

-- `newer` is a strict weak order.
newer_asym : (a b : Backup) → newer b a ≡ true → newer a b ≡ false
unfolding newer
newer_asym a b h = ground (arith, h)

newer_trans : (a b c : Backup) → newer b a ≡ false → newer c b ≡ false → newer c a ≡ false
unfolding newer
newer_trans a b c h k = ground (arith, h, k)

module _ (V : Store) (format : ℕ → Text) (parse : Text → Option ℕ) where
  -- The backup that the first reachable store with an id lists under it.
  abbrev pub first : Text → List V.State → Text → Option Backup
  first workload_id [] id = none
  first workload_id (s ∷ ss) id = elim (V.list workload_id s) [
    | none ↦ first workload_id ss id
    | some found ↦ or_else (find id found) (first workload_id ss id)
  ]

  add_older-HasUniqueIds :
      (workload_id : Text) (ss : List V.State) (out : List Backup)
      → HasUniqueIds out
      → HasUniqueIds (add_older V format parse workload_id ss out)
  unfolding add_older
  add_older-HasUniqueIds w [] out u = u
  add_older-HasUniqueIds w (s ∷ ss) out u = elim (Option-cases (V.list w s)) [
    | inl e ↦ rw (add_older, e) (add_older-HasUniqueIds w ss out u)
    | inr (found, e) ↦
        rw (add_older, e)
          (add_older-HasUniqueIds w ss (add_new found out) (add_new-HasUniqueIds found out u))
  ]

  find-add_older :
      (workload_id id : Text) (ss : List V.State) (out : List Backup)
      → find id (add_older V format parse workload_id ss out)
        ≡ or_else (find id out) (first workload_id ss id)
  unfolding add_older
  find-add_older w id [] out = ground arith
  find-add_older w id (s ∷ ss) out = elim (Option-cases (V.list w s)) [
    | inl e ↦ rw (add_older, first, e) (find-add_older w id ss out)
    | inr (found, e) ↦
        rw (add_older, first, e)
          (find-add_older w id ss (add_new found out)
            ∙ (rw (find-add_new id found out)
                (or_else_assoc (find id out) (find id found) (first w ss id))))
  ]

  -- What the primary store's listing merges to
  abbrev merged : Text → List Backup → List V.State → List Backup
  merged w found ss = add_older V format parse w ss (add_new found [])

  -- An error is the primary store's; otherwise the listing is the newest first, has each id once,
  -- and has a backup exactly when the first reachable store with its id lists it.
  abbrev pub IsMerged : Text → MultiStore V format parse → Option (List Backup) → Type 0
  IsMerged w m none = V.list w m.primary ≡ none
  IsMerged w m (some out) =
      (is_some (V.list w m.primary) ≡ true)
      × IsSorted newer out
      × HasUniqueIds out
      × ((b : Backup) → Memᴰ b out ↔ (first w (all V format parse m) b.id ≡ some b))

  find-merged :
      (w id : Text) (found : List Backup) (m : MultiStore V format parse)
      → V.list w m.primary ≡ some found
      → find id (merged w found m.older) ≡ first w (all V format parse m) id
  find-merged w id found m e = rw e (
      find-add_older w id m.older (add_new found [])
      ∙ ap (λ o. or_else o (first w m.older id)) (find-add_new id found []))

  merged-IsMerged :
      (w : Text) (found : List Backup) (m : MultiStore V format parse)
      → V.list w m.primary ≡ some found
      → IsMerged w m (some (sort_by newer (merged w found m.older)))
  merged-IsMerged w found m e =
      let out = merged w found m.older in
      let once =
        add_older-HasUniqueIds w m.older (add_new found []) (add_new-HasUniqueIds found [] tt) in
      (
        rw e refl,
        sort_by-IsSorted newer newer_asym newer_trans out,
        sort_by-HasUniqueIds out once,
        λ b. (
          λ n.
              sym (find-merged w b.id found m e)
              ∙ Memᴰ-find b out once (sort_by-Memᴰ newer b out n),
          λ f. Memᴰ-sort_by newer b out (find-Memᴰ b.id b out (find-merged w b.id found m e ∙ f)),
        ),
      )

  -- A listing fails exactly when the primary store's does. Otherwise it is the newest first, has
  -- each id once, and has a backup exactly when that is the one the first store that can be read
  -- and has the id lists under it.
  pub list-IsMerged :
      (workload_id : Text) (m : MultiStore V format parse)
      → IsMerged workload_id m (list V format parse workload_id m)
  unfolding list
  list-IsMerged w m = elim (Option-cases (V.list w m.primary)) [
    | inl e ↦ rw (list, e) e
    | inr (found, e) ↦ rw (list, e) (merged-IsMerged w found m e)
  ]
