-- ===== src/Backup/Names.antt =====
-- The ids of backups and the names of their files (orchestrator/internal/backup/store.go).
-- `format` and `parse` stand for time.Time.Format and time.Parse with the layout
-- "20060102T150405Z"; a time is what this layout keeps of it.
use orchd.Prelude.{
  ℕ, suc, ◌+◌, ◌≡◌, ◌⊎◌, refl, ap, arith, sym, subst, Text, codes, text_eq, text_eq_refl,
  text_eq-append, has_prefix, trim_suffix, trim_suffix-append, index_of, index_of-append,
  index_of-append_none, take-length_append, Option, none, some, [], ◌∷◌, ◌++◌, if◌then◌else◌,
  length, take, drop, inl, inr,
}

abbrev pub dot : ℕ
dot = 46

abbrev pub underscore : ℕ
underscore = 95

-- strings.LastIndex(id, "__")
unfoldable pub last_mark : Text → Option ℕ
last_mark [] = none
last_mark (c ∷ s) =
    let later = last_mark s in
    elim later [
      | some i ↦ some (suc i)
      | none ↦ if has_prefix (c ∷ s) (codes "__") then some 0 else none
    ]

-- The end of an id or of a name: ".<kind>", or nothing for a directory's archive.
unfoldable pub with_kind : Text → Text → Text
with_kind stamp kind = if text_eq kind (codes "") then stamp else stamp ++ (dot ∷ kind)

-- The reverse: the kind behind the first dot is to be "dump".
unfoldable pub split_kind : Text → Option (Text × Text)
split_kind rest = elim (index_of dot rest) [
  | none ↦ some (rest, codes "")
  | some j ↦
      if text_eq (drop (j + 1) rest) (codes "dump")
      then some (take j rest, drop (j + 1) rest)
      else none
]

module _ (format : ℕ → Text) (parse : Text → Option ℕ) where
  -- backupID
  unfoldable pub backup_id : Text → ℕ → Text → Text
  unfolding with_kind
  backup_id workload_id t kind = workload_id ++ codes "__" ++ with_kind (format t) kind

  unfoldable pub parse_stamp : Text × Text → Option (ℕ × Text)
  parse_stamp parts = elim (parse parts.0) [ none ↦ none | some t ↦ some (t, parts.1) ]

  unfoldable pub parse_rest : Text → Option (ℕ × Text)
  unfolding split_kind parse_stamp
  parse_rest rest = elim (split_kind rest) [ none ↦ none | some parts ↦ parse_stamp parts ]

  -- parseID; `none` is an error
  unfoldable pub parse_id : Text → Option (Text × ℕ × Text)
  parse_id id = elim (last_mark id) [
    | none ↦ none
    | some i ↦ elim (parse_rest (drop (i + 2) id)) [
      | none ↦ none
      | some r ↦ some (take i id, r.0, r.1)
    ]
  ]

  -- fileName
  unfoldable pub file_name : ℕ → Text → Text
  unfolding with_kind
  file_name t kind = with_kind (format t) kind ++ codes ".tar.gz"

  -- parseFileName; `none` is its false
  unfoldable pub parse_file_name : Text → Option (ℕ × Text)
  unfolding parse_rest
  parse_file_name name =
      let base = trim_suffix name (codes ".tar.gz") in
      if text_eq base name then none else parse_rest base

  -- The kinds that the program makes: KindDir and KindDump.
  abbrev pub IsKind : Text → Type 0
  IsKind kind = (kind ≡ codes "") ⊎ (kind ≡ codes "dump")

last_mark-none : (s : Text) → index_of underscore s ≡ none → last_mark s ≡ none
unfolding last_mark index_of has_prefix
last_mark-none [] h = refl
last_mark-none (c ∷ s) h = ground (arith, h, last_mark-none s)

last_mark-head : (s : Text) → index_of underscore s ≡ none → last_mark (codes "__" ++ s) ≡ some 0
unfolding last_mark index_of has_prefix
last_mark-head [] h = refl
last_mark-head (c ∷ s) h = ground (arith, h, last_mark-none (c ∷ s) h)

last_mark-append :
    (w s : Text) → index_of underscore s ≡ none → last_mark (w ++ codes "__" ++ s) ≡ some (length w)
unfolding last_mark
last_mark-append [] s h = last_mark-head s h
last_mark-append (c ∷ w) s h = rw (last_mark-append w s h) refl

suc_add : (n k : ℕ) → suc n + k ≡ suc (n + k)
suc_add n k = omega arith

drop_past_mark : (w s : Text) → drop (length w + 2) (w ++ codes "__" ++ s) ≡ s
drop_past_mark [] s = refl
drop_past_mark (a ∷ w) s = rw (suc_add (length w) 2) (drop_past_mark w s)

take_mark : (w s : Text) → take (length w) (w ++ codes "__" ++ s) ≡ w
take_mark [] s = refl
take_mark (a ∷ w) s = ap (λ r. a ∷ r) (take_mark w s)

split_kind-plain :
    (stamp : Text) → index_of dot stamp ≡ none → split_kind stamp ≡ some (stamp, codes "")
unfolding split_kind
split_kind-plain stamp h = rw (split_kind, h) refl

pub drop_past : (s : Text) (b : ℕ) (t : Text) → drop (length s + 1) (s ++ (b ∷ t)) ≡ t
drop_past [] b t = refl
drop_past (a ∷ s) b t = rw (suc_add (length s) 1) (drop_past s b t)

split_kind-dump :
    (stamp : Text)
    → index_of dot stamp ≡ none
    → split_kind (stamp ++ codes ".dump") ≡ some (stamp, codes "dump")
unfolding split_kind
split_kind-dump stamp h =
    rw
      (
        split_kind,
        index_of-append dot stamp (codes "dump") h,
        drop_past stamp dot (codes "dump"),
        text_eq_refl (codes "dump"),
        take-length_append stamp (codes ".dump"),
      )
      refl

split_kind-with_kind :
    (stamp kind : Text)
    → index_of dot stamp ≡ none
    → (kind ≡ codes "") ⊎ (kind ≡ codes "dump")
    → split_kind (with_kind stamp kind) ≡ some (stamp, kind)
unfolding with_kind text_eq
split_kind-with_kind stamp kind h (inl e) =
    subst (λ k. split_kind (with_kind stamp k) ≡ some (stamp, k)) (sym e) (split_kind-plain stamp h)
split_kind-with_kind stamp kind h (inr e) =
    subst (λ k. split_kind (with_kind stamp k) ≡ some (stamp, k)) (sym e) (split_kind-dump stamp h)

module _ (format : ℕ → Text) (parse : Text → Option ℕ) (reads : (t : ℕ) → parse (format t) ≡ some t)
    (dotless : (t : ℕ) → index_of dot (format t) ≡ none)
    (unmarked : (t : ℕ) → index_of underscore (format t) ≡ none) where
  parse_rest-with_kind :
      (t : ℕ) (kind : Text)
      → IsKind format parse kind
      → parse_rest format parse (with_kind (format t) kind) ≡ some (t, kind)
  unfolding parse_rest parse_stamp
  parse_rest-with_kind t kind k =
      rw (parse_rest, split_kind-with_kind (format t) kind (dotless t) k, parse_stamp, reads t) refl

  with_kind-unmarked :
      (t : ℕ) (kind : Text)
      → IsKind format parse kind
      → index_of underscore (with_kind (format t) kind) ≡ none
  unfolding with_kind text_eq index_of
  with_kind-unmarked t kind (inl e) = rw e (unmarked t)
  with_kind-unmarked t kind (inr e) =
      rw e (index_of-append_none underscore (format t) (codes ".dump") (unmarked t) refl)

  parse_id-parts :
      (id rest : Text) (i : ℕ) (r : ℕ × Text) (w : Text)
      → last_mark id ≡ some i
      → drop (i + 2) id ≡ rest
      → take i id ≡ w
      → parse_rest format parse rest ≡ some r
      → parse_id format parse id ≡ some (w, r.0, r.1)
  unfolding parse_id
  parse_id-parts id rest i r w m d e p = rw (parse_id, m, d, p, e) refl

  -- With a layout of times that reads back what it wrote and has no dot and no underscore: the id of
  -- a backup of either kind is read back as its workload, whatever its name, its time and its kind;
  -- and the name of its file as its time and its kind.
  pub parse_id-backup_id :
      (workload_id : Text) (t : ℕ) (kind : Text)
      → IsKind format parse kind
      → (parse_id format parse (backup_id format parse workload_id t kind)
          ≡ some (workload_id, t, kind))
        × (parse_file_name format parse (file_name format parse t kind) ≡ some (t, kind))
  unfolding parse_id backup_id parse_file_name file_name
  parse_id-backup_id w t kind k = (
    parse_id-parts (backup_id format parse w t kind) (with_kind (format t) kind) (length w)
        (t, kind) w (last_mark-append w (with_kind (format t) kind) (with_kind-unmarked t kind k))
        (drop_past_mark w (with_kind (format t) kind)) (take_mark w (with_kind (format t) kind))
        (parse_rest-with_kind t kind k),
    rw
        (
          trim_suffix-append (with_kind (format t) kind) (codes ".tar.gz"),
          text_eq-append (with_kind (format t) kind) dot (codes "tar.gz"),
        )
        (parse_rest-with_kind t kind k),
  )
