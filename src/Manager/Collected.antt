-- ===== src/Manager/Collected.antt =====
-- What the collection of old images leaves (orchestrator/internal/manager/image.go).
use orchd.Prelude.{
  ℕ, ◌≡◌, refl, sym, ap, ◌∙◌, subst, arith, inl, inr, Text, codes, text_eq, text_eq_iff, Bool,
  false, ◌&&◌, ◌||◌, Option, List, [], ◌∷◌, ◌++◌, is_some, Bool-cases, drop, any,
}
use mathlib.Core.List.{Memᴰ}
use orchd.Prelude.Int.{ℤ}
use orchd.Prelude.Sorting.{sort_by}
use orchd.Table.{lookup, lookup-remove}
use orchd.Store.Records.{Snapshot, Image, Workload, image_id}
use orchd.Store.Mem
use orchd.Store.Mem.{MemStore, flush_state}
use orchd.Store.Query.{get_image, list_images, list_workloads}
use orchd.Manager.Images.{
  Numbered, newer, versions_of, is_pinned, is_tag_used, gc_one, gc_all, gc_image_versions,
}

text_eq-prefix : (t x y : Text) → text_eq (t ++ x) (t ++ y) ≡ text_eq x y
unfolding text_eq
text_eq-prefix [] x y = refl
text_eq-prefix (c ∷ t) x y = ground (arith, text_eq-prefix t x y)

text_eq-image_id :
    (tmpl v o : Text) → text_eq v o ≡ false → text_eq (image_id tmpl v) (image_id tmpl o) ≡ false
unfolding image_id text_eq
text_eq-image_id tmpl v o n = text_eq-prefix tmpl (codes "@" ++ v) (codes "@" ++ o) ∙ n

or-false : (a b : Bool) → (a || b) ≡ false → (a ≡ false) × (b ≡ false)
or-false a b h = ground (arith, h)

pub any-Memᴰ :
    {A : Type 0} (p : A → Bool) (w : A) (ws : List A) → any p ws ≡ false → Memᴰ w ws → p w ≡ false
any-Memᴰ p w [] h m = elim m [ ]
any-Memᴰ p w (v ∷ ws) h (Memᴰ.head e) = ap p e ∙ (or-false (p v) (any p ws) h).0
any-Memᴰ p w (v ∷ ws) h (Memᴰ.tail m) = any-Memᴰ p w ws (or-false (p v) (any p ws) h).1 m

module _ {D : Type 0} (save : D → Snapshot → Option D) where
  -- A deletion of one version leaves the workloads and the other versions.
  delete_image-workloads :
      (tmpl version : Text) (s : MemStore D)
      → list_workloads [] (Mem.delete_image save tmpl version s).0 ≡ list_workloads [] s
  unfolding Mem.delete_image list_workloads
  delete_image-workloads tmpl version s =
      elim (Bool-cases (is_some (lookup (image_id tmpl version) s.images))) [
        | inl e ↦ rw (Mem.delete_image, e, flush_state) refl
        | inr e ↦ rw (Mem.delete_image, e) refl
      ]

  delete_image-get_image :
      (tmpl version other : Text) (s : MemStore D)
      → text_eq version other ≡ false
      → get_image tmpl other (Mem.delete_image save tmpl version s).0 ≡ get_image tmpl other s
  unfolding Mem.delete_image get_image
  delete_image-get_image tmpl version other s n =
      elim (Bool-cases (is_some (lookup (image_id tmpl version) s.images))) [
        | inl e ↦
            rw
              (
                Mem.delete_image,
                e,
                flush_state,
                lookup-remove,
                text_eq-image_id tmpl version other n,
              )
              refl
        | inr e ↦ rw (Mem.delete_image, e) refl
      ]

  module _ (atoi : Text → Option ℤ) (in_use : Text → Bool) (tmpl : Text) where
    gc_one-workloads :
        (im : Image) (s : MemStore D)
        → list_workloads [] (gc_one save atoi in_use tmpl im s) ≡ list_workloads [] s
    unfolding gc_one
    gc_one-workloads im s =
        elim (Bool-cases
          (is_pinned tmpl im.version (list_workloads [] s) || is_tag_used in_use im.dockers)) [
            | inl e ↦ rw (gc_one, e) refl
            | inr e ↦ rw (gc_one, e) (delete_image-workloads tmpl im.version s)
          ]

    -- A version that a workload boots from is pinned.
    not_pinned :
        (w : Workload) (version : Text) (s : MemStore D)
        → Memᴰ w (list_workloads [] s)
        → w.template ≡ tmpl
        → is_pinned tmpl version (list_workloads [] s) ≡ false
        → text_eq version w.image_ver ≡ false
    unfolding is_pinned
    not_pinned w version s m e h = elim (Bool-cases (text_eq version w.image_ver)) [
      | inr n ↦ n
      | inl y ↦
          let pinned =
            any-Memᴰ (λ w. text_eq w.template tmpl && text_eq w.image_ver version) w
              (list_workloads [] s) h m in
          ground (
            arith,
            pinned,
            y,
            e,
            text_eq_iff version w.image_ver,
            text_eq_iff w.image_ver version,
            text_eq_iff w.template tmpl,
          )
    ]

    gc_one-get_image :
        (w : Workload) (im : Image) (s : MemStore D)
        → Memᴰ w (list_workloads [] s)
        → w.template ≡ tmpl
        → get_image tmpl w.image_ver (gc_one save atoi in_use tmpl im s)
          ≡ get_image tmpl w.image_ver s
    unfolding gc_one
    gc_one-get_image w im s m e =
        elim (Bool-cases
          (is_pinned tmpl im.version (list_workloads [] s) || is_tag_used in_use im.dockers)) [
            | inl u ↦ rw (gc_one, u) refl
            | inr u ↦
                rw (gc_one, u)
                  (delete_image-get_image tmpl im.version w.image_ver s (
                    not_pinned w im.version s m e (or-false _ (is_tag_used in_use im.dockers) u).0))
          ]

    gc_all-get_image :
        (w : Workload) (vers : List Numbered) (s : MemStore D)
        → Memᴰ w (list_workloads [] s)
        → w.template ≡ tmpl
        → get_image tmpl w.image_ver (gc_all save atoi in_use tmpl vers s)
          ≡ get_image tmpl w.image_ver s
    unfolding gc_all
    gc_all-get_image w [] s m e = refl
    gc_all-get_image w (v ∷ vers) s m e =
        gc_all-get_image w vers (gc_one save atoi in_use tmpl v.image s)
          (subst (Memᴰ w) (sym (gc_one-workloads v.image s)) m) e
        ∙ gc_one-get_image w v.image s m e

    -- The collection of a template's old images, whatever number of versions it is to keep and
    -- whatever containers there are, keeps the image that a stored workload of that template boots
    -- from.
    pub gc_image_versions-get_image :
        (w : Workload) (keep : ℕ) (s : MemStore D)
        → Memᴰ w (list_workloads [] s)
        → w.template ≡ tmpl
        → get_image tmpl w.image_ver (gc_image_versions save atoi in_use tmpl keep s)
          ≡ get_image tmpl w.image_ver s
    unfolding gc_image_versions
    gc_image_versions-get_image w keep s m e =
        gc_all-get_image w (drop keep (sort_by newer (versions_of atoi tmpl (list_images s)))) s m e
