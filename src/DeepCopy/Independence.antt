-- ===== src/DeepCopy/Independence.antt =====
-- A deep copy and what it is a copy of are independent of each other.
use k8s_werf_operator_go.Base.{ℕ, Option, some, List, ◌≡◌, ◌∙◌, refl}
use k8s_werf_operator_go.Api.{ObjectMeta, WerfBundle}
use k8s_werf_operator_go.DeepCopy.Heap.{Heap, M}
use k8s_werf_operator_go.DeepCopy.{TypeMeta, Cell, Library, bundle_box, list_box}
use k8s_werf_operator_go.DeepCopy.Copies.{deep_copy_bundle, deep_copy_list}
use k8s_werf_operator_go.DeepCopy.Copier.{Reads, IsHeap, Agree, Owns-reads, IsCopier, read_optional}
use k8s_werf_operator_go.DeepCopy.Copier.Elements.{read_pointer}
use k8s_werf_operator_go.DeepCopy.Copier.Pairs.{optional-IsCopier}
use k8s_werf_operator_go.DeepCopy.Copier.Slices.{pointer-IsCopier}
use k8s_werf_operator_go.DeepCopy.Bundles.{
  read_time, read_bundle, read_list, bundle-IsCopier, list-IsCopier,
}

-- The copy of `a`, which reads as `v` in the heap `h`, succeeds. Its result reads as `v` too. It has
-- written to no cell in use. Whatever later happens to cells that it has not allocated, the result
-- reads as `v`, and whatever happens to those it has, `a` does.
abbrev pub IsDeepCopy : {C A V : Type 0} → Reads C A V → (A → M C A) → Heap C → A → V → Type 0
IsDeepCopy {C} {A} reads copy h a v =
    (out : A) × (h' : Heap C) × (copy a h ≡ some (out, h'))
    × (reads h' out ≡ some v)
    × Agree 0 h.next h h'
    × ((later : Heap C) → Agree h.next h'.next h' later → reads later out ≡ some v)
    × ((later : Heap C) → Agree 0 h.next h' later → reads later a ≡ some v)

IsCopier-IsDeepCopy :
    {C A V : Type 0} {reads : Reads C A V} {copy : A → M C A} (h : Heap C) (a : A) (v : V)
    → IsCopier reads copy
    → IsHeap h
    → reads h a ≡ some v
    → IsDeepCopy reads copy h a v
IsCopier-IsDeepCopy {reads = reads} h a v k heap r =
    let c = k.copies h a v heap r in
    (
      c.out,
      c.heap,
      c.returns,
      Owns-reads reads c.owned,
      c.kept,
      c.owned,
      λ later agree.
          k.local h a v heap r later (λ p above below. agree p above below ∙ c.kept p above below),
    )

module _ {Meta ListMeta Other : Type 0}
    (read_meta : Reads (Cell Meta ListMeta Other) Meta ObjectMeta) where
  -- What a pointer to a WerfBundle points to, if it is not nil.
  abbrev pub read_bundle_pointer :
      Reads (Cell Meta ListMeta Other) (Option ℕ) (Option (TypeMeta × WerfBundle))
  read_bundle_pointer = read_optional (read_pointer bundle_box (read_bundle read_meta))

  module _ {V : Type 0} (read_list_meta : Reads (Cell Meta ListMeta Other) ListMeta V) where
    abbrev pub read_list_pointer :
        Reads
          (Cell Meta ListMeta Other)
          (Option ℕ)
          (Option (TypeMeta × (V × Option (List (TypeMeta × WerfBundle)))))
    read_list_pointer = read_optional (read_pointer list_box (read_list read_meta read_list_meta))

module _ {Meta ListMeta Other : Type 0} (library : Library Meta ListMeta Other)
    {read_meta : Reads (Cell Meta ListMeta Other) Meta ObjectMeta}
    (time : IsCopier read_time library.copy_time)
    (object_meta : IsCopier read_meta library.copy_object_meta) where
  -- `DeepCopy` of a WerfBundle is a deep copy of it, if those of `metav1.Time` and of its metadata
  -- are: it returns, its result reads as the same value, no cell in use is written to, and neither
  -- the result nor the original changes with what is later written to cells that are the other's.
  deep_copy_bundle-IsDeepCopy :
      (h : Heap (Cell Meta ListMeta Other)) (in_ : Option ℕ) (v : Option (TypeMeta × WerfBundle))
      → IsHeap h
      → read_bundle_pointer read_meta h in_ ≡ some v
      → IsDeepCopy (read_bundle_pointer read_meta) (deep_copy_bundle library) h in_ v
  unfolding deep_copy_bundle
  deep_copy_bundle-IsDeepCopy h in_ v heap r =
      IsCopier-IsDeepCopy h in_ v
        (optional-IsCopier
          (pointer-IsCopier bundle_box (λ a. refl) (bundle-IsCopier library time object_meta)))
        heap r

  -- `DeepCopy` of a WerfBundleList is a deep copy of it with all its bundles, if those of
  -- `metav1.Time` and of the two kinds of metadata are: it returns, its result reads as the same
  -- value, no cell in use is written to, and neither the result nor the original changes with what
  -- is later written to cells that are the other's.
  pub deep_copy_list-IsDeepCopy :
      {V : Type 0} {read_list_meta : Reads (Cell Meta ListMeta Other) ListMeta V}
      → IsCopier read_list_meta library.copy_list_meta
      → (h : Heap (Cell Meta ListMeta Other)) (in_ : Option ℕ)
        (v : Option (TypeMeta × (V × Option (List (TypeMeta × WerfBundle)))))
      → IsHeap h
      → read_list_pointer read_meta read_list_meta h in_ ≡ some v
      → IsDeepCopy (read_list_pointer read_meta read_list_meta) (deep_copy_list library) h in_ v
  unfolding deep_copy_list
  deep_copy_list-IsDeepCopy list_meta h in_ v heap r =
      IsCopier-IsDeepCopy h in_ v
        (optional-IsCopier (
          pointer-IsCopier list_box (λ a. refl) (list-IsCopier library time object_meta list_meta)))
        heap r
