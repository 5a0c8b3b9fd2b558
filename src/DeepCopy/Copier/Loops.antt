-- ===== src/DeepCopy/Copier/Loops.antt =====
-- The loop over the elements of a slice.
use k8s_werf_operator_go.Base.{
  ℕ, zero, suc, some, List, ◌∷◌, ◌+◌, ◌≤◌, ◌<◌, ◌≡◌, ◌⊎◌, ◌∙◌, refl, arith, inl, inr,
}
use k8s_werf_operator_go.DeepCopy.Heap.{Heap, Boxing, M, and_then, copy_elements}
use k8s_werf_operator_go.DeepCopy.Copier.{Reads, IsHeap, Agree, IsCopier}
use k8s_werf_operator_go.DeepCopy.Copier.Elements.{
  read_pointer, read_elements, read_elements-parts, copy_into-CopiedInto,
}

module _ {C A V : Type 0} (boxing : Boxing C A) (reads : Reads C A V) (copy : A → M C A) where
  -- The elements that can be read from the cells below `lo` alone.
  abbrev pub IsReadable : ℕ → Heap C → ℕ → ℕ → List V → Type 0
  IsReadable lo h n src l =
      (h' : Heap C) → Agree 0 lo h h' → read_elements boxing reads h' n src ≡ some l

  -- Some elements, copied to memory that `new` or `make` has given.
  pub record CopiedElements (h : Heap C) (n src dst : ℕ) (l : List V) : Type 0 where
    pub heap : Heap C
    pub returns : copy_elements boxing copy n src dst h ≡ some (tt, heap)
    pub grown : h.next ≤ heap.next
    pub is_heap : IsHeap heap
    pub kept : (p : ℕ) → p < h.next → (p < dst) ⊎ (dst + n ≤ p) → heap.cell p ≡ h.cell p
    pub owned :
        (h' : Heap C)
        → Agree dst (dst + n) heap h'
        → Agree h.next heap.next heap h'
        → read_elements boxing reads h' n dst ≡ some l

module _ {C A V : Type 0} (boxing : Boxing C A) {reads : Reads C A V} {copy : A → M C A}
    (unbox-box : (a : A) → boxing.unbox (boxing.box a) ≡ some a) (k : IsCopier reads copy) where
  -- The remaining elements stay readable when the first has been copied.
  rest-IsReadable :
      (lo : ℕ) (h h' : Heap C) (n src : ℕ) (v : V) (vs : List V)
      → IsReadable boxing reads copy lo h (suc n) src (v ∷ vs)
      → Agree 0 lo h h'
      → IsReadable boxing reads copy lo h' n (suc src) vs
  rest-IsReadable lo h h' n src v vs readable agree h'' agree' =
      let (v', vs', e, _, r) =
        read_elements-parts boxing reads h'' n src (v ∷ vs)
          (readable h'' (λ p above below. agree' p above below ∙ agree p above below)) in
      ground (arith, e, r)

  pub copy_elements-CopiedElements :
      (n : ℕ) (lo : ℕ) (h : Heap C) (src dst : ℕ) (l : List V)
      → IsHeap h
      → lo ≤ dst
      → dst + n ≤ h.next
      → IsReadable boxing reads copy lo h n src l
      → CopiedElements boxing reads copy h n src dst l
  unfolding copy_elements
  copy_elements-CopiedElements zero lo h src dst l heap low inside readable = record {
    heap = h;
    returns = refl;
    grown = omega arith;
    is_heap = heap;
    kept = λ p below apart. refl;
    owned = λ h' agree agree'. readable h (λ p above below. refl);
  }
  copy_elements-CopiedElements (suc n) lo h src dst l heap low inside readable =
      let (v, vs, e, first, _) =
        read_elements-parts boxing reads h n src l (readable h (λ p above below. refl)) in
      let one = copy_into-CopiedInto boxing unbox-box k h src dst v heap (omega arith) first in
      let grown = one.grown in
      let rest =
        copy_elements-CopiedElements n lo one.heap (suc src) (suc dst) vs one.is_heap (omega arith)
          (omega arith)
          (rest-IsReadable lo h one.heap n src v vs (rw (e) at readable)
            (λ p above below. one.kept p (omega arith) (inl (omega arith)))) in
      let further = rest.grown in
      record {
        heap = rest.heap;
        returns = rw (one.returns, and_then) rest.returns;
        grown = omega arith;
        is_heap = rest.is_heap;
        kept = λ p below apart. elim apart [
          | inl lt ↦ rest.kept p (omega arith) (inl (omega arith)) ∙ one.kept p below (inl lt)
          | inr ge ↦
              rest.kept p (omega arith) (inr (omega arith)) ∙ one.kept p below (inr (omega arith))
        ];
        owned = λ h' agree agree'.
            let head : read_pointer boxing reads h' dst ≡ some v =
              one.owned h'
                (agree dst (omega arith) (omega arith)
                  ∙ rest.kept dst (omega arith) (inl (omega arith)))
                (λ p above below.
                  agree' p above (omega arith) ∙ rest.kept p below (inr (omega arith))) in
            let tail : read_elements boxing reads h' n (suc dst) ≡ some vs =
              rest.owned h' (λ p above below. agree p (omega arith) (omega arith))
                (λ p above below. agree' p (omega arith) below) in
            rw (e, head, tail, read_elements) refl;
      }
