-- ===== src/DeepCopy/Copier/Slices.antt =====
-- The deep copies of what a pointer points to and of a slice are deep copies.
use k8s_werf_operator_go.Base.{ℕ, zero, suc, some, List, ◌+◌, ◌<◌, ◌≡◌, refl, arith, inl}
use k8s_werf_operator_go.DeepCopy.Heap.{
  Heap, Boxing, Slice, M, and_then, at, copy_pointer, copy_slice,
}
use k8s_werf_operator_go.DeepCopy.Copier.{Reads, IsHeap, Agree, Owns, Copied, IsCopier}
use k8s_werf_operator_go.DeepCopy.Copier.Elements.{
  read_pointer, read_elements, read_slice, read_pointer-parts, read_elements-parts,
  copy_into-CopiedInto,
}
use k8s_werf_operator_go.DeepCopy.Copier.Loops.{copy_elements-CopiedElements}

module _ {C A V : Type 0} (boxing : Boxing C A) {reads : Reads C A V} {copy : A → M C A}
    (k : IsCopier reads copy) where
  pointer-local :
      (h : Heap C) (p : ℕ) (v : V)
      → IsHeap h
      → read_pointer boxing reads h p ≡ some v
      → Owns (read_pointer boxing reads) 0 h p v
  pointer-local h p v heap r h' agree =
      let (a, q, t) = read_pointer-parts boxing reads h p v r in
      let used : p < h.next = let e = heap p in ground (arith, q, e) in
      let same = agree p (omega arith) used in
      let value = k.local h a v heap t h' agree in rw (same, q, value, read_pointer, at) refl

  elements-local :
      (n : ℕ) (h : Heap C) (p : ℕ) (l : List V)
      → IsHeap h
      → read_elements boxing reads h n p ≡ some l
      → (h' : Heap C) → Agree 0 h.next h h'
      → read_elements boxing reads h' n p ≡ some l
  elements-local zero h p l heap r h' agree = r
  elements-local (suc n) h p l heap r h' agree =
      let (v, vs, e, first, others) = read_elements-parts boxing reads h n p l r in
      let head = pointer-local h p v heap first h' agree in
      let tail = elements-local n h (suc p) vs heap others h' agree in
      rw (e, head, tail, read_elements) refl

module _ {C A V : Type 0} (boxing : Boxing C A) {reads : Reads C A V} {copy : A → M C A}
    (unbox-box : (a : A) → boxing.unbox (boxing.box a) ≡ some a) (k : IsCopier reads copy) where
  -- The heap after `new` or `make`.
  abbrev with_room : Heap C → ℕ → Heap C
  with_room h n = record h { next = h.next + n }

  pointer-copies :
      (h : Heap C) (p : ℕ) (v : V)
      → IsHeap h
      → read_pointer boxing reads h p ≡ some v
      → Copied (read_pointer boxing reads) (copy_pointer boxing copy) h p v
  unfolding copy_pointer
  pointer-copies h p v heap r =
      let room = with_room h 1 in
      let one =
        copy_into-CopiedInto boxing unbox-box k room p h.next v (λ q above. heap q (omega arith))
          (omega arith) (pointer-local boxing k h p v heap r room (λ q above below. refl)) in
      let grown = one.grown in
      record {
        out = h.next;
        heap = one.heap;
        returns = rw (one.returns, and_then) refl;
        grown = omega arith;
        kept = λ q above below. one.kept q (omega arith) (inl below);
        is_heap = one.is_heap;
        owned = λ h' agree.
            one.owned h' (agree h.next (omega arith) (omega arith))
              (λ q above below. agree q (omega arith) below);
      }

  slice-copies :
      (h : Heap C) (s : Slice) (l : List V)
      → IsHeap h
      → read_slice boxing reads h s ≡ some l
      → Copied (read_slice boxing reads) (copy_slice boxing copy) h s l
  unfolding copy_slice
  slice-copies h s l heap r =
      let room = with_room h s.len in
      let all =
        copy_elements-CopiedElements boxing unbox-box k s.len h.next room s.base h.next l
          (λ q above. heap q (omega arith)) (omega arith) (omega arith)
          (λ h' agree. elements-local boxing k s.len h s.base l heap r h' agree) in
      let grown = all.grown in
      record {
        out = record { base = h.next; len = s.len };
        heap = all.heap;
        returns = rw (all.returns, and_then) refl;
        grown = omega arith;
        kept = λ q above below. all.kept q (omega arith) (inl below);
        is_heap = all.is_heap;
        owned = λ h' agree.
            all.owned h' (λ q above below. agree q above (omega arith))
              (λ q above below. agree q (omega arith) below);
      }

  pub pointer-IsCopier : IsCopier (read_pointer boxing reads) (copy_pointer boxing copy)
  pointer-IsCopier = record { local = pointer-local boxing k; copies = pointer-copies }

  pub slice-IsCopier : IsCopier (read_slice boxing reads) (copy_slice boxing copy)
  slice-IsCopier = record {
    local = λ h s l heap r. elements-local boxing k s.len h s.base l heap r;
    copies = slice-copies;
  }
