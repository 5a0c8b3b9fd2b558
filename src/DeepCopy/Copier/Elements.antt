-- ===== src/DeepCopy/Copier/Elements.antt =====
-- Deep copies of what a pointer points to, and of the elements of a slice.
use k8s_werf_operator_go.Base.{
  ℕ, zero, suc, Option, none, some, List, [], ◌∷◌, ◌≤◌, ◌<◌, ◌≡◌, ◌⊎◌, refl, arith, inl, inr,
  Option-cases, ◌==◌, if◌then◌else◌,
}
use k8s_werf_operator_go.DeepCopy.Heap.{Heap, Boxing, Slice, M, at, load, copy_into}
use k8s_werf_operator_go.DeepCopy.Copier.{Reads, IsHeap, Agree, IsCopier}

module _ {C A V : Type 0} (boxing : Boxing C A) (reads : Reads C A V) where
  -- What a pointer points to, read as a value.
  abbrev pub read_pointer : Reads C ℕ V
  read_pointer h p = elim (at boxing h p) [ none ↦ none | some a ↦ reads h a ]

  abbrev pub read_elements : Heap C → ℕ → ℕ → Option (List V)
  read_elements h zero p = some []
  read_elements h (suc n) p = elim (read_pointer h p) [
    | none ↦ none
    | some v ↦ elim (read_elements h n (suc p)) [ none ↦ none | some vs ↦ some (v ∷ vs) ]
  ]

  abbrev pub read_slice : Reads C Slice (List V)
  read_slice h s = read_elements h s.len s.base

  -- What an element, or the first of some elements, that can be read is made of.
  pub read_pointer-parts :
      (h : Heap C) (p : ℕ) (v : V)
      → read_pointer h p ≡ some v
      → (a : A) × (at boxing h p ≡ some a) × (reads h a ≡ some v)
  read_pointer-parts h p v r = elim (Option-cases (at boxing h p)) [
    | inl q ↦ absurd (ground (arith, rw (q, read_pointer) at r))
    | inr (a, q) ↦ (a, q, rw (q, read_pointer) at r)
  ]

  pub read_elements-parts :
      (h : Heap C) (n p : ℕ) (l : List V)
      → read_elements h (suc n) p ≡ some l
      → (v : V) × (vs : List V) × (l ≡ v ∷ vs)
        × (read_pointer h p ≡ some v)
        × (read_elements h n (suc p) ≡ some vs)
  read_elements-parts h n p l r = elim (Option-cases (read_pointer h p)) [
    | inl q ↦ absurd (ground (arith, q, r))
    | inr (v, q) ↦ elim (Option-cases (read_elements h n (suc p))) [
      | inl t ↦ absurd (ground (arith, q, t, r))
      | inr (vs, t) ↦ (v, vs, ground (arith, q, t, r), q, t)
    ]
  ]

module _ {C A V : Type 0} (boxing : Boxing C A) (reads : Reads C A V) (copy : A → M C A) where
  -- One element, copied to memory that `new` or `make` has given.
  pub record CopiedInto (h : Heap C) (src dst : ℕ) (v : V) : Type 0 where
    pub heap : Heap C
    pub returns : copy_into boxing copy src dst h ≡ some (tt, heap)
    pub grown : h.next ≤ heap.next
    pub is_heap : IsHeap heap
    pub kept : (p : ℕ) → p < h.next → (p < dst) ⊎ (dst < p) → heap.cell p ≡ h.cell p
    pub owned :
        (h' : Heap C)
        → h'.cell dst ≡ heap.cell dst
        → Agree h.next heap.next heap h'
        → read_pointer boxing reads h' dst ≡ some v

module _ {C A V : Type 0} (boxing : Boxing C A) {reads : Reads C A V} {copy : A → M C A}
    (unbox-box : (a : A) → boxing.unbox (boxing.box a) ≡ some a) (k : IsCopier reads copy) where
  pub copy_into-CopiedInto :
      (h : Heap C) (src dst : ℕ) (v : V)
      → IsHeap h
      → dst < h.next
      → read_pointer boxing reads h src ≡ some v
      → CopiedInto boxing reads copy h src dst v
  copy_into-CopiedInto h src dst v heap inside r =
      let (a, q, t) = read_pointer-parts boxing reads h src v r in
      let c = k.copies h a v heap t in
      let after : Heap C = record (c.heap) {
        cell = λ p. if p == dst then some (boxing.box c.out) else c.heap.cell p;
      } in
      record {
        heap = after;
        returns = rw (q, c.returns, copy_into, load) refl;
        grown = c.grown;
        is_heap = λ p above. let e = c.is_heap p above in ground (arith, e, c.grown, inside);
        kept = λ p below apart. let e = c.kept p (omega arith) below in ground (arith, e, apart);
        owned = λ h' same agree.
            let cell : h'.cell dst ≡ some (boxing.box c.out) = ground (arith, same) in
            let found : at boxing h' dst ≡ some c.out = rw (cell, at) (unbox-box c.out) in
            let value : reads h' c.out ≡ some v =
              c.owned h'
                (λ p above below. let e = agree p above below in ground (arith, e, inside)) in
            rw (found, read_pointer) value;
      }
