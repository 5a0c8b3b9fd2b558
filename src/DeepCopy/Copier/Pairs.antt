-- ===== src/DeepCopy/Copier/Pairs.antt =====
-- Deep copies of pointers that may be nil, of pairs, and of structs that amount to those.
use k8s_werf_operator_go.Base.{ℕ, Option, none, some, ◌≡◌, ◌∙◌, refl, arith, inl, inr, Option-cases}
use k8s_werf_operator_go.DeepCopy.Heap.{Heap, M, pure, ◌>>=◌, and_then, copy_optional}
use k8s_werf_operator_go.DeepCopy.Copier.{
  Reads, IsHeap, Agree, Owns, Owns-kept, Copied, IsCopier, read_optional,
}

-- A read of two things, in a heap.
abbrev pub read_pair : {C A B V W : Type 0} → Reads C A V → Reads C B W → Reads C (A × B) (V × W)
read_pair reads_a reads_b h (a, b) = elim (reads_a h a) [
  | none ↦ none
  | some v ↦ elim (reads_b h b) [ none ↦ none | some w ↦ some (v, w) ]
]

abbrev pub copy_pair : {C A B : Type 0} → (A → M C A) → (B → M C B) → A × B → M C (A × B)
copy_pair copy_a copy_b (a, b) = do a' ← copy_a a; b' ← copy_b b; pure (a', b')

module _ {C A V : Type 0} {reads : Reads C A V} {copy : A → M C A} (k : IsCopier reads copy) where
  optional-local :
      (h : Heap C) (a : Option A) (v : Option V)
      → IsHeap h
      → read_optional reads h a ≡ some v
      → Owns (read_optional reads) 0 h a v
  optional-local h none v heap r h' agree = r
  optional-local h (some a) v heap r h' agree = elim (Option-cases (reads h a)) [
    | inl q ↦ absurd (ground (arith, rw (q, read_optional) at r))
    | inr (w, q) ↦
        let same = k.local h a w heap q h' agree in ground (arith, same, rw (q, read_optional) at r)
  ]

  optional-copies :
      (h : Heap C) (a : Option A) (v : Option V)
      → IsHeap h
      → read_optional reads h a ≡ some v
      → Copied (read_optional reads) (copy_optional copy) h a v
  unfolding copy_optional
  optional-copies h none v heap r = record {
    out = none;
    heap = h;
    returns = refl;
    grown = omega arith;
    kept = λ p above below. refl;
    is_heap = heap;
    owned = λ h' agree. r;
  }
  optional-copies h (some a) v heap r = elim (Option-cases (reads h a)) [
    | inl q ↦ absurd (ground (arith, rw (q, read_optional) at r))
    | inr (w, q) ↦
        let c = k.copies h a w heap q in
        record {
          out = some c.out;
          heap = c.heap;
          returns = rw (c.returns, and_then) refl;
          grown = c.grown;
          kept = c.kept;
          is_heap = c.is_heap;
          owned = λ h' agree.
              let same = c.owned h' agree in ground (arith, same, rw (q, read_optional) at r);
        }
  ]

  pub optional-IsCopier : IsCopier (read_optional reads) (copy_optional copy)
  optional-IsCopier = record { local = optional-local; copies = optional-copies }

module _ {C A B V W : Type 0} (reads_a : Reads C A V) (reads_b : Reads C B W) where
  -- What a pair that can be read is made of.
  read_pair-parts :
      (h : Heap C) (a : A) (b : B) (v : V × W)
      → read_pair reads_a reads_b h (a, b) ≡ some v
      → (reads_a h a ≡ some v.0) × (reads_b h b ≡ some v.1)
  read_pair-parts h a b v r = ground arith

  pair-Owns :
      (h : Heap C) (lo : ℕ) (a : A) (b : B) (v : V × W)
      → Owns reads_a lo h a v.0
      → Owns reads_b lo h b v.1
      → Owns (read_pair reads_a reads_b) lo h (a, b) v
  pair-Owns h lo a b v oa ob h' agree =
      let p = oa h' agree in let q = ob h' agree in ground (arith, p, q)

module _ {C A B V W : Type 0} {reads_a : Reads C A V} {reads_b : Reads C B W} {copy_a : A → M C A}
    {copy_b : B → M C B} (ka : IsCopier reads_a copy_a) (kb : IsCopier reads_b copy_b) where
  pair-local :
      (h : Heap C) (x : A × B) (v : V × W)
      → IsHeap h
      → read_pair reads_a reads_b h x ≡ some v
      → Owns (read_pair reads_a reads_b) 0 h x v
  pair-local h (a, b) v heap r =
      let (p, q) = read_pair-parts reads_a reads_b h a b v r in
      pair-Owns reads_a reads_b h 0 a b v (ka.local h a v.0 heap p) (kb.local h b v.1 heap q)

  pair-copies :
      (h : Heap C) (x : A × B) (v : V × W)
      → IsHeap h
      → read_pair reads_a reads_b h x ≡ some v
      → Copied (read_pair reads_a reads_b) (copy_pair copy_a copy_b) h x v
  pair-copies h (a, b) v heap r =
      let (p, q) = read_pair-parts reads_a reads_b h a b v r in
      let ca = ka.copies h a v.0 heap p in
      let still : reads_b ca.heap b ≡ some v.1 = kb.local h b v.1 heap q ca.heap ca.kept in
      let cb = kb.copies ca.heap b v.1 ca.is_heap still in
      let kept : Agree 0 h.next h cb.heap =
        λ p above below. cb.kept p above (omega (arith, below, ca.grown)) ∙ ca.kept p above below in
      record {
        out = (ca.out, cb.out);
        heap = cb.heap;
        returns = rw (ca.returns, cb.returns) refl;
        grown = omega (arith, ca.grown, cb.grown);
        kept = kept;
        is_heap = cb.is_heap;
        owned =
            pair-Owns reads_a reads_b cb.heap h.next ca.out cb.out v
              (Owns-kept reads_a (omega arith) cb.grown
                (λ p above below. cb.kept p (omega arith) below) ca.owned)
              (Owns-kept reads_b ca.grown (omega arith) (λ p above below. refl) cb.owned);
      }

  pub pair-IsCopier : IsCopier (read_pair reads_a reads_b) (copy_pair copy_a copy_b)
  pair-IsCopier = record { local = pair-local; copies = pair-copies }
