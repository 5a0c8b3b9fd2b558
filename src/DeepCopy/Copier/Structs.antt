-- ===== src/DeepCopy/Copier/Structs.antt =====
-- Deep copies of structs: those of the pointers in them, put back into the struct.
use k8s_werf_operator_go.Base.{Option, none, some, ◌≡◌, ◌∙◌, refl, arith, inl, inr, Option-cases}
use k8s_werf_operator_go.DeepCopy.Heap.{Heap, M, pure, ◌>>=◌, and_then}
use k8s_werf_operator_go.DeepCopy.Copier.{Reads, IsCopier}
use k8s_werf_operator_go.DeepCopy.Copier.Pairs.{copy_pair}

-- Another way to write the same copy.
pub IsCopier-eq :
    {C A V : Type 0} {reads : Reads C A V} {copy copy' : A → M C A}
    → ((a : A) (h : Heap C) → copy' a h ≡ copy a h)
    → IsCopier reads copy
    → IsCopier reads copy'
IsCopier-eq same k = record {
  local = k.local;
  copies = λ h a v heap r.
      let c = k.copies h a v heap r in
      record {
        out = c.out;
        heap = c.heap;
        returns = same a h ∙ c.returns;
        grown = c.grown;
        kept = c.kept;
        is_heap = c.is_heap;
        owned = c.owned;
      };
}

module _ {C A B : Type 0} where
  and_then-ext :
      (m : Option (A × Heap C)) (f g : A → M C B)
      → ((a : A) (h : Heap C) → f a h ≡ g a h)
      → and_then m f ≡ and_then m g
  and_then-ext none f g same = refl
  and_then-ext (some (a, h)) f g same = same a h

module _ {C A B D : Type 0} where
  and_then-and_then :
      (m : Option (A × Heap C)) (f : A → M C B) (g : B → M C D)
      → and_then m (λ a h. and_then (f a h) g) ≡ and_then (and_then m f) g
  and_then-and_then none f g = refl
  and_then-and_then (some (a, h)) f g = refl

module _ {C A B D : Type 0} (copy_a : A → M C A) (copy_b : B → M C B) where
  -- The copies of two pointers of a struct, one after the other, are a copy of the pair.
  pub copy_pair-then :
      (a : A) (b : B) (k : A → B → M C D) (h : Heap C)
      → and_then (copy_a a h) (λ a' h'. and_then (copy_b b h') (k a'))
        ≡ and_then (copy_pair copy_a copy_b (a, b) h) (λ p. k p.0 p.1)
  copy_pair-then a b k h =
      and_then-ext (copy_a a h) (λ a' h'. and_then (copy_b b h') (k a'))
        (λ a' h'. and_then (and_then (copy_b b h') (λ b'. pure (a', b'))) (λ p. k p.0 p.1))
        (λ a' h'. and_then-and_then (copy_b b h') (λ b'. pure (a', b')) (λ p. k p.0 p.1))
      ∙ and_then-and_then (copy_a a h) (λ a' h'. and_then (copy_b b h') (λ b'. pure (a', b')))
          (λ p. k p.0 p.1)

module _ {C A B D E : Type 0} (copy_a : A → M C A) (copy_b : B → M C B) (copy_d : D → M C D) where
  pub copy_triple-then :
      (a : A) (b : B) (d : D) (k : A → B → D → M C E) (h : Heap C)
      → and_then
          (copy_a a h)
          (λ a' h'. and_then (copy_b b h') (λ b' h''. and_then (copy_d d h'') (k a' b')))
        ≡ and_then
            (copy_pair copy_a (copy_pair copy_b copy_d) (a, (b, d)) h)
            (λ p. k p.0 p.1.0 p.1.1)
  copy_triple-then a b d k h =
      and_then-ext (copy_a a h)
        (λ a' h'. and_then (copy_b b h') (λ b' h''. and_then (copy_d d h'') (k a' b')))
        (λ a' h'. and_then (copy_pair copy_b copy_d (b, d) h') (λ p. k a' p.0 p.1))
        (λ a' h'. copy_pair-then copy_b copy_d b d (k a') h')
      ∙ copy_pair-then copy_a (copy_pair copy_b copy_d) a (b, d) (λ a' p. k a' p.0 p.1) h

-- A struct `S` whose pointers are `P`; `value` fills in what the pointers read as.
module _ {C S P V W : Type 0} (to : S → P) (value : S → W → V) where
  abbrev pub read_struct : Reads C P W → Reads C S V
  read_struct reads h s = elim (reads h (to s)) [ none ↦ none | some w ↦ some (value s w) ]

  read_struct-parts :
      (reads : Reads C P W) (h : Heap C) (s : S) (v : V)
      → read_struct reads h s ≡ some v
      → (w : W) × (value s w ≡ v) × (reads h (to s) ≡ some w)
  read_struct-parts reads h s v r = elim (Option-cases (reads h (to s))) [
    | inl q ↦ absurd (ground (arith, q, r))
    | inr (w, q) ↦ (w, ground (arith, q, r), q)
  ]

module _ {C S P : Type 0} (to : S → P) (from : S → P → S) where
  -- `*out = *in`, and the pointers anew.
  abbrev pub copy_struct : (P → M C P) → S → M C S
  copy_struct copy s = do p ← copy (to s); pure (from s p)

module _ {C S P V W : Type 0} (to : S → P) (from : S → P → S) (value : S → W → V) where
  module _ (to-from : (s : S) (p : P) → to (from s p) ≡ p)
      (value-from : (s : S) (p : P) (w : W) → value (from s p) w ≡ value s w) where
    pub struct-IsCopier :
        {reads : Reads C P W} {copy : P → M C P}
        → IsCopier reads copy
        → IsCopier (read_struct to value reads) (copy_struct to from copy)
    struct-IsCopier {reads} {copy} k = record {
      local = λ h s v heap r h' agree.
          let (w, e, q) = read_struct-parts to value reads h s v r in
          let same = k.local h (to s) w heap q h' agree in rw (read_struct, same, e) refl;
      copies = λ h s v heap r.
          let (w, e, q) = read_struct-parts to value reads h s v r in
          let c = k.copies h (to s) w heap q in
          record {
            out = from s c.out;
            heap = c.heap;
            returns = rw (c.returns, and_then) refl;
            grown = c.grown;
            kept = c.kept;
            is_heap = c.is_heap;
            owned = λ h' agree.
                let same = c.owned h' agree in
                rw (read_struct, to-from s c.out, same, value-from s c.out w, e) refl;
          };
    }
