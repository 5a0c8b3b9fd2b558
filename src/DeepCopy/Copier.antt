-- ===== src/DeepCopy/Copier.antt =====
-- What it means that a copy is deep, and the ways in which deep copies are put together.
pub mod Elements
pub mod Loops
pub mod Pairs
pub mod Slices
pub mod Structs
use k8s_werf_operator_go.Base.{ℕ, Option, none, some, ◌≤◌, ◌<◌, ◌≡◌, ◌∙◌, refl, arith}
use k8s_werf_operator_go.DeepCopy.Heap.{Heap, M, pure, copy_optional}

-- How a thing that has pointers is read as a value; it cannot be if a pointer dangles.
abbrev pub Reads : Type 0 → Type 0 → Type 0 → Type 0
Reads C A V = Heap C → A → Option V

module _ {C : Type 0} where
  -- Nothing is stored beyond the cells in use.
  abbrev pub IsHeap : Heap C → Type 0
  IsHeap h = (p : ℕ) → h.next ≤ p → h.cell p ≡ none

  -- The heaps have the same cells from `lo` to `hi`.
  abbrev pub Agree : ℕ → ℕ → Heap C → Heap C → Type 0
  Agree lo hi h h' = (p : ℕ) → lo ≤ p → p < hi → h'.cell p ≡ h.cell p

  module _ {A V : Type 0} (reads : Reads C A V) where
    -- Of the heap, the cells from `lo` on decide that `a` reads as `v`.
    abbrev pub Owns : ℕ → Heap C → A → V → Type 0
    Owns lo h a v = (h' : Heap C) → Agree lo h.next h h' → reads h' a ≡ some v

    pub Owns-reads : {lo : ℕ} {h : Heap C} {a : A} {v : V} → Owns lo h a v → reads h a ≡ some v
    Owns-reads {h = h} owns = owns h (λ p above below. refl)

    -- What is owned stays owned while its cells are kept.
    pub Owns-kept :
        {lo lo' : ℕ} {h h' : Heap C} {a : A} {v : V}
        → lo' ≤ lo
        → h.next ≤ h'.next
        → Agree lo h.next h h'
        → Owns lo h a v
        → Owns lo' h' a v
    Owns-kept down up kept owns h'' agree =
        owns h'' (λ p above below. agree p (omega arith) (omega arith) ∙ kept p above below)

    -- A deep copy: it reads as the same value, from cells that were not in use; no cell in use has
    -- changed.
    pub record Copied (copy : A → M C A) (h : Heap C) (a : A) (v : V) : Type 0 where
      pub out : A
      pub heap : Heap C
      pub returns : copy a h ≡ some (out, heap)
      pub grown : h.next ≤ heap.next
      pub kept : Agree 0 h.next h heap
      pub is_heap : IsHeap heap
      pub owned : Owns h.next heap out v

    pub record IsCopier (copy : A → M C A) : Type 0 where
      pub local : (h : Heap C) (a : A) (v : V) → IsHeap h → reads h a ≡ some v → Owns 0 h a v
      pub copies : (h : Heap C) (a : A) (v : V) → IsHeap h → reads h a ≡ some v → Copied copy h a v

-- A thing without pointers.
pub pure-IsCopier : {C A : Type 0} → IsCopier {C = C} (λ h (a : A). some a) pure
pure-IsCopier = record {
  local = λ h a v heap r h' agree. r;
  copies = λ h a v heap r. record {
    out = a;
    heap = h;
    returns = refl;
    grown = omega arith;
    kept = λ p above below. refl;
    is_heap = heap;
    owned = λ h' agree. r;
  };
}

abbrev pub read_optional : {C A V : Type 0} → Reads C A V → Reads C (Option A) (Option V)
read_optional reads h none = some none
read_optional reads h (some a) = elim (reads h a) [ none ↦ none | some v ↦ some (some v) ]
