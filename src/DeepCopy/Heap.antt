-- ===== src/DeepCopy/Heap.antt =====
-- The memory of the program, as far as deep copies use it: cells at addresses, pointers and slices.
use k8s_werf_operator_go.Base.{ℕ, zero, suc, Option, none, some, ◌+◌, ◌==◌, if◌then◌else◌}

-- Cells of type `C`; those from `next` on are not in use yet. A cell with nothing in it has been
-- cleared, by `new` or `make`, and not been written to.
pub record Heap (C : Type 0) : Type 0 where
  pub next : ℕ
  pub cell : ℕ → Option C

-- Pointers to values of type `A`, which a cell holds in one of its forms.
pub record Boxing (C A : Type 0) : Type 0 where
  pub box : A → C
  pub unbox : C → Option A

-- A slice that is not nil.
pub record Slice : Type 0 where
  pub base : ℕ
  pub len : ℕ

-- Commands; `none` is a fault.
abbrev pub M : Type 0 → Type 0 → Type 0
M C A = Heap C → Option (A × Heap C)

module _ {C A B : Type 0} where
  abbrev pub and_then : Option (A × Heap C) → (A → M C B) → Option (B × Heap C)
  and_then none k = none
  and_then (some (a, h)) k = k a h

  infixl 5 ◌>>=◌ ◌>>◌
  abbrev pub ◌>>=◌ : M C A → (A → M C B) → M C B
  ◌>>=◌ m k h = and_then (m h) k

  abbrev pub ◌>>◌ : M C A → M C B → M C B
  m >> n = m >>= λ _. n

module _ {C A : Type 0} where
  abbrev pub pure : A → M C A
  pure a h = some (a, h)

-- `new`, and `make` of so many elements: the address of the first.
abbrev pub allocate : {C : Type 0} → ℕ → M C ℕ
allocate n h = some (h.next, record h { next = h.next + n })

abbrev pub write : {C : Type 0} → ℕ → C → M C (Unit {0})
write p c h = some (tt, record h { cell = λ q. if q == p then some c else h.cell q })

module _ {C A : Type 0} (boxing : Boxing C A) where
  -- What is at an address.
  abbrev pub at : Heap C → ℕ → Option A
  at h p = elim (h.cell p) [ none ↦ none | some c ↦ boxing.unbox c ]

  abbrev pub load : ℕ → M C A
  load p h = elim (at h p) [ none ↦ none | some a ↦ some (a, h) ]

  module _ (copy : A → M C A) where
    -- `in.DeepCopyInto(out)`, where `copy` makes the value for `*out` of the value of `*in`.
    abbrev pub copy_into : ℕ → ℕ → M C (Unit {0})
    copy_into src dst = do a ← load src; a' ← copy a; write dst (boxing.box a')

    -- `out = new(T)`, and `in.DeepCopyInto(out)`.
    unfoldable pub copy_pointer : ℕ → M C ℕ
    copy_pointer src = do dst ← allocate 1; copy_into src dst; pure dst

    -- `for i := range in { in[i].DeepCopyInto(&out[i]) }`
    unfoldable pub copy_elements : ℕ → ℕ → ℕ → M C (Unit {0})
    copy_elements zero src dst = pure tt
    copy_elements (suc n) src dst = do copy_into src dst; copy_elements n (suc src) (suc dst)

    -- `out = make([]T, len(in))`, and the loop.
    unfoldable pub copy_slice : Slice → M C Slice
    unfolding copy_elements
    copy_slice s = do
      base ← allocate s.len
      copy_elements s.len s.base base
      pure (record { base = base; len = s.len })

-- `if in != nil`: nil stays nil.
unfoldable pub copy_optional : {C A : Type 0} → (A → M C A) → Option A → M C (Option A)
copy_optional copy none = pure none
copy_optional copy (some a) = do a' ← copy a; pure (some a')
