-- ===== src/Base/Sort.antt =====
-- `sort.Strings`: the list in bytewise order. Equal strings cannot be told apart, so every
-- sorting algorithm gives this list.
use mathlib.Core.Path.{◌≡◌, refl, ap, ap₂, ◌∙◌, subst}
use mathlib.Core.Bool.{true}
use mathlib.Core.Option.{none, some}
use mathlib.Core.List.{List, [], ◌∷◌, Permᴰ, Memᴰ}
use mathlib.Core.List.Permᴰ
use mathlib.Core.Logic.{◌≢◌, inl, inr}
use native.Mathlib.Omega.{arith}
use k8s_werf_operator_go.Base.Tests.{if◌then◌else◌, Bool-cases}
use k8s_werf_operator_go.Base.Lists.{All, get_last?}
use k8s_werf_operator_go.Base.Text.{
  GoString, str_le, str_le_refl, str_le_total, str_le_trans, str_le_antisymm,
}

insert : GoString → List GoString → List GoString
insert s [] = s ∷ []
insert s (t ∷ l) = if str_le s t then s ∷ t ∷ l else t ∷ insert s l

unfoldable pub sort_strings : List GoString → List GoString
unfolding insert
sort_strings [] = []
sort_strings (s ∷ l) = insert s (sort_strings l)

insert_comm : (s t : GoString) (l : List GoString) → insert s (insert t l) ≡ insert t (insert s l)
unfolding insert
insert_comm s t [] = ground (arith, str_le_total s t, str_le_antisymm s t)
insert_comm s t (u ∷ l) = ground (
  arith,
  insert_comm s t l,
  str_le_total s t,
  str_le_total t s,
  str_le_antisymm s t,
  str_le_trans s t u,
  str_le_trans t s u,
  str_le_total t u,
  str_le_total s u,
)

-- The order in which the strings are given does not matter.
pub sort_strings_permᴰ : {l m : List GoString} → Permᴰ l m → sort_strings l ≡ sort_strings m
unfolding sort_strings
sort_strings_permᴰ Permᴰ.nil = refl
sort_strings_permᴰ (Permᴰ.cons e p) = ap₂ insert e (sort_strings_permᴰ p)
sort_strings_permᴰ (Permᴰ.swap {a} {b} {a'} {b'} {l} e f) =
    insert_comm a b (sort_strings l) ∙ ap₂ insert f (ap (λ x. insert x (sort_strings l)) e)
sort_strings_permᴰ (Permᴰ.trans p q) = sort_strings_permᴰ p ∙ sort_strings_permᴰ q

abbrev pub IsBelow : GoString → GoString → Type 0
IsBelow t s = str_le s t ≡ true

-- Each element is at most the next.
abbrev pub IsSorted : List GoString → Type 0
IsSorted [] = Unit
IsSorted (s ∷ []) = Unit
IsSorted (s ∷ t ∷ l) = IsBelow t s × IsSorted (t ∷ l)

insert-IsSorted : (s : GoString) (l : List GoString) → IsSorted l → IsSorted (insert s l)
unfolding insert
insert-IsSorted s [] h = tt
insert-IsSorted s (t ∷ []) h = ground (arith, str_le_total s t)
insert-IsSorted s (t ∷ u ∷ l) (p, h) = ground (arith, str_le_total s t, insert-IsSorted s (u ∷ l) h)

pub sort_strings-IsSorted : (l : List GoString) → IsSorted (sort_strings l)
unfolding sort_strings
sort_strings-IsSorted [] = tt
sort_strings-IsSorted (s ∷ l) = insert-IsSorted s (sort_strings l) (sort_strings-IsSorted l)

insert-permᴰ : (s : GoString) (l : List GoString) → Permᴰ (insert s l) (s ∷ l)
unfolding insert
insert-permᴰ s [] = Permᴰ.refl (s ∷ [])
insert-permᴰ s (t ∷ l) = elim (Bool-cases (str_le s t)) [
  | inl h ↦ rw h (Permᴰ.refl (s ∷ t ∷ l))
  | inr h ↦ rw h (Permᴰ.trans (Permᴰ.cons refl (insert-permᴰ s l)) (Permᴰ.swap refl refl))
]

pub sort_strings-permᴰ : (l : List GoString) → Permᴰ (sort_strings l) l
unfolding sort_strings
sort_strings-permᴰ [] = Permᴰ.nil
sort_strings-permᴰ (s ∷ l) =
    Permᴰ.trans (insert-permᴰ s (sort_strings l)) (Permᴰ.cons refl (sort_strings-permᴰ l))

-- The last element of a sorted list is the greatest.
last_of_IsSorted :
    (l : List GoString) {t : GoString} → IsSorted l → get_last? l ≡ some t → All (IsBelow t) l
last_of_IsSorted [] h e = tt
last_of_IsSorted (s ∷ []) {t} h e = ground (arith, str_le_refl s)
last_of_IsSorted (s ∷ u ∷ l) {t} (p, h) e =
    let below = last_of_IsSorted (u ∷ l) h e in (str_le_trans s u t p below.0, below)

pub All-permᴰ : {l m : List GoString} (P : GoString → Type 0) → Permᴰ l m → All P l → All P m
All-permᴰ P Permᴰ.nil h = tt
All-permᴰ P (Permᴰ.cons e p) (h, hs) = (subst P e h, All-permᴰ P p hs)
All-permᴰ P (Permᴰ.swap e f) (h, (k, hs)) = (subst P f k, (subst P e h, hs))
All-permᴰ P (Permᴰ.trans p q) h = All-permᴰ P q (All-permᴰ P p h)

last-mem : {A : Type 0} (l : List A) {t : A} → get_last? l ≡ some t → Memᴰ t l
last-mem [] e = cc
last-mem (s ∷ []) e = Memᴰ.head (cc)
last-mem (s ∷ u ∷ l) e = Memᴰ.tail (last-mem (u ∷ l) e)

mem-permᴰ : {l m : List GoString} {t : GoString} → Permᴰ l m → Memᴰ t l → Memᴰ t m
mem-permᴰ Permᴰ.nil h = elim h [ ]
mem-permᴰ (Permᴰ.cons e p) (Memᴰ.head f) = Memᴰ.head (f ∙ e)
mem-permᴰ (Permᴰ.cons e p) (Memᴰ.tail h) = Memᴰ.tail (mem-permᴰ p h)
mem-permᴰ (Permᴰ.swap e f) (Memᴰ.head g) = Memᴰ.tail (Memᴰ.head (g ∙ e))
mem-permᴰ (Permᴰ.swap e f) (Memᴰ.tail (Memᴰ.head g)) = Memᴰ.head (g ∙ f)
mem-permᴰ (Permᴰ.swap e f) (Memᴰ.tail (Memᴰ.tail h)) = Memᴰ.tail (Memᴰ.tail h)
mem-permᴰ (Permᴰ.trans p q) h = mem-permᴰ q (mem-permᴰ p h)

-- The last of the sorted strings is one of the strings, and none is greater.
pub sort_strings_last :
    (l : List GoString) {t : GoString}
    → get_last? (sort_strings l) ≡ some t
    → Memᴰ t l × All (IsBelow t) l
sort_strings_last l {t} e = (
  mem-permᴰ (sort_strings-permᴰ l) (last-mem (sort_strings l) e),
  All-permᴰ (IsBelow t) (sort_strings-permᴰ l)
      (last_of_IsSorted (sort_strings l) (sort_strings-IsSorted l) e),
)

get_last?-cons : {A : Type 0} (x : A) (l : List A) → get_last? (x ∷ l) ≢ none
get_last?-cons x [] h = cc
get_last?-cons x (y ∷ l) h = get_last?-cons y l h

insert_last : (s : GoString) (l : List GoString) → get_last? (insert s l) ≢ none
unfolding insert
insert_last s [] h = cc
insert_last s (t ∷ l) h = elim (Bool-cases (str_le s t)) [
  | inl q ↦ get_last?-cons s (t ∷ l) (rw q at h)
  | inr q ↦ get_last?-cons t (insert s l) (rw q at h)
]

-- A list with no last string after sorting is empty.
pub sort_strings_no_last : (l : List GoString) → get_last? (sort_strings l) ≡ none → l ≡ []
unfolding sort_strings
sort_strings_no_last [] h = refl
sort_strings_no_last (s ∷ l) h = absurd (insert_last s (sort_strings l) h)
