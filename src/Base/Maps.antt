-- ===== src/Base/Maps.antt =====
-- Go maps with string keys: association lists with one entry to a key, listed in the order in
-- which `range` visits them.
use mathlib.Core.Path.{◌≡◌, refl}
use mathlib.Core.Option.{Option, none, some}
use mathlib.Core.List.{List, [], ◌∷◌, map, Permᴰ}
use native.Mathlib.Omega.{arith}
use k8s_werf_operator_go.Base.Tests.{if◌then◌else◌}
use k8s_werf_operator_go.Base.Text.{GoString, str_eq, str_eq_iff, str_eq_refl}

abbrev pub GoMap {ℓ} : Type ℓ → Type ℓ
GoMap V = List (GoString × V)

module _ {ℓ} {V : Type ℓ} where
  -- `m[k]`, with whether the key is there.
  unfoldable pub lookup : GoString → GoMap V → Option V
  lookup k [] = none
  lookup k ((j, v) ∷ m) = if str_eq j k then some v else lookup k m

  -- `m[k] = v`.
  unfoldable pub insert : GoString → V → GoMap V → GoMap V
  insert k v [] = (k, v) ∷ []
  insert k v ((j, w) ∷ m) = if str_eq j k then (k, v) ∷ m else (j, w) ∷ insert k v m

  -- One entry to a key: what every Go map has.
  abbrev pub IsMap : GoMap V → Type ℓ
  IsMap [] = Unit
  IsMap ((k, v) ∷ m) = (lookup k m ≡ none) × IsMap m

  abbrev pub keys : GoMap V → List GoString
  keys = map (λ e. e.0)

  -- Two listings of one map, which `range` may visit in either order.
  pub record IsSameMap (m n : GoMap V) : Type ℓ where
    pub same_keys : Permᴰ (keys m) (keys n)
    pub same_values : (k : GoString) → lookup k m ≡ lookup k n

  pub lookup-insert :
      (k j : GoString) (v : V) (m : GoMap V)
      → lookup j (insert k v m) ≡ (if str_eq k j then some v else lookup j m)
  unfolding lookup insert
  lookup-insert k j v [] = refl
  lookup-insert k j v ((i, w) ∷ m) = ground (
    arith,
    str_eq_iff k j,
    str_eq_iff i k,
    str_eq_iff i j,
    str_eq_refl k,
    str_eq_refl i,
    lookup-insert k j v m,
  )

  pub insert-IsMap : (k : GoString) (v : V) (m : GoMap V) → IsMap m → IsMap (insert k v m)
  unfolding lookup insert
  insert-IsMap k v [] h = (refl, tt)
  insert-IsMap k v ((i, w) ∷ m) (fresh, h) =
      ground (arith, str_eq_iff i k, str_eq_iff k i, insert-IsMap k v m h, lookup-insert k i v m)
