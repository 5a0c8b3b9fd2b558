-- ===== src/Values/Merge.antt =====
-- internal/values/merge.go: later maps override earlier ones.
use k8s_werf_operator_go.Base.{
  Option, none, some, List, [], ◌∷◌, ◌≡◌, refl, arith, GoString, All, str_eq_iff,
}
use k8s_werf_operator_go.Base.Maps.{GoMap, lookup, insert, IsMap, lookup-insert, insert-IsMap}

-- `for k, v := range m { result[k] = v }`
unfoldable pub merge_into : GoMap GoString → GoMap GoString → GoMap GoString
merge_into [] result = result
merge_into ((k, v) ∷ m) result = merge_into m (insert k v result)

-- the outer loop of `mergeMaps`
merge_loop : List (GoMap GoString) → GoMap GoString → GoMap GoString
unfolding merge_into
merge_loop [] result = result
merge_loop (m ∷ maps) result = merge_loop maps (merge_into m result)

unfoldable pub merge_maps : List (GoMap GoString) → GoMap GoString
unfolding merge_loop
merge_maps maps = merge_loop maps []

abbrev pub or_else : Option GoString → Option GoString → Option GoString
or_else none d = d
or_else (some v) d = some v

pub or_else-none : (o : Option GoString) → or_else o none ≡ o
or_else-none none = refl
or_else-none (some v) = refl

-- The value that the last map with the key gives it.
unfoldable pub last_value : GoString → List (GoMap GoString) → Option GoString
last_value k [] = none
last_value k (m ∷ maps) = or_else (last_value k maps) (lookup k m)

pub lookup-merge_into :
    (k : GoString) (m result : GoMap GoString)
    → IsMap m
    → lookup k (merge_into m result) ≡ or_else (lookup k m) (lookup k result)
unfolding merge_into lookup
lookup-merge_into k [] result h = refl
lookup-merge_into k ((j, v) ∷ m) result (fresh, h) =
    ground (
      arith,
      lookup-merge_into k m (insert j v result) h,
      lookup-insert j k v result,
      str_eq_iff j k,
    )

lookup-merge_loop :
    (k : GoString) (maps : List (GoMap GoString)) (result : GoMap GoString)
    → All IsMap maps
    → lookup k (merge_loop maps result) ≡ or_else (last_value k maps) (lookup k result)
unfolding merge_loop last_value
lookup-merge_loop k [] result h = refl
lookup-merge_loop k (m ∷ maps) result (hm, h) =
    ground
      (arith, lookup-merge_loop k maps (merge_into m result) h, lookup-merge_into k m result hm)

-- In the merge of maps, each listed with one entry to a key, each key has the value that the last
-- of the maps with that key gives it, and no other key is there.
pub lookup-merge_maps :
    (k : GoString) (maps : List (GoMap GoString))
    → All IsMap maps
    → lookup k (merge_maps maps) ≡ last_value k maps
unfolding merge_maps lookup
lookup-merge_maps k maps h = ground (arith, lookup-merge_loop k maps [] h)

merge_into-IsMap : (m result : GoMap GoString) → IsMap result → IsMap (merge_into m result)
unfolding merge_into
merge_into-IsMap [] result h = h
merge_into-IsMap ((k, v) ∷ m) result h =
    merge_into-IsMap m (insert k v result) (insert-IsMap k v result h)

merge_loop-IsMap :
    (maps : List (GoMap GoString)) (result : GoMap GoString)
    → IsMap result
    → IsMap (merge_loop maps result)
unfolding merge_loop
merge_loop-IsMap [] result h = h
merge_loop-IsMap (m ∷ maps) result h =
    merge_loop-IsMap maps (merge_into m result) (merge_into-IsMap m result h)

-- The merged map has one entry to a key.
pub merge_maps-IsMap : (maps : List (GoMap GoString)) → IsMap (merge_maps maps)
unfolding merge_maps
merge_maps-IsMap maps = merge_loop-IsMap maps [] tt
