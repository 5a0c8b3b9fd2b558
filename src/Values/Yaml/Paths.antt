-- ===== src/Values/Yaml/Paths.antt =====
-- internal/values/yaml.go: the flat map of a document, described by the paths that lead into it.
use mathlib.Core.List.{Memᴰ}
use mathlib.Core.List.Memᴰ
use k8s_werf_operator_go.Base.{
  ℕ, zero, suc, ◌+◌, true, false, some, List, [], ◌∷◌, ◌++◌, ◌≡◌, ◌⊎◌, ◌↔◌, inl, inr, refl, sym, ap,
  ◌∙◌, subst, arith, GoString, lit, str_eq, str_eq_iff, Bool-cases,
}
use k8s_werf_operator_go.Base.Decimal.{format_ℕ, format_ℤ}
use k8s_werf_operator_go.Base.Maps.{GoMap, lookup, IsMap}
use k8s_werf_operator_go.Values.Merge.{or_else-none, lookup-merge_into}
use k8s_werf_operator_go.Values.Yaml.{
  Value, Items, Fields, flatten_value, leaves, leaves_items, leaves_fields, flatten_value-leaves,
  field_path, item_path, format_bool,
}
use k8s_werf_operator_go.Values.Yaml

-- One step into a value: to the field of a key, or to the element at an index.
pub data Step : Type 0 where
  key : GoString → Step
  index : ℕ → Step

-- A key is joined to what is before it by a dot.
abbrev key_text : GoString → GoString → GoString
key_text [] k = k
key_text (c ∷ s) k = (c ∷ s) ++ lit "." ++ k

-- How a path is written after what was written so far: an index stands in brackets.
abbrev pub path_text : GoString → List Step → GoString
path_text s [] = s
path_text s (key k ∷ path) = path_text (key_text s k) path
path_text s (index i ∷ path) = path_text (s ++ lit "[" ++ format_ℕ i ++ lit "]") path

module _ (format_float : ℕ → GoString) where
  -- The path leads from the value to a scalar with this text.
  unfoldable mutual
    pub ScalarAt : Value → List Step → GoString → Type 0
    ScalarAt (Value.object fs) (key k ∷ path) text = FieldAt fs k path text
    ScalarAt (Value.array vs) (index i ∷ path) text = ItemAt vs i path text
    ScalarAt (Value.string s) [] text = text ≡ s
    ScalarAt (Value.int n) [] text = text ≡ format_ℤ n
    ScalarAt (Value.int64 n) [] text = text ≡ format_ℤ n
    ScalarAt (Value.float64 w) [] text = text ≡ format_float w
    ScalarAt (Value.bool true) [] text = text ≡ lit "true"
    ScalarAt (Value.bool false) [] text = text ≡ lit "false"
    ScalarAt Value.null [] text = text ≡ []
    ScalarAt (Value.other s) [] text = text ≡ s
    ScalarAt _ _ text = ⊥

    pub FieldAt : Fields → GoString → List Step → GoString → Type 0
    FieldAt Yaml.end k path text = ⊥
    FieldAt (Yaml.field j v fs) k path text =
        ((k ≡ j) × ScalarAt v path text) ⊎ FieldAt fs k path text

    pub ItemAt : Items → ℕ → List Step → GoString → Type 0
    ItemAt Yaml.nil i path text = ⊥
    ItemAt (Yaml.item v vs) zero path text = ScalarAt v path text
    ItemAt (Yaml.item v vs) (suc i) path text = ItemAt vs i path text

  abbrev index_text : GoString → ℕ → GoString
  index_text s i = s ++ lit "[" ++ format_ℕ i ++ lit "]"

  key_text-field_path : (s k : GoString) → field_path s k ≡ key_text s k
  unfolding lit
  key_text-field_path [] k = refl
  key_text-field_path (c ∷ s) k = refl

  mutual
    unfolding ScalarAt leaves lit

    ScalarAt-leaves :
        (s : GoString) (v : Value) (path : List Step) (text : GoString)
        → ScalarAt v path text
        → Memᴰ (path_text s path, text) (leaves format_float s v)
    ScalarAt-leaves s (Value.object fs) (key k ∷ path) text h = FieldAt-leaves s fs k path text h
    ScalarAt-leaves s (Value.object fs) (index i ∷ path) text h = elim h [ ]
    ScalarAt-leaves s (Value.object fs) [] text h = elim h [ ]
    ScalarAt-leaves s (Value.array vs) (index i ∷ path) text h =
        subst (λ j. Memᴰ (path_text (index_text s j) path, text) (leaves_items format_float s 0 vs))
          (omega arith) (ItemAt-leaves s 0 vs i path text h)
    ScalarAt-leaves s (Value.array vs) (key k ∷ path) text h = elim h [ ]
    ScalarAt-leaves s (Value.array vs) [] text h = elim h [ ]
    ScalarAt-leaves s (Value.string x) [] text h = Memᴰ.head (ap (λ t. (s, t)) h)
    ScalarAt-leaves s (Value.string x) (step ∷ path) text h = elim h [ ]
    ScalarAt-leaves s (Value.int n) [] text h = Memᴰ.head (ap (λ t. (s, t)) h)
    ScalarAt-leaves s (Value.int n) (step ∷ path) text h = elim h [ ]
    ScalarAt-leaves s (Value.int64 n) [] text h = Memᴰ.head (ap (λ t. (s, t)) h)
    ScalarAt-leaves s (Value.int64 n) (step ∷ path) text h = elim h [ ]
    ScalarAt-leaves s (Value.float64 w) [] text h = Memᴰ.head (ap (λ t. (s, t)) h)
    ScalarAt-leaves s (Value.float64 w) (step ∷ path) text h = elim h [ ]
    ScalarAt-leaves s (Value.bool true) [] text h = Memᴰ.head (ap (λ t. (s, t)) h)
    ScalarAt-leaves s (Value.bool true) (step ∷ path) text h = elim h [ ]
    ScalarAt-leaves s (Value.bool false) [] text h = Memᴰ.head (ap (λ t. (s, t)) h)
    ScalarAt-leaves s (Value.bool false) (step ∷ path) text h = elim h [ ]
    ScalarAt-leaves s Value.null [] text h = Memᴰ.head (ap (λ t. (s, t)) h)
    ScalarAt-leaves s Value.null (step ∷ path) text h = elim h [ ]
    ScalarAt-leaves s (Value.other x) [] text h = Memᴰ.head (ap (λ t. (s, t)) h)
    ScalarAt-leaves s (Value.other x) (step ∷ path) text h = elim h [ ]

    FieldAt-leaves :
        (s : GoString) (fs : Fields) (k : GoString) (path : List Step) (text : GoString)
        → FieldAt fs k path text
        → Memᴰ (path_text (key_text s k) path, text) (leaves_fields format_float s fs)
    FieldAt-leaves s Yaml.end k path text h = elim h [ ]
    FieldAt-leaves s (Yaml.field j v fs) k path text (inl (e, h)) =
        let same : field_path s j ≡ key_text s k =
          key_text-field_path s j ∙ ap (key_text s) (sym e) in
        Memᴰ.append_left (leaves_fields format_float s fs) (
          subst
            (λ start. Memᴰ (path_text start path, text) (leaves format_float (field_path s j) v))
            same (ScalarAt-leaves (field_path s j) v path text h))
    FieldAt-leaves s (Yaml.field j v fs) k path text (inr h) =
        Memᴰ.append_right (leaves format_float (field_path s j) v)
          (FieldAt-leaves s fs k path text h)

    ItemAt-leaves :
        (s : GoString) (n : ℕ) (vs : Items) (i : ℕ) (path : List Step) (text : GoString)
        → ItemAt vs i path text
        → Memᴰ (path_text (index_text s (n + i)) path, text) (leaves_items format_float s n vs)
    ItemAt-leaves s n Yaml.nil i path text h = elim h [ ]
    ItemAt-leaves s n (Yaml.item v vs) zero path text h =
        Memᴰ.append_left (leaves_items format_float s (suc n) vs) (
          subst
            (λ j.
              Memᴰ (path_text (index_text s j) path, text) (leaves format_float (item_path s n) v))
            (omega arith) (ScalarAt-leaves (item_path s n) v path text h))
    ItemAt-leaves s n (Yaml.item v vs) (suc i) path text h =
        Memᴰ.append_right (leaves format_float (item_path s n) v) (
          subst
            (λ j.
              Memᴰ (path_text (index_text s j) path, text) (leaves_items format_float s (suc n) vs))
            (omega arith) (ItemAt-leaves s (suc n) vs i path text h))

  only_leaf :
      {s x k text : GoString}
      → Memᴰ {A = GoString × GoString} (k, text) ((s, x) ∷ [])
      → (s ≡ k) × (text ≡ x)
  only_leaf m = let e = Memᴰ.eq_of_singleton m in (sym (ap (λ l. l.0) e), ap (λ l. l.1) e)

  mutual
    unfolding ScalarAt leaves lit

    leaves-ScalarAt :
        (s : GoString) (v : Value) (k text : GoString)
        → Memᴰ (k, text) (leaves format_float s v)
        → (path : List Step) × (path_text s path ≡ k) × ScalarAt v path text
    leaves-ScalarAt s (Value.object fs) k text m =
        let (j, path, e, h) = leaves-FieldAt s fs k text m in (key j ∷ path, e, h)
    leaves-ScalarAt s (Value.array vs) k text m =
        let (i, path, e, h) = leaves-ItemAt s 0 vs k text m in
        (index i ∷ path, subst (λ j. path_text (index_text s j) path ≡ k) (omega arith) e, h)
    leaves-ScalarAt s (Value.string x) k text m = let (e, h) = only_leaf m in ([], e, h)
    leaves-ScalarAt s (Value.int n) k text m = let (e, h) = only_leaf m in ([], e, h)
    leaves-ScalarAt s (Value.int64 n) k text m = let (e, h) = only_leaf m in ([], e, h)
    leaves-ScalarAt s (Value.float64 w) k text m = let (e, h) = only_leaf m in ([], e, h)
    leaves-ScalarAt s (Value.bool true) k text m = let (e, h) = only_leaf m in ([], e, h)
    leaves-ScalarAt s (Value.bool false) k text m = let (e, h) = only_leaf m in ([], e, h)
    leaves-ScalarAt s Value.null k text m = let (e, h) = only_leaf m in ([], e, h)
    leaves-ScalarAt s (Value.other x) k text m = let (e, h) = only_leaf m in ([], e, h)

    leaves-FieldAt :
        (s : GoString) (fs : Fields) (k text : GoString)
        → Memᴰ (k, text) (leaves_fields format_float s fs)
        → (j : GoString) × (path : List Step) × (path_text (key_text s j) path ≡ k)
          × FieldAt fs j path text
    leaves-FieldAt s Yaml.end k text m = elim m [ ]
    leaves-FieldAt s (Yaml.field j v fs) k text m =
        elim (Memᴰ.append_cases (leaves format_float (field_path s j) v) m) [
          | inl l ↦
              let (path, e, h) = leaves-ScalarAt (field_path s j) v k text l in
              (
                j,
                path,
                subst (λ start. path_text start path ≡ k) (key_text-field_path s j) e,
                inl (refl, h),
              )
          | inr r ↦ let (i, path, e, h) = leaves-FieldAt s fs k text r in (i, path, e, inr h)
        ]

    leaves-ItemAt :
        (s : GoString) (n : ℕ) (vs : Items) (k text : GoString)
        → Memᴰ (k, text) (leaves_items format_float s n vs)
        → (i : ℕ) × (path : List Step) × (path_text (index_text s (n + i)) path ≡ k)
          × ItemAt vs i path text
    leaves-ItemAt s n Yaml.nil k text m = elim m [ ]
    leaves-ItemAt s n (Yaml.item v vs) k text m =
        elim (Memᴰ.append_cases (leaves format_float (item_path s n) v) m) [
          | inl l ↦
              let (path, e, h) = leaves-ScalarAt (item_path s n) v k text l in
              (0, path, subst (λ j. path_text (index_text s j) path ≡ k) (omega arith) e, h)
          | inr r ↦
              let (i, path, e, h) = leaves-ItemAt s (suc n) vs k text r in
              (suc i, path, subst (λ j. path_text (index_text s j) path ≡ k) (omega arith) e, h)
        ]

  lookup-Mem : (k text : GoString) (m : GoMap GoString) → lookup k m ≡ some text → Memᴰ (k, text) m
  unfolding lookup
  lookup-Mem k text [] h = cc
  lookup-Mem k text ((j, v) ∷ m) h = elim (Bool-cases (str_eq j k)) [
    | inl q ↦
        let same : v ≡ text = ground (arith, h, q) in
        Memᴰ.head (ap (λ x. (x, text)) (sym ((str_eq_iff j k).0 q)) ∙ ap (λ t. (j, t)) (sym same))
    | inr q ↦ Memᴰ.tail (lookup-Mem k text m (ground (arith, h, q)))
  ]

  Mem-lookup :
      (k text : GoString) (m : GoMap GoString) → IsMap m → Memᴰ (k, text) m → lookup k m ≡ some text
  unfolding lookup
  Mem-lookup k text [] one m = elim m [ ]
  Mem-lookup k text ((j, v) ∷ m) one (Memᴰ.head e) =
      let same : str_eq j k ≡ true = (str_eq_iff j k).1 (sym (ap (λ l. l.0) e)) in
      rw (same, lookup) (ap (λ l. some l.1) (sym e))
  Mem-lookup k text ((j, v) ∷ m) (fresh, one) (Memᴰ.tail h) =
      let there = Mem-lookup k text m one h in
      elim (Bool-cases (str_eq j k)) [
        | inl q ↦ absurd (cc (ap (λ x. lookup x m) ((str_eq_iff j k).0 q), fresh, there))
        | inr q ↦ rw (q, lookup) there
      ]

  -- Where no two leaves of a document have the same path, the flat map has a text under a key exactly
  -- if the key is a path of the document, written with dots between keys and indices in brackets,
  -- that leads to a scalar with this text.
  pub lookup-flatten_value :
      (v : Value) (k text : GoString)
      → IsMap (leaves format_float [] v)
      → (lookup k (flatten_value format_float [] v []) ≡ some text)
        ↔ ((path : List Step) × (path_text [] path ≡ k) × ScalarAt v path text)
  lookup-flatten_value v k text one =
      let found : lookup k (flatten_value format_float [] v [])
          ≡ lookup k (leaves format_float [] v) =
        rw
          (
            flatten_value-leaves format_float [] v [],
            lookup-merge_into k (leaves format_float [] v) [] one,
          )
          (unfold lookup in or_else-none _) in
      (
        λ h. leaves-ScalarAt [] v k text (lookup-Mem k text _ (sym found ∙ h)),
        λ h.
            let (path, e, scalar) = h in
            found
            ∙ Mem-lookup k text _ one (
                subst (λ x. Memᴰ (x, text) (leaves format_float [] v)) e
                  (ScalarAt-leaves [] v path text scalar)),
      )
