-- ===== src/Values/Escape.antt =====
-- internal/values/cli.go: escaping for Helm's `--set`.
use k8s_werf_operator_go.Base.{
  ℕ, Bool, Option, none, some, [], ◌∷◌, ◌++◌, append_assoc, ◌≡◌, ◌∙◌, ap₂, refl, arith, ◌==◌, ◌||◌,
  if◌then◌else◌, GoString,
}

abbrev pub backslash : ℕ
backslash = b'\\'

-- `strings.ReplaceAll(s, old, new)` for an `old` of one byte.
unfoldable pub replace_all : GoString → ℕ → GoString → GoString
replace_all [] old new = []
replace_all (c ∷ s) old new = (if c == old then new else c ∷ []) ++ replace_all s old new

-- The five replacements, the backslash first.
unfoldable pub escape_value : GoString → GoString
unfolding replace_all
escape_value value =
    let doubled = replace_all value backslash (backslash ∷ backslash ∷ []) in
    let commas = replace_all doubled b',' (backslash ∷ b',' ∷ []) in
    let equals = replace_all commas b'=' (backslash ∷ b'=' ∷ []) in
    let opens = replace_all equals b'[' (backslash ∷ b'[' ∷ []) in
    replace_all opens b']' (backslash ∷ b']' ∷ [])

-- The characters that Helm's parser treats specially.
unfoldable pub is_special : ℕ → Bool
is_special c = c == backslash || (c == b',' || (c == b'=' || (c == b'[' || c == b']')))

-- Escaping in one pass: a backslash before each special character.
unfoldable pub escape_byte : ℕ → GoString
unfolding is_special
escape_byte c = if is_special c then backslash ∷ c ∷ [] else c ∷ []

-- The reading that the escaping convention asks for: a backslash takes the next character as it
-- is, and a special character with no backslash does not belong to a value.
unfoldable pub unescape : GoString → Option GoString
unfolding is_special
unescape [] = some []
unescape (c ∷ []) = if is_special c then none else some (c ∷ [])
unescape (c ∷ d ∷ s) =
    let escaped = unescape s in
    let plain = unescape (d ∷ s) in
    if c == backslash
    then elim escaped [ none ↦ none | some t ↦ some (d ∷ t) ]
    else if is_special c
    then none
    else elim plain [ none ↦ none | some t ↦ some (c ∷ t) ]

-- One pass of escaping over a whole value.
unfoldable escape_bytes : GoString → GoString
unfolding escape_byte
escape_bytes [] = []
escape_bytes (c ∷ s) = escape_byte c ++ escape_bytes s

replace_all-append :
    (s t : GoString) (old : ℕ) (new : GoString)
    → replace_all (s ++ t) old new ≡ replace_all s old new ++ replace_all t old new
unfolding replace_all
replace_all-append [] t old new = refl
replace_all-append (c ∷ s) t old new = simp (replace_all-append s t old new, append_assoc)

escape_value-append : (s t : GoString) → escape_value (s ++ t) ≡ escape_value s ++ escape_value t
escape_value-append s t = unfold escape_value in simp replace_all-append

escape_value-singleton : (c : ℕ) → escape_value (c ∷ []) ≡ escape_byte c
unfolding escape_value escape_byte
escape_value-singleton c = ground arith

-- The five successive replacements put one backslash before each special character and change
-- nothing else: no character is escaped twice.
escape_value-eq-escape_bytes : (s : GoString) → escape_value s ≡ escape_bytes s
unfolding escape_bytes
escape_value-eq-escape_bytes [] = unfold escape_value in refl
escape_value-eq-escape_bytes (c ∷ s) =
    escape_value-append (c ∷ []) s
    ∙ ap₂ (λ a b. a ++ b) (escape_value-singleton c) (escape_value-eq-escape_bytes s)

unescape-escape_byte :
    (c : ℕ) (s t : GoString) → unescape s ≡ some t → unescape (escape_byte c ++ s) ≡ some (c ∷ t)
unfolding unescape escape_byte
unescape-escape_byte c [] t h = ground arith
unescape-escape_byte c (d ∷ s) t h = ground arith

unescape-escape_bytes : (s : GoString) → unescape (escape_bytes s) ≡ some s
unfolding escape_bytes
unescape-escape_bytes [] = unfold unescape in refl
unescape-escape_bytes (c ∷ s) = unescape-escape_byte c (escape_bytes s) s (unescape-escape_bytes s)

-- Reading an escaped value by the convention of backslash escapes gives the value back, for every
-- value, and no special character in it ends the reading early.
pub unescape-escape_value : (s : GoString) → unescape (escape_value s) ≡ some s
unescape-escape_value s = rw escape_value-eq-escape_bytes (unescape-escape_bytes s)
