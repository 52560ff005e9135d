-- ===== src/Minarch/Values.antt =====
-- workspace/all/minarch/minarch.c, `Config_getValue`: the value that a configuration gives a key.
pub mod Lines
pub mod Printed
use darkui.Base.{
  ℕ, zero, suc, ◌-◌, Bool, true, false, ◌&&◌, ◌||◌, List, [], ◌∷◌, ◌++◌, Option, none, some, ◌==◌,
  if◌then◌else◌, length, drop, take,
}
use darkui.CString.{Bytes, bytes, strchr, before_first}

-- `strncmp(s, key, strlen(key)) == 0`
unfoldable pub starts : Bytes → Bytes → Bool
starts [] s = true
starts (k ∷ key) [] = false
starts (k ∷ key) (c ∷ s) = k == c && starts key s

-- The loop over `strstr`: what stands behind the first `key` that " = " follows, and whether a
-- `-` stood before a key that was found. `prev` is the byte before the text, `skip` the number of
-- bytes that are left of the key found last. Keys are not empty.
unfoldable pub scan : Bytes → ℕ → ℕ → Bytes → Option Bytes × Bool
unfolding starts
scan key prev skip [] = (none, false)
scan key prev (suc skip) (c ∷ s) = scan key c skip s
scan key prev zero (c ∷ s) =
    let met = starts key (c ∷ s) in
    let behind = drop (length key) (c ∷ s) in
    let rest = scan key c (if met then length key - 1 else 0) s in
    let dash = met && prev == b'-' in
    if met && starts (bytes " = ") behind
    then (some (drop 3 behind), dash)
    else (rest.0, dash || rest.1)

-- `strncpy(out_value, tmp, 256)` and the cut at the end of the line
unfoldable pub cut_line : Bytes → Bytes
unfolding strchr before_first
cut_line out_value = elim (strchr out_value b'\n') [
  | some i ↦ take i out_value
  | none ↦ before_first out_value b'\r'
]

abbrev pub value_line : Bytes → Bytes
value_line s = cut_line (take 255 s)

-- `Config_getValue`: the value, `none` for the result 0, and whether the lock is set
unfoldable pub get_value : Bytes → Bytes → Option Bytes × Bool
unfolding scan cut_line
get_value cfg key =
    let found = scan key 0 0 cfg in
    (elim found.0 [ none ↦ none | some s ↦ some (value_line s) ], found.1)

-- `fprintf(file, "%s = %s\n", key, value)` for a list of keys and values
abbrev pub line : Bytes × Bytes → Bytes
line (key, value) = key ++ (bytes " = " ++ value)

abbrev pub print_lines : List (Bytes × Bytes) → Bytes
print_lines [] = []
print_lines (pair ∷ pairs) = line pair ++ b'\n' ∷ print_lines pairs
