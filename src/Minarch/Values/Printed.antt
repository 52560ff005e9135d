-- ===== src/Minarch/Values/Printed.antt =====
-- `Config_getValue` against the lines that `Config_write` prints.
use darkui.Base.{
  ◌≤◌, ◌≡◌, ◌≢◌, ◌∙◌, sym, ap, inl, inr, Option-cases, List, [], ◌∷◌, ◌++◌, Option, none, some,
  arith, length, All,
}
use darkui.CString.{Bytes}
use darkui.CString.Search.{Lacks}
use darkui.Minarch.Values.{scan, value_line, get_value, line, print_lines}
use darkui.Minarch.Values.Lines.{or_later, scan-line, scan-key, value_line-append}

-- The pair makes one line, and its value fits into the reader's buffer.
pub record IsLine (pair : Bytes × Bytes) : Type 0 where
  pub key_some : pair.0 ≢ []
  pub key_lacks : Lacks b'\n' pair.0
  pub value_lacks : Lacks b'\n' pair.1
  pub value_fits : length pair.1 ≤ 254

-- The key is not found in the line of the pair.
abbrev pub Misses : Bytes × Bytes → Bytes → Type 0
Misses pair key = (scan key 0 0 (line pair)).0 ≡ none

-- No line holds the key of a later line.
abbrev pub AreReadable : List (Bytes × Bytes) → Type 0
AreReadable [] = Unit
AreReadable (pair ∷ pairs) =
    IsLine pair
    × All (λ later. Misses pair later.0 × (later.0 ≢ []) × Lacks b'\n' later.0) pairs
    × AreReadable pairs

abbrev read_value : Option Bytes → Option Bytes
read_value none = none
read_value (some s) = some (value_line s)

get_value-scan : (cfg key : Bytes) → (get_value cfg key).0 ≡ read_value (scan key 0 0 cfg).0
unfolding get_value
get_value-scan cfg key = elim (Option-cases (scan key 0 0 cfg).0) [
  | inl n ↦ rw (n, get_value)
  | inr (s, f) ↦ rw (f, get_value)
]

get_value-later :
    (pair : Bytes × Bytes) (key text : Bytes)
    → Misses pair key
    → key ≢ []
    → Lacks b'\n' key
    → (get_value (line pair ++ b'\n' ∷ text) key).0 ≡ (get_value text key).0
get_value-later pair key text m e h =
    get_value-scan (line pair ++ b'\n' ∷ text) key
    ∙ ap read_value (
        scan-line key 0 0 (line pair) text e h (omega arith)
        ∙ ap (λ o. or_later o text (scan key 0 0 text).0) m)
    ∙ sym (get_value-scan text key)

get_value-here :
    (pair : Bytes × Bytes) (text : Bytes)
    → IsLine pair
    → (get_value (line pair ++ b'\n' ∷ text) pair.0).0 ≡ some pair.1
get_value-here (key, value) text h =
    get_value-scan (line (key, value) ++ b'\n' ∷ text) key
    ∙ ap read_value (
        scan-line key 0 0 (line (key, value)) text h.key_some h.key_lacks (omega arith)
        ∙ ap (λ o. or_later o text (scan key 0 0 text).0) (scan-key key value 0 h.key_some))
    ∙ ap some (value_line-append value text h.value_lacks h.value_fits)

abbrev Found : Bytes → Bytes × Bytes → Type 0
Found text pair = (get_value text pair.0).0 ≡ some pair.1

All-later :
    (pair : Bytes × Bytes) (text : Bytes) (pairs : List (Bytes × Bytes))
    → All (λ later. Misses pair later.0 × (later.0 ≢ []) × Lacks b'\n' later.0) pairs
    → All (Found text) pairs
    → All (Found (line pair ++ b'\n' ∷ text)) pairs
All-later pair text [] h k = tt
All-later pair text (later ∷ pairs) h k =
    (get_value-later pair later.0 text h.0.0 h.0.1 h.0.2 ∙ k.0, All-later pair text pairs h.1 k.1)

-- From printed lines of which none holds the key of a later one, every key is read with its value.
pub get_value-print_lines :
    (pairs : List (Bytes × Bytes))
    → AreReadable pairs
    → All (λ pair. (get_value (print_lines pairs) pair.0).0 ≡ some pair.1) pairs
get_value-print_lines [] h = tt
get_value-print_lines (pair ∷ pairs) h = (
  get_value-here pair (print_lines pairs) h.0,
  All-later pair (print_lines pairs) pairs h.1 (get_value-print_lines pairs h.2),
)
