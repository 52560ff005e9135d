-- ===== src/Minarch/Controls.antt =====
-- workspace/all/minarch/minarch.c: the buttons that a configuration binds.
pub mod Bound
pub mod Bindings
use darkui.Base.{
  ℕ, zero, suc, ◌+◌, ◌-◌, Bool, true, false, List, [], ◌∷◌, ◌++◌, Option, none, some, leb, ltb,
  if◌then◌else◌, length, drop, take, get_elem?,
}
use darkui.CString.{Bytes, bytes, strrchr, before_last, after_last, equal}
use darkui.Minarch.Values.{starts, get_value, cut_line}

-- `ButtonMapping`: the ids -1 (`BTN_ID_NONE`, and the buttons of no core) are `none`.
pub record ButtonMapping : Type 0 where
  pub name : Bytes
  pub retro : Option ℕ
  pub local : Option ℕ
  pub mod_ : Bool
  pub default_ : Option ℕ

abbrev pub local_button_count : ℕ
local_button_count = 16

abbrev button_names : List Bytes
button_names =
    bytes "UP"
    ∷ bytes "DOWN"
    ∷ bytes "LEFT"
    ∷ bytes "RIGHT"
    ∷ bytes "A"
    ∷ bytes "B"
    ∷ bytes "X"
    ∷ bytes "Y"
    ∷ bytes "START"
    ∷ bytes "SELECT"
    ∷ bytes "L1"
    ∷ bytes "R1"
    ∷ bytes "L2"
    ∷ bytes "R2"
    ∷ bytes "L3"
    ∷ bytes "R3"
    ∷ []

abbrev menu_names : List Bytes
menu_names =
    bytes "MENU+UP"
    ∷ bytes "MENU+DOWN"
    ∷ bytes "MENU+LEFT"
    ∷ bytes "MENU+RIGHT"
    ∷ bytes "MENU+A"
    ∷ bytes "MENU+B"
    ∷ bytes "MENU+X"
    ∷ bytes "MENU+Y"
    ∷ bytes "MENU+START"
    ∷ bytes "MENU+SELECT"
    ∷ bytes "MENU+L1"
    ∷ bytes "MENU+R1"
    ∷ bytes "MENU+L2"
    ∷ bytes "MENU+R2"
    ∷ bytes "MENU+L3"
    ∷ bytes "MENU+R3"
    ∷ []

-- `button_labels`, in the order of the ids
abbrev pub button_labels : List Bytes
button_labels = bytes "NONE" ∷ (button_names ++ menu_names)

-- the loop over `button_labels`: the index of the label
pub label_from : ℕ → List Bytes → Bytes → Option ℕ
unfolding equal
label_from j [] value = none
label_from j (label ∷ labels) value =
    let later = label_from (suc j) labels value in if equal label value then some j else later

-- `id = j - 1`
abbrev pub id_of : Option ℕ → Option ℕ
id_of none = none
id_of (some zero) = none
id_of (some (suc j)) = some j

-- an id of MENU and a button is that button's, with `mod`
abbrev pub with_id : ButtonMapping → Option ℕ → ButtonMapping
with_id mapping none = record mapping { local = none; mod_ = false }
with_id mapping (some id) =
    if leb local_button_count id
    then record mapping { local = some (id - local_button_count); mod_ = true }
    else record mapping { local = some id; mod_ = false }

abbrev pub bind_key : ButtonMapping → Bytes
bind_key mapping = bytes "bind " ++ mapping.name

-- the binding to the value of a configuration
pub bind_value : ButtonMapping → Bytes → ButtonMapping
unfolding label_from
bind_value mapping value = with_id mapping (id_of (label_from 0 button_labels value))

-- the body of the first loop of `Config_readControlsString`
unfoldable pub read_control : Bytes → ButtonMapping → ButtonMapping
unfolding get_value before_last bind_value
read_control cfg mapping = elim (get_value cfg (bind_key mapping)).0 [
  | none ↦ mapping
  | some value ↦ bind_value mapping (before_last value b':')
]

-- the body of the second loop
unfoldable pub read_shortcut : Bytes → ButtonMapping → ButtonMapping
unfolding get_value bind_value
read_shortcut cfg mapping = elim (get_value cfg (bind_key mapping)).0 [
  | none ↦ mapping
  | some value ↦ bind_value mapping value
]

-- `j = mapping->local + 1; if (mapping->mod) j += LOCAL_BUTTON_COUNT;`
abbrev pub label_number : ButtonMapping → ℕ
label_number mapping =
    (elim mapping.local [ none ↦ 0 | some id ↦ id + 1 ])
    + (if mapping.mod_ then local_button_count else 0)

-- `button_labels[j]`; behind the last label the list ends.
unfoldable pub label_of : ButtonMapping → Bytes
label_of mapping = elim (get_elem? button_labels (label_number mapping)) [
  | none ↦ bytes "(null)"
  | some l ↦ l
]

-- `strstr`: the text before the first place of `needle` and the text from there on
pub strstr : Bytes → Bytes → Option (Bytes × Bytes)
unfolding starts
strstr needle [] = if starts needle [] then some ([], []) else none
strstr needle (c ∷ s) =
    let later = strstr needle s in
    if starts needle (c ∷ s)
    then some ([], c ∷ s)
    else elim later [ none ↦ none | some (before, at) ↦ some (c ∷ before, at) ]

-- `button_label_mapping`: the ids of the core's buttons are those of libretro, in the order UP,
-- DOWN, LEFT, RIGHT, A, B, X, Y, START, SELECT, L, R, L2, R2, L3, R3.
pub retro_of : List ℕ → List Bytes → Bytes → Option ℕ
unfolding equal
retro_of [] names name = none
retro_of (retro ∷ retros) [] name = none
retro_of (retro ∷ retros) (n ∷ names) name =
    let later = retro_of retros names name in if equal name n then some retro else later

-- the part of `button_id` before the last `:`, and the part behind it
pub button_parts : Bytes → Bytes × Option Bytes
unfolding strrchr
button_parts button_id = elim (strrchr button_id b':') [
  | none ↦ (button_id, none)
  | some i ↦ (take i button_id, some (drop (i + 1) button_id))
]

abbrev retro_id : List ℕ → Bytes × Option Bytes → Option ℕ
retro_id retros (local_name, none) = retro_of retros button_names local_name
retro_id retros (local_name, some retro_name) = elim (retro_of retros button_names retro_name) [
  | some retro ↦ some retro
  | none ↦ retro_of retros button_names local_name
]

-- the body of the loop of `Config_init`, behind "bind ": the button of the core, and the text to
-- go on with
pub binding : List ℕ → Bytes → Bytes → ButtonMapping × Bytes
unfolding cut_line button_parts retro_of label_from
binding retros button_name tmp =
    let parts = button_parts (cut_line (take 128 tmp)) in
    (
      record {
        name = button_name;
        retro = retro_id retros parts;
        local = label_from 0 button_names parts.0;
        mod_ = false;
        default_ = none;
      },
      drop (length parts.0) tmp,
    )

-- the loop of `Config_init`, with fuel
pub bindings : ℕ → List ℕ → Bytes → List ButtonMapping
unfolding strstr binding
bindings zero retros tmp = []
bindings (suc fuel) retros tmp = elim (strstr (bytes "bind ") tmp) [
  | none ↦ []
  | some (before, at) ↦ elim (strstr (bytes " = ") (drop 5 at)) [
    | none ↦ []
    | some (name, rest) ↦
        let made = binding retros name (drop 3 rest) in made.0 ∷ bindings fuel retros made.1
  ]
]

-- `Config_init`: what `core_button_mapping` holds. Every round consumes bytes of the text.
unfoldable pub config_init : List ℕ → Bytes → List ButtonMapping
unfolding bindings
config_init retros default_cfg = bindings (length default_cfg) retros default_cfg
