-- ===== src/Minarch/Options.antt =====
-- workspace/all/minarch/minarch.c: the lists of options. The library's `Option` is the optional
-- value; the source's `Option`, a variable `item` in most of its functions, is `OptionItem`.
pub mod Parts
pub mod Chosen
use darkui.Base.{
  ℕ, zero, suc, ◌+◌, Bool, true, false, ◌&&◌, ◌||◌, List, [], ◌∷◌, ◌++◌, map, Option, none, some,
  ◌==◌, if◌then◌else◌, length, drop, take, get_or, set, get_elem?,
}
use darkui.CString.{Bytes, bytes, strchr, equal, strncasecmp, is_eq}
use darkui.Names.{exact_match}

-- `Option`, less the texts that are only drawn and the memory that they lie in. `count` is the
-- length of `values`, and `labels` is as long.
pub record OptionItem : Type 0 where
  pub key : Bytes
  pub name : Option Bytes
  pub default_value : ℕ
  pub value : ℕ
  pub lock : Bool
  pub values : List Bytes
  pub labels : List Bytes

-- `OptionList`
pub record OptionList : Type 0 where
  pub changed : Bool
  pub options : List OptionItem

-- the loop of `Option_getValueIndex` from index `i` on
unfoldable pub index_from : ℕ → List Bytes → Bytes → ℕ
unfolding equal
index_from i [] value = 0
index_from i (v ∷ values) value =
    let later = index_from (suc i) values value in if equal v value then i else later

-- `Option_getValueIndex`
unfoldable pub get_value_index : OptionItem → Option Bytes → ℕ
unfolding index_from
get_value_index item none = 0
get_value_index item (some value) = index_from 0 item.values value

-- `Option_setValue`
unfoldable pub set_value : OptionItem → Bytes → OptionItem
unfolding get_value_index
set_value item value = record item { value = get_value_index item (some value) }

-- `getOptionNameFromKey`, over the one pair of `option_key_name`
unfoldable pub get_option_name_from_key : Bytes → Bytes → Bytes
unfolding exact_match
get_option_name_from_key key name =
    if exact_match key (bytes "pcsx_rearmed_analog_combo")
    then bytes "DualShock Toggle Combo"
    else name

-- `retro_core_option_definition`: a value has a label or none
pub record Definition : Type 0 where
  pub key : Bytes
  pub desc : Bytes
  pub values : List (Bytes × Option Bytes)
  pub default_value : Option Bytes

abbrev pub label_of : Bytes × Option Bytes → Bytes
label_of (value, none) = value
label_of (value, some label) = label

-- the body of the loop of `OptionList_init`
unfoldable pub init_item : Definition → OptionItem
unfolding get_value_index get_option_name_from_key
init_item def =
    let item : OptionItem = record {
      key = def.key;
      name = some (get_option_name_from_key def.key def.desc);
      default_value = 0;
      value = 0;
      lock = false;
      values = map (λ v. v.0) def.values;
      labels = map label_of def.values;
    } in
    let value = get_value_index item def.default_value in
    record item { value = value; default_value = value }

-- `OptionList_init`
unfoldable pub option_list_init : List Definition → OptionList → OptionList
unfolding init_item
option_list_init defs core = record core { options = map init_item defs }

-- a byte before the first part
cons_part : ℕ → List Bytes → List Bytes
cons_part c [] = (c ∷ []) ∷ []
cons_part c (part ∷ parts) = (c ∷ part) ∷ parts

-- the loops of `OptionList_vars` over `strchr(tmp, '|')`
unfoldable pub split_bars : Bytes → List Bytes
unfolding cons_part
split_bars [] = [] ∷ []
split_bars (c ∷ s) = let parts = split_bars s in if c == b'|' then [] ∷ parts else cons_part c parts

-- The name and the text of the values; `none` where there is no `;`, for which the source goes on
-- with NULL.
unfoldable pub var_parts : Bytes → Option (Option Bytes × Bytes)
unfolding strchr
var_parts var = elim (strchr var b';') [
  | none ↦ none
  | some i ↦ some (
      if get_or var (i + 1) 0 == b' '
      then (some (take i var), drop (i + 2) var)
      else (none, drop i var))
]

-- `retro_variable`, and the body of the loop of `OptionList_vars`
unfoldable pub vars_item : Bytes × Bytes → Option OptionItem
unfolding var_parts split_bars
vars_item (key, var) = elim (var_parts var) [
  | none ↦ none
  | some (name, opt) ↦ some (record {
    key = key;
    name = name;
    default_value = 0;
    value = 0;
    lock = false;
    values = split_bars opt;
    labels = split_bars opt;
  })
]

infixl 10 ◌>>=◌
◌>>=◌ : {A B : Type 0} → Option A → (A → Option B) → Option B
none >>= f = none
some a >>= f = f a

-- The loop; `none` where one of the variables has no `;`.
pub vars_items : List (Bytes × Bytes) → Option (List OptionItem)
unfolding vars_item ◌>>=◌
vars_items [] = some []
vars_items (var ∷ vars) = do item ← vars_item var; items ← vars_items vars; some (item ∷ items)

-- `OptionList_vars`
unfoldable pub option_list_vars : List (Bytes × Bytes) → OptionList → Option OptionList
unfolding vars_items
option_list_vars vars core = elim (vars_items vars) [
  | none ↦ none
  | some items ↦ some (record core { options = items })
]

-- `OptionList_getOption`: the index of the item
unfoldable pub get_option : List OptionItem → Bytes → Option ℕ
unfolding equal
get_option [] key = none
get_option (item ∷ options) key =
    let later = get_option options key in
    if equal item.key key then some 0 else elim later [ none ↦ none | some i ↦ some (suc i) ]

-- `values[value]`; `none` is NULL, behind the last value
unfoldable pub current : OptionItem → Option Bytes
current item = get_elem? item.values item.value

-- `OptionList_getOptionValue`
unfoldable pub get_option_value : OptionList → Bytes → Option Bytes
unfolding get_option current
get_option_value list key = elim (get_option list.options key) [
  | none ↦ none
  | some i ↦ elim (get_elem? list.options i) [ none ↦ none | some item ↦ current item ]
]

-- a change of the item at an index
abbrev pub change_at : ℕ → (OptionItem → OptionItem) → List OptionItem → List OptionItem
change_at i f [] = []
change_at zero f (item ∷ options) = f item ∷ options
change_at (suc i) f (item ∷ options) = item ∷ change_at i f options

-- `containsString`, which does not regard case
unfoldable pub contains_string : Bytes → Bytes → Bool
unfolding strncasecmp
contains_string [] needle = is_eq (strncasecmp (length needle) [] needle)
contains_string (c ∷ haystack) needle =
    is_eq (strncasecmp (length needle) (c ∷ haystack) needle) || contains_string haystack needle

-- the test for `Special_updatedDMGPalette`
pub dmg_palette : Bytes → Bytes → Bool
unfolding exact_match contains_string
dmg_palette tag key = exact_match tag (bytes "GB") && contains_string key (bytes "palette")

-- The found item is changed. The second part is `special.palette_updated`, before and after.
pub update_option : Bytes → OptionList → Bytes → (OptionItem → OptionItem) → ℕ → ℕ → OptionList × ℕ
unfolding get_option dmg_palette
update_option tag list key f frames palette_updated = elim (get_option list.options key) [
  | none ↦ (list, palette_updated)
  | some i ↦ (
    record { options = change_at i f list.options; changed = true },
    if dmg_palette tag key then frames else palette_updated,
  )
]

-- `OptionList_setOptionRawValue`
unfoldable pub set_option_raw_value : Bytes → OptionList → Bytes → ℕ → ℕ → OptionList × ℕ
unfolding update_option
set_option_raw_value tag list key value palette_updated =
    update_option tag list key (λ item. record item { value = value }) 3 palette_updated

-- `OptionList_setOptionValue`
unfoldable pub set_option_value : Bytes → OptionList → Bytes → Bytes → ℕ → OptionList × ℕ
unfolding update_option set_value
set_option_value tag list key value palette_updated =
    update_option tag list key (λ item. set_value item value) 2 palette_updated
