-- ===== src/Minarch/Config/Restored.antt =====
-- A core's options, read from the text that was written, have the values with which it was
-- written.
use darkui.Base.{
  ℕ, zero, suc, ◌+◌, ◌<◌, ◌≡◌, refl, sym, ap, ap₂, subst, ◌∙◌, inl, inr, Bool, true, false, List,
  [], ◌∷◌, ◌++◌, map, some, arith, length, get_elem?, All, Option-cases, Bool-cases,
}
use darkui.CString.{Bytes, bytes, equal}
use darkui.CString.Compare.{equal_refl}
use darkui.Minarch.Values.{get_value, print_lines}
use darkui.Minarch.Values.Printed.{AreReadable, get_value-print_lines}
use darkui.Minarch.Options.{OptionItem, current, set_value, get_value_index, index_from}
use darkui.Minarch.Controls.Bound.{distinct, differs-get_elem?}
use darkui.Minarch.Config.{
  Config, Place, for_each, locked, read_frontend_option, read_gamepad, read_options_string,
}
use darkui.Minarch.Config.Files.{config_pairs, option_pair}
use darkui.Minarch.Config.Written.{read_item, AreKeyed, Fresh, read_core_options}

-- The loop over the frontend's options and the gamepad's type leave the core's options.
read_frontend_option_core :
    (place : Place) (cfg : Bytes) (i : ℕ) (config : Config)
    → (read_frontend_option place cfg i config).core ≡ config.core
unfolding read_frontend_option
read_frontend_option_core place cfg i config =
    elim (Option-cases (get_elem? config.frontend.options i)) [
      | inl n ↦ rw (n, read_frontend_option)
      | inr (option, g) ↦ elim (Option-cases (get_value cfg option.key).0) [
        | inl n ↦ rw (g, read_frontend_option) (rw n refl)
        | inr (value, v) ↦ rw (g, read_frontend_option) (rw v refl)
      ]
    ]

-- What every round of a loop leaves, the loop leaves.
pub for_each-keeps {ℓ} :
    {B : Type ℓ} (part : Config → B) (body : ℕ → Config → Config) (n i : ℕ) (config : Config)
    → ((i : ℕ) (config : Config) → part (body i config) ≡ part config)
    → part (for_each n i body config) ≡ part config
unfolding for_each
for_each-keeps part body zero i config h = refl
for_each-keeps part body (suc n) i config h =
    for_each-keeps part body n (suc i) (body i config) h ∙ h i config

read_gamepad_core : (cfg : Bytes) (config : Config) → (read_gamepad cfg config).core ≡ config.core
unfolding read_gamepad
read_gamepad_core cfg config = elim (Bool-cases config.has_custom_controllers) [
  | inr f ↦ rw (f, read_gamepad)
  | inl t ↦ elim (Option-cases (get_value cfg (bytes "minarch_gamepad_type")).0) [
    | inl n ↦ rw (t, read_gamepad) (rw n refl)
    | inr (value, g) ↦ rw (t, read_gamepad) (rw g refl)
  ]
]

-- One text changes every option of the core by itself: what the loop over the indices and the
-- search by keys come to, where the keys differ.
pub read_options_string-map :
    (place : Place) (cfg : Bytes) (config : Config)
    → AreKeyed config.core.options
    → (read_options_string place (some cfg) config).core.options
      ≡ map (read_item cfg) config.core.options
unfolding read_options_string
read_options_string-map place cfg config k =
    let front =
      for_each (length config.frontend.options) 0 (read_frontend_option place cfg) config in
    let gamepad = read_gamepad cfg front in
    let same : gamepad.core.options ≡ config.core.options =
      ap (λ c. c.options)
        (read_gamepad_core cfg front
          ∙ for_each-keeps Config.core (read_frontend_option place cfg)
              (length config.frontend.options) 0 config (read_frontend_option_core place cfg)) in
    read_core_options place cfg gamepad 0 [] gamepad.core.options refl refl
      (none_done gamepad.core.options) (subst AreKeyed (sym same) k)
    ∙ ap (map (read_item cfg)) same
  where
    none_done : (options : List OptionItem) → Fresh [] options
    none_done [] = tt
    none_done (o ∷ options) = (tt, none_done options)

-- The option has one of its values, and they are different from each other.
pub record IsChosen (item : OptionItem) : Type 0 where
  pub values_distinct : distinct item.values ≡ true
  pub value_within : item.value < length item.values

-- The two lists offer the same options, with the same values to choose from.
abbrev pub AreAlike : List OptionItem → List OptionItem → Type 0
AreAlike [] [] = Unit
AreAlike [] (o ∷ options) = ⊥
AreAlike (item ∷ items) [] = ⊥
AreAlike (item ∷ items) (o ∷ options) =
    (o.key ≡ item.key) × (o.values ≡ item.values) × AreAlike items options

index_from-get_elem? :
    (i k : ℕ) (values : List Bytes) (v : Bytes)
    → distinct values ≡ true
    → get_elem? values k ≡ some v
    → index_from i values v ≡ i + k
unfolding index_from
index_from-get_elem? i k [] v d g = absurd cc
index_from-get_elem? i zero (x ∷ values) v d g =
    let same : x ≡ v = ground (arith, g) in
    rw (ap (λ y. equal y v) same ∙ equal_refl v) (omega arith)
index_from-get_elem? i (suc k) (x ∷ values) v d g =
    let later = index_from-get_elem? (suc i) k values v (ground (arith, d)) g in
    rw (differs-get_elem? x v values k (ground (arith, d)) g) (omega (arith, later))

get_elem?-within :
    (values : List Bytes) (k : ℕ) → k < length values → (v : Bytes) × (get_elem? values k ≡ some v)
get_elem?-within [] k h = absurd (omega arith)
get_elem?-within (x ∷ values) zero h = (x, refl)
get_elem?-within (x ∷ values) (suc k) h = get_elem?-within values k (omega arith)

abbrev pub Found : Bytes → Bytes × Bytes → Type 0
Found cfg pair = (get_value cfg pair.0).0 ≡ some pair.1

locked_values : (lock : Bool) (item : OptionItem) → (locked lock item).values ≡ item.values
locked_values true item = refl
locked_values false item = refl

read_item-option_pair :
    (cfg : Bytes) (item o : OptionItem)
    → IsChosen item
    → o.key ≡ item.key
    → o.values ≡ item.values
    → Found cfg (option_pair item)
    → (read_item cfg o).value ≡ item.value
unfolding set_value get_value_index current
read_item-option_pair cfg item o h k e f =
    let (v, g) = get_elem?-within item.values item.value h.value_within in
    let found : (get_value cfg o.key).0 ≡ some v =
      ap (λ key. (get_value cfg key).0) k ∙ f ∙ ap some (rw (g, option_pair) refl) in
    let same : (locked (get_value cfg o.key).1 o).values ≡ item.values =
      locked_values (get_value cfg o.key).1 o ∙ e in
    rw (found, read_item)
      (ap (λ values. index_from 0 values v) same
        ∙ index_from-get_elem? 0 item.value item.values v h.values_distinct g
        ∙ omega arith)

read_items :
    (cfg : Bytes) (items options : List OptionItem)
    → All IsChosen items
    → AreAlike items options
    → All (Found cfg) (map option_pair items)
    → map OptionItem.value (map (read_item cfg) options) ≡ map OptionItem.value items
read_items cfg [] [] h a f = refl
read_items cfg [] (o ∷ options) h a f = absurd a
read_items cfg (item ∷ items) [] h a f = absurd a
read_items cfg (item ∷ items) (o ∷ options) h a f =
    ap₂ ◌∷◌ (read_item-option_pair cfg item o h.0 a.0 a.1 f.0)
      (read_items cfg items options h.1 a.2 f.1)

pub All-append :
    (P : Bytes × Bytes → Type 0) (xs ys : List (Bytes × Bytes))
    → All P (xs ++ ys)
    → All P xs × All P ys
All-append P [] ys h = (tt, h)
All-append P (x ∷ xs) ys h = let later = All-append P xs ys h.1 in ((h.0, later.0), later.1)

-- What `Config_write` prints for a configuration, `Config_readOptionsString` reads back: the same
-- core, started again with whatever values its options have then, gets the values that were
-- written. No line may hold the key of a later line, and the values of an option differ.
pub read_options_string-config_pairs :
    (place : Place) (saved fresh : Config)
    → AreReadable (config_pairs saved)
    → All IsChosen saved.core.options
    → AreKeyed fresh.core.options
    → AreAlike saved.core.options fresh.core.options
    → map OptionItem.value
        (read_options_string place (some (print_lines (config_pairs saved))) fresh).core.options
      ≡ map OptionItem.value saved.core.options
unfolding config_pairs
read_options_string-config_pairs place saved fresh r h k a =
    let cfg = print_lines (config_pairs saved) in
    let found = get_value-print_lines (config_pairs saved) r in
    let behind = (All-append (Found cfg) (map option_pair saved.frontend.options) _ found).1 in
    let core = (All-append (Found cfg) (map option_pair saved.core.options) _ behind).0 in
    ap (map OptionItem.value) (read_options_string-map place cfg fresh k)
    ∙ read_items cfg saved.core.options fresh.core.options h a core
