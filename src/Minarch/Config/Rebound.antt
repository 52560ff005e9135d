-- ===== src/Minarch/Config/Rebound.antt =====
-- The bindings of the buttons, read from the text that was written.
use darkui.Base.{
  Bool, ◌≡◌, refl, ap, ap₂, ◌∙◌, List, [], ◌∷◌, ◌++◌, map, Option, some, ℕ, suc, if◌then◌else◌, All,
}
use darkui.CString.{Bytes, bytes}
use darkui.Launcher.Entries.{digits}
use darkui.Minarch.Values.{get_value, print_lines}
use darkui.Minarch.Values.Printed.{AreReadable, get_value-print_lines}
use darkui.Minarch.Controls.{ButtonMapping, read_control, read_shortcut}
use darkui.Minarch.Controls.Bound.{IsBound, read_control-label_of}
use darkui.Minarch.Config.{Config, read_controls_string}
use darkui.Minarch.Config.Files.{config_pairs, option_pair, bind_pair}
use darkui.Minarch.Config.Restored.{Found, All-append}

-- The two lists name the same buttons.
abbrev pub AreNamed : List ButtonMapping → List ButtonMapping → Type 0
AreNamed [] [] = Unit
AreNamed [] (o ∷ others) = ⊥
AreNamed (m ∷ mappings) [] = ⊥
AreNamed (m ∷ mappings) (o ∷ others) = (o.name ≡ m.name) × AreNamed mappings others

abbrev pub binding_of : ButtonMapping → Option ℕ × Bool
binding_of mapping = (mapping.local, mapping.mod_)

read_binding :
    (cfg : Bytes) (m o : ButtonMapping)
    → IsBound m
    → o.name ≡ m.name
    → Found cfg (bind_pair m)
    → (binding_of (read_control cfg o) ≡ binding_of m)
      × (binding_of (read_shortcut cfg o) ≡ binding_of m)
read_binding cfg m o h n f =
    let given = ap (λ name. (get_value cfg (bytes "bind " ++ name)).0) n ∙ f in
    let both = read_control-label_of cfg m o h given in (ap binding_of both.0, ap binding_of both.1)

read_bindings :
    (cfg : Bytes) (mappings others : List ButtonMapping)
    → All IsBound mappings
    → AreNamed mappings others
    → All (Found cfg) (map bind_pair mappings)
    → (map binding_of (map (read_control cfg) others) ≡ map binding_of mappings)
      × (map binding_of (map (read_shortcut cfg) others) ≡ map binding_of mappings)
read_bindings cfg [] [] h n f = (refl, refl)
read_bindings cfg [] (o ∷ others) h n f = absurd n
read_bindings cfg (m ∷ mappings) [] h n f = absurd n
read_bindings cfg (m ∷ mappings) (o ∷ others) h n f =
    let one = read_binding cfg m o h.0 n.0 f.0 in
    let later = read_bindings cfg mappings others h.1 n.1 f.1 in
    (ap₂ ◌∷◌ one.0 later.0, ap₂ ◌∷◌ one.1 later.1)

-- What `Config_write` prints of the controls and the shortcuts, `Config_readControlsString` reads
-- back: the buttons of the same names get the bindings that were written, those with MENU
-- included. No line may hold the key of a later line.
pub read_controls_string-config_pairs :
    (saved fresh : Config)
    → AreReadable (config_pairs saved)
    → All IsBound saved.controls
    → All IsBound saved.shortcuts
    → AreNamed saved.controls fresh.controls
    → AreNamed saved.shortcuts fresh.shortcuts
    → let read = read_controls_string (some (print_lines (config_pairs saved))) fresh in
      (map binding_of read.controls ≡ map binding_of saved.controls)
      × (map binding_of read.shortcuts ≡ map binding_of saved.shortcuts)
unfolding config_pairs read_controls_string
read_controls_string-config_pairs saved fresh r c s cn sn =
    let cfg = print_lines (config_pairs saved) in
    let found = get_value-print_lines (config_pairs saved) r in
    let behind = (All-append (Found cfg) (map option_pair saved.frontend.options) _ found).1 in
    let third = (All-append (Found cfg) (map option_pair saved.core.options) _ behind).1 in
    let buttons =
      (All-append (Found cfg)
        (if saved.has_custom_controllers
          then (bytes "minarch_gamepad_type", digits (suc saved.gamepad_type) saved.gamepad_type)
            ∷ []
          else [])
        _ third).1 in
    let both = All-append (Found cfg) (map bind_pair saved.controls) _ buttons in
    (
      (read_bindings cfg saved.controls fresh.controls c cn both.0).0,
      (read_bindings cfg saved.shortcuts fresh.shortcuts s sn both.1).1,
    )
