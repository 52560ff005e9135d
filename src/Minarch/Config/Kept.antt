-- ===== src/Minarch/Config/Kept.antt =====
-- `Config_restore`: the file that it deletes and the one it falls back to.
use darkui.Base.{
  ℕ, ◌≡◌, refl, sym, ap, ap₂, ◌∙◌, inl, inr, Bool, true, false, Option, none, some, length,
  get_elem?, Option-cases, Bool-cases,
}
use darkui.CString.{Bytes, bytes, equal}
use darkui.CString.Compare.{equal_refl}
use darkui.Minarch.Values.{get_value}
use darkui.Minarch.Config.{
  Config, Disk, Loaded, Place, exists, is_file, game_path, console_path, get_path, unlink, for_each,
  read_frontend_option, read_core_option, read_gamepad, read_options_string, read_options,
  read_controls_string, read_controls,
}
use darkui.Minarch.Config.Files.{load, reset, restore, forget_file, is_game, loaded_by}
use darkui.Minarch.Config.Restored.{for_each-keeps}
use darkui.Minarch.Config.Loading.{Agrees, load-some, load-Agrees}
use darkui.Minarch.Options.Chosen.{equal_apart}

read_frontend_option_loaded :
    (place : Place) (cfg : Bytes) (i : ℕ) (config : Config)
    → (read_frontend_option place cfg i config).loaded ≡ config.loaded
unfolding read_frontend_option
read_frontend_option_loaded place cfg i config =
    elim (Option-cases (get_elem? config.frontend.options i)) [
      | inl n ↦ rw (n, read_frontend_option)
      | inr (option, g) ↦ elim (Option-cases (get_value cfg option.key).0) [
        | inl n ↦ rw (g, read_frontend_option) (rw n refl)
        | inr (value, v) ↦ rw (g, read_frontend_option) (rw v refl)
      ]
    ]

read_core_option_loaded :
    (place : Place) (cfg : Bytes) (i : ℕ) (config : Config)
    → (read_core_option place cfg i config).loaded ≡ config.loaded
unfolding read_core_option
read_core_option_loaded place cfg i config = elim (Option-cases (get_elem? config.core.options i)) [
  | inl n ↦ rw (n, read_core_option)
  | inr (option, g) ↦ elim (Option-cases (get_value cfg option.key).0) [
    | inl n ↦ rw (g, read_core_option) (rw n refl)
    | inr (value, v) ↦ rw (g, read_core_option) (rw v refl)
  ]
]

read_gamepad_loaded :
    (cfg : Bytes) (config : Config) → (read_gamepad cfg config).loaded ≡ config.loaded
unfolding read_gamepad
read_gamepad_loaded cfg config = elim (Bool-cases config.has_custom_controllers) [
  | inr f ↦ rw (f, read_gamepad)
  | inl t ↦ elim (Option-cases (get_value cfg (bytes "minarch_gamepad_type")).0) [
    | inl n ↦ rw (t, read_gamepad) (rw n refl)
    | inr (value, g) ↦ rw (t, read_gamepad) (rw g refl)
  ]
]

read_options_string_loaded :
    (place : Place) (cfg : Option Bytes) (config : Config)
    → (read_options_string place cfg config).loaded ≡ config.loaded
unfolding read_options_string
read_options_string_loaded place none config = refl
read_options_string_loaded place (some cfg) config =
    let front =
      for_each (length config.frontend.options) 0 (read_frontend_option place cfg) config in
    let gamepad = read_gamepad cfg front in
    for_each-keeps Config.loaded (read_core_option place cfg) (length gamepad.core.options) 0
      gamepad (read_core_option_loaded place cfg)
    ∙ read_gamepad_loaded cfg front
    ∙ for_each-keeps Config.loaded (read_frontend_option place cfg) (length config.frontend.options)
        0 config (read_frontend_option_loaded place cfg)

read_controls_string_loaded :
    (cfg : Option Bytes) (config : Config)
    → (read_controls_string cfg config).loaded ≡ config.loaded
unfolding read_controls_string
read_controls_string_loaded none config = refl
read_controls_string_loaded (some cfg) config = refl

-- Reading the texts leaves what they were loaded from.
read_loaded :
    (place : Place) (config : Config)
    → (read_controls (read_options place config)).loaded ≡ config.loaded
unfolding read_options read_controls
read_loaded place config =
    let system = read_options_string place config.system_cfg config in
    let default_ = read_options_string place config.default_cfg system in
    let options = read_options_string place config.user_cfg default_ in
    read_controls_string_loaded options.user_cfg (read_controls_string options.default_cfg options)
    ∙ read_controls_string_loaded options.default_cfg options
    ∙ read_options_string_loaded place config.user_cfg default_
    ∙ read_options_string_loaded place config.default_cfg system
    ∙ read_options_string_loaded place config.system_cfg config

restore_loaded :
    (overscan : Bool) (place : Place) (config : Config) (disk : Disk)
    → let left = (restore overscan place config disk).1 in
      (left ≡ forget_file place config.loaded disk)
      × ((restore overscan place config disk).0.loaded
          ≡ (load overscan place left (reset config)).loaded)
unfolding restore
restore_loaded overscan place config disk = (
  refl,
  read_loaded place (load overscan place (forget_file place config.loaded disk) (reset config)),
)

abbrev pub console_or_none : Bool → Loaded
console_or_none true = Loaded.config_console
console_or_none false = Loaded.config_none

load-console_or_none :
    (overscan : Bool) (place : Place) (disk : Disk) (config : Config)
    → exists disk (game_path place) ≡ false
    → (load overscan place disk config).loaded ≡ console_or_none (exists disk (console_path place))
unfolding load
load-console_or_none overscan place disk config missing =
    elim (Option-cases (disk (console_path place))) [
      | inr (text, c) ↦
          (load-some overscan false place disk config text missing c).1
          ∙ sym (ap console_or_none (ap is_file c))
      | inl c ↦
          ap₂ loaded_by missing (ap (λ b. disk (get_path place b)) missing ∙ c)
          ∙ sym (ap console_or_none (ap is_file c))
    ]

unlink_same : (path : Bytes) (disk : Disk) → exists (unlink path disk) path ≡ false
unfolding unlink
unlink_same path disk = rw (equal_refl path)

unlink_other :
    (path other : Bytes) (disk : Disk)
    → equal other path ≡ false
    → unlink path disk other ≡ disk other
unfolding unlink
unlink_other path other disk d = rw d

-- What a configuration falls back to, with and without a file of the console.
abbrev pub fallback : Loaded → Bool → Loaded
fallback Loaded.config_game console = console_or_none console
fallback Loaded.config_console console = Loaded.config_none
fallback Loaded.config_none console = console_or_none console

forgotten :
    (overscan : Bool) (place : Place) (loaded : Loaded) (fresh : Config) (disk : Disk)
    → equal (game_path place) (console_path place) ≡ false
    → exists disk (game_path place) ≡ is_game loaded
    → (load overscan place (forget_file place loaded disk) fresh).loaded
      ≡ fallback loaded (exists disk (console_path place))
forgotten overscan place Loaded.config_none fresh disk d a =
    load-console_or_none overscan place disk fresh a
forgotten overscan place Loaded.config_game fresh disk d a =
    let left = unlink (game_path place) disk in
    let apart =
      equal_apart (game_path place) (console_path place) (game_path place) d
        (equal_refl (game_path place)) in
    load-console_or_none overscan place left fresh (unlink_same (game_path place) disk)
    ∙ ap (λ o. console_or_none (is_file o))
        (unlink_other (game_path place) (console_path place) disk apart)
forgotten overscan place Loaded.config_console fresh disk d a =
    let left = unlink (console_path place) disk in
    load-console_or_none overscan place left fresh
      (ap is_file (unlink_other (console_path place) (game_path place) disk d) ∙ a)
    ∙ ap console_or_none (unlink_same (console_path place) disk)

-- Restoring the defaults deletes the file that was loaded and no other. A game's own
-- configuration falls back to the console's where there is one; the console's falls back to none.
-- Then too the configuration knows whether the game has a file.
pub restore-fallback :
    (overscan : Bool) (place : Place) (config : Config) (disk : Disk)
    → equal (game_path place) (console_path place) ≡ false
    → Agrees place disk config
    → let (restored, left) = restore overscan place config disk in
      (left ≡ forget_file place config.loaded disk)
      × (restored.loaded ≡ fallback config.loaded (exists disk (console_path place)))
      × Agrees place left restored
restore-fallback overscan place config disk d a =
    let after = restore_loaded overscan place config disk in
    let left = forget_file place config.loaded disk in
    (
      after.0,
      after.1
          ∙ ap (λ k. (load overscan place k (reset config)).loaded) after.0
          ∙ forgotten overscan place config.loaded (reset config) disk d a,
      load-Agrees overscan place (restore overscan place config disk).1 (reset config)
          ∙ sym (ap is_game after.1),
    )
