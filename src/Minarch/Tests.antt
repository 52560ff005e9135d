-- ===== src/Minarch/Tests.antt =====
-- A configuration of one option of the frontend, one of a core, a control and a shortcut: written,
-- read and restored.
use darkui.Base.{
  ℕ, ◌≡◌, refl, Bool, true, false, [], ◌∷◌, map, Option, none, some, arith, if◌then◌else◌,
}
use darkui.CString.{Bytes, bytes, equal}
use darkui.Minarch.Values.{starts, scan, print_lines}
use darkui.Minarch.Values.Printed.{AreReadable}
use darkui.Minarch.Options.{OptionItem, vars_item, get_option_value, set_option_value, current}
use darkui.Minarch.Options.Parts.{vars_item-join_bars}
use darkui.Minarch.Options.Chosen.{get_option_value-set_option_value}
use darkui.Minarch.Controls.{ButtonMapping, label_of, bindings, config_init}
use darkui.Minarch.Controls.Bound.{IsBound}
use darkui.Minarch.Controls.Bindings.{config_init-bindings}
use darkui.Minarch.Config.{Config, Disk, Loaded, Place, read_options_string, read_controls_string}
use darkui.Minarch.Config.Frontend.{Variables, scaling_values}
use darkui.Minarch.Config.Files.{config_pairs, load, write, restore, forget_file}
use darkui.Minarch.Config.Written.{read_item}
use darkui.Minarch.Config.Restored.{read_options_string-map, read_options_string-config_pairs}
use darkui.Minarch.Config.Rebound.{binding_of, read_controls_string-config_pairs}
use darkui.Minarch.Config.Loading.{Agrees, load-write}
use darkui.Minarch.Config.Kept.{restore-fallback}

abbrev scaling : OptionItem
scaling = record {
  key = bytes "minarch_screen_scaling";
  name = none;
  default_value = 1;
  value = 2;
  lock = false;
  values = scaling_values false;
  labels = scaling_values false;
}

abbrev palette : ℕ → OptionItem
palette value = record {
  key = bytes "gb_palette";
  name = none;
  default_value = 0;
  value = value;
  lock = false;
  values = bytes "Grey" ∷ bytes "Green" ∷ [];
  labels = bytes "Grey" ∷ bytes "Green" ∷ [];
}

abbrev up_control : Option ℕ → Bool → ButtonMapping
up_control local mod_ = record {
  name = bytes "Up";
  retro = some 4;
  local = local;
  mod_ = mod_;
  default_ = some 0;
}

abbrev save_shortcut : Option ℕ → Bool → ButtonMapping
save_shortcut local mod_ = record {
  name = bytes "Save State";
  retro = none;
  local = local;
  mod_ = mod_;
  default_ = none;
}

abbrev defaults : Variables
defaults = record {
  screen_scaling = 1;
  screen_effect = 0;
  screen_sharpness = 2;
  prevent_tearing = 1;
  overclock = 1;
  show_debug = 0;
  max_ff_speed = 3;
  thread_video = false;
  was_threaded = false;
  toggle_thread = false;
  gfx_sharpness = 2;
  gfx_effect = 0;
  dst_p_reset = false;
}

abbrev config_of : ℕ → Option ℕ → Bool → Option ℕ → Bool → Config
config_of value local mod_ save save_mod = record {
  system_cfg = none;
  default_cfg = none;
  user_cfg = none;
  frontend = record { changed = false; options = scaling ∷ [] };
  core = record { changed = false; options = palette value ∷ [] };
  controls = up_control local mod_ ∷ [];
  shortcuts = save_shortcut save save_mod ∷ [];
  loaded = Loaded.config_game;
  variables = defaults;
  has_custom_controllers = false;
  gamepad_type = 0;
  controller_port_device = 1;
  palette_updated = 0;
}

-- the palette is Green, Up is on MENU+UP, and states are saved with L1
abbrev saved : Config
saved = config_of 1 (some 0) true (some 10) false

abbrev fresh : Config
fresh = config_of 0 (some 0) false none false

abbrev place : Place
place = record {
  platform = record { sdcard_path = bytes "/mnt/SDCARD"; platform = bytes "rg35xx" };
  tag = bytes "GB";
  config_dir = bytes "/c";
  game_name = bytes "Tetris";
  device_tag = none;
}

-- the card has a configuration of the game and one of the console
abbrev card : Disk
card = λ p.
    if equal p (bytes "/c/Tetris.cfg")
    then some (bytes "gb_palette = Grey\n")
    else if equal p (bytes "/c/minarch.cfg")
    then some []
    else none

saved-AreReadable : AreReadable (config_pairs saved)
unfolding config_pairs current label_of scan starts
saved-AreReadable = ground arith

read_options_string-config_pairs_example :
    map OptionItem.value
      (read_options_string place (some (print_lines (config_pairs saved))) fresh).core.options
    ≡ 1 ∷ []
unfolding equal
read_options_string-config_pairs_example =
    read_options_string-config_pairs place saved fresh saved-AreReadable
      (record { values_distinct = refl; value_within = omega arith }, tt) (tt, tt) (refl, refl, tt)

saved-IsBound : IsBound (up_control (some 0) true) × IsBound (save_shortcut (some 10) false)
saved-IsBound = (
  record { none_plain = λ e. absurd cc; some_within = λ id e. ground (arith, e) },
  record { none_plain = λ e. refl; some_within = λ id e. ground (arith, e) },
)

read_controls_string-config_pairs_example :
    let read = read_controls_string (some (print_lines (config_pairs saved))) fresh in
    (map binding_of read.controls ≡ (some 0, true) ∷ [])
    × (map binding_of read.shortcuts ≡ (some 10, false) ∷ [])
read_controls_string-config_pairs_example =
    read_controls_string-config_pairs saved fresh saved-AreReadable (saved-IsBound.0, tt)
      (saved-IsBound.1, tt) (refl, tt) (refl, tt)

load-write_example :
    let written = write true false place saved card in
    let read = load true place written.1 fresh in
    (read.user_cfg ≡ some (print_lines (config_pairs saved)))
    × (read.loaded ≡ written.0.loaded)
    × Agrees place written.1 read
unfolding equal
load-write_example = load-write true false place saved fresh card refl refl

restore-fallback_example :
    let (restored, left) = restore true place saved card in
    (left ≡ forget_file place Loaded.config_game card)
    × (restored.loaded ≡ Loaded.config_console)
    × Agrees place left restored
unfolding equal
restore-fallback_example = restore-fallback true place saved card refl refl

read_options_string-map_example :
    (read_options_string place (some (bytes "gb_palette = Green\n")) fresh).core.options
    ≡ map (read_item (bytes "gb_palette = Green\n")) (palette 0 ∷ [])
read_options_string-map_example =
    read_options_string-map place (bytes "gb_palette = Green\n") fresh (tt, tt)

get_option_value-set_option_value_example :
    get_option_value
      (set_option_value (bytes "GB") fresh.core (bytes "gb_palette") (bytes "Green") 0).0
      (bytes "gb_palette")
    ≡ some (bytes "Green")
unfolding equal
get_option_value-set_option_value_example =
    get_option_value-set_option_value (bytes "GB") fresh.core (bytes "gb_palette") (bytes "Green")
      (bytes "gb_palette") 0

vars_item-join_bars_example :
    vars_item (bytes "gb_colors", bytes "Colors; auto|off|on")
    ≡ some (record {
      key = bytes "gb_colors";
      name = some (bytes "Colors");
      default_value = 0;
      value = 0;
      lock = false;
      values = bytes "auto" ∷ bytes "off" ∷ bytes "on" ∷ [];
      labels = bytes "auto" ∷ bytes "off" ∷ bytes "on" ∷ [];
    })
vars_item-join_bars_example =
    vars_item-join_bars (bytes "gb_colors") (bytes "Colors") (bytes "auto")
      (bytes "off" ∷ bytes "on" ∷ []) (ground arith) (ground arith)

abbrev default_cfg_text : Bytes
default_cfg_text = bytes "bind A Button = A\nbind B Button = B:A\n"

config_init-bindings_example :
    bindings 100 (4 ∷ 5 ∷ 6 ∷ 7 ∷ 8 ∷ 0 ∷ []) default_cfg_text
    ≡ config_init (4 ∷ 5 ∷ 6 ∷ 7 ∷ 8 ∷ 0 ∷ []) default_cfg_text
config_init-bindings_example =
    config_init-bindings 100 (4 ∷ 5 ∷ 6 ∷ 7 ∷ 8 ∷ 0 ∷ []) default_cfg_text (omega arith)
