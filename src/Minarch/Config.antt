-- ===== src/Minarch/Config.antt =====
-- workspace/all/minarch/minarch.c: the configuration of the frontend, and the files it is in.
pub mod Frontend
pub mod Files
pub mod Written
pub mod Restored
pub mod Kept
pub mod Rebound
pub mod Loading
use darkui.Base.{
  ℕ, zero, suc, ◌+◌, ◌-◌, ◌*◌, Bool, true, false, ◌&&◌, List, [], ◌∷◌, ◌++◌, map, Option, none,
  some, ltb, leb, ◌==◌, if◌then◌else◌, get_elem?, get_or, drop, length,
}
use darkui.CString.{Bytes, bytes, equal, before_last, isdigit, tolower}
use darkui.Names.{Platform, get_emu_path}
use darkui.Launcher.Entries.{digits}
use darkui.Minarch.Values.{get_value, line, print_lines}
use darkui.Minarch.Options.{
  OptionItem, OptionList, change_at, current, set_option_value, option_list_init,
}
use darkui.Minarch.Controls.{ButtonMapping, read_control, read_shortcut, label_of, bind_key}
use Frontend.{Variables, sync_frontend, scaling_values}

-- the files of the card by their paths
abbrev pub Disk : Type 0
Disk = Bytes → Option Bytes

abbrev pub is_file : Option Bytes → Bool
is_file none = false
is_file (some text) = true

abbrev pub exists : Disk → Bytes → Bool
exists disk path = is_file (disk path)

unfoldable pub write_file : Bytes → Bytes → Disk → Disk
unfolding equal
write_file path text disk = λ p. if equal p path then some text else disk p

unfoldable pub unlink : Bytes → Disk → Disk
unfolding equal
unlink path disk = λ p. if equal p path then none else disk p

-- `config.loaded`
pub data Loaded : Type 0 where
  config_none : Loaded
  config_console : Loaded
  config_game : Loaded

-- `Config`, with `special.palette_updated` and what the core is told of its port 0
pub record Config : Type 0 where
  pub system_cfg : Option Bytes
  pub default_cfg : Option Bytes
  pub user_cfg : Option Bytes
  pub frontend : OptionList
  pub core : OptionList
  pub controls : List ButtonMapping
  pub shortcuts : List ButtonMapping
  pub loaded : Loaded
  pub variables : Variables
  pub has_custom_controllers : Bool
  pub gamepad_type : ℕ
  pub controller_port_device : ℕ
  pub palette_updated : ℕ

-- what the names of the files are made of: `core.tag`, `core.config_dir`, `game.name` and the
-- environment variable DEVICE
pub record Place : Type 0 where
  pub platform : Platform
  pub tag : Bytes
  pub config_dir : Bytes
  pub game_name : Bytes
  pub device_tag : Option Bytes

abbrev pub dashed : Place → Bytes
dashed place = elim place.device_tag [ none ↦ [] | some tag ↦ b'-' ∷ tag ]

-- `Config_getPath` with CONFIG_WRITE_GAME and with CONFIG_WRITE_ALL
abbrev pub game_path : Place → Bytes
game_path place = place.config_dir ++ (b'/' ∷ (place.game_name ++ (dashed place ++ bytes ".cfg")))

abbrev pub console_path : Place → Bytes
console_path place = place.config_dir ++ (bytes "/minarch" ++ (dashed place ++ bytes ".cfg"))

abbrev pub get_path : Place → Bool → Bytes
get_path place override = if override then game_path place else console_path place

-- the body of the first loop of `Config_readOptionsString`; the lock is set where a `-` is found
abbrev pub locked : Bool → OptionItem → OptionItem
locked true item = record item { lock = true }
locked false item = item

pub read_frontend_option : Place → Bytes → ℕ → Config → Config
unfolding get_value set_option_value sync_frontend
read_frontend_option place cfg i config = elim (get_elem? config.frontend.options i) [
  | none ↦ config
  | some option ↦
      let read = get_value cfg option.key in
      let options = change_at i (locked read.1) config.frontend.options in
      let list = record config.frontend { options = options } in
      elim read.0 [
        | none ↦ record config { frontend = list }
        | some value ↦
            let made = set_option_value place.tag list option.key value config.palette_updated in
            let chosen : ℕ = elim (get_elem? made.0.options i) [
              | none ↦ 0
              | some item ↦ item.value
            ] in
            let synced = sync_frontend option.key chosen made.0.options config.variables in
            record config {
              frontend = record made.0 { options = synced.0 };
              variables = synced.1;
              palette_updated = made.1;
            }
      ]
]

-- the body of its last loop
pub read_core_option : Place → Bytes → ℕ → Config → Config
unfolding get_value set_option_value
read_core_option place cfg i config = elim (get_elem? config.core.options i) [
  | none ↦ config
  | some option ↦
      let read = get_value cfg option.key in
      let options = change_at i (locked read.1) config.core.options in
      let list = record config.core { options = options } in
      elim read.0 [
        | none ↦ record config { core = list }
        | some value ↦
            let made = set_option_value place.tag list option.key value config.palette_updated in
            record config { core = made.0; palette_updated = made.1 }
      ]
]

-- a loop for `i` from a number on, `n` times
pub for_each : ℕ → ℕ → (ℕ → Config → Config) → Config → Config
for_each zero i body config = config
for_each (suc n) i body config = for_each n (suc i) body (body i config)

-- the digit's value, below 16 for hexadecimal digits
abbrev digit : ℕ → ℕ
digit c =
    if isdigit c
    then c - b'0'
    else let d = tolower c in if leb b'a' d && leb d b'f' then d - 87 else 16

-- the digits that `strtol` reads in a base
pub number : ℕ → ℕ → Bytes → ℕ
number base n [] = n
number base n (c ∷ s) =
    let more = number base (n * base + digit c) s in if ltb (digit c) base then more else n

-- `strtol(value, NULL, 0)` of a text that does not begin with a sign or with space
unfoldable pub strtol : Bytes → ℕ
unfolding number
strtol s =
    if get_or s 0 0 == b'0'
    then if tolower (get_or s 1 0) == b'x' && ltb (digit (get_or s 2 0)) 16
      then number 16 0 (drop 2 s)
      else number 8 0 s
    else number 10 0 s

-- `gamepad_values`; a type that is none of them is read behind the end of the array, and the
-- device stays as it is here.
abbrev pub gamepad_values : List Bytes
gamepad_values = bytes "1" ∷ bytes "517" ∷ []

pub read_gamepad : Bytes → Config → Config
unfolding get_value strtol
read_gamepad cfg config =
    if config.has_custom_controllers
    then elim (get_value cfg (bytes "minarch_gamepad_type")).0 [
      | none ↦ config
      | some value ↦ record config {
        gamepad_type = strtol value;
        controller_port_device = elim (get_elem? gamepad_values (strtol value)) [
          | none ↦ config.controller_port_device
          | some device ↦ strtol device
        ];
      }
    ]
    else config

-- `Config_readOptionsString`
unfoldable pub read_options_string : Place → Option Bytes → Config → Config
unfolding for_each read_frontend_option read_gamepad read_core_option
read_options_string place none config = config
read_options_string place (some cfg) config =
    let front =
      for_each (length config.frontend.options) 0 (read_frontend_option place cfg) config in
    let gamepad = read_gamepad cfg front in
    for_each (length gamepad.core.options) 0 (read_core_option place cfg) gamepad

-- `Config_readControlsString`
unfoldable pub read_controls_string : Option Bytes → Config → Config
unfolding read_control read_shortcut
read_controls_string none config = config
read_controls_string (some cfg) config = record config {
  controls = map (read_control cfg) config.controls;
  shortcuts = map (read_shortcut cfg) config.shortcuts;
}

-- `Config_readOptions`
unfoldable pub read_options : Place → Config → Config
unfolding read_options_string
read_options place config =
    let system = read_options_string place config.system_cfg config in
    let default_ = read_options_string place config.default_cfg system in
    read_options_string place config.user_cfg default_

-- `Config_readControls`
unfoldable pub read_controls : Config → Config
unfolding read_controls_string
read_controls config =
    read_controls_string config.user_cfg (read_controls_string config.default_cfg config)
