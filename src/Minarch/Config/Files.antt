-- ===== src/Minarch/Config/Files.antt =====
-- workspace/all/minarch/minarch.c: `Config_load`, `Config_write` and `Config_restore` on the
-- files of the card.
use darkui.Base.{
  ℕ, suc, Bool, true, false, not, ◌&&◌, get_elem?, length, List, [], ◌∷◌, ◌++◌, map, Option, none,
  some, if◌then◌else◌,
}
use darkui.CString.{Bytes, bytes, before_last}
use darkui.Names.{get_emu_path}
use darkui.Launcher.Entries.{digits}
use darkui.Minarch.Values.{print_lines}
use darkui.Minarch.Options.{OptionItem, OptionList, change_at, current}
use darkui.Minarch.Controls.{ButtonMapping, label_of, bind_key}
use darkui.Minarch.Config.{
  Config, Disk, Loaded, Place, exists, game_path, console_path, get_path, write_file, unlink,
  for_each, read_options, read_controls,
}
use darkui.Minarch.Config.Frontend.{sync_frontend, scaling_values}

abbrev pub system_path : Place → Bytes → Bytes
system_path place name =
    place.platform.sdcard_path ++ (bytes "/.system/" ++ (place.platform.platform ++ name))

-- the device's file if there is one, else the common one
pub device_cfg : Disk → Option Bytes → Bytes → Option Bytes
device_cfg disk device path = elim device [
  | none ↦ disk path
  | some device_path ↦ if exists disk device_path then disk device_path else disk path
]

pub system_cfg : Place → Disk → Option Bytes
unfolding device_cfg
system_cfg place disk =
    device_cfg disk
      (elim place.device_tag [
        | none ↦ none
        | some tag ↦ some (system_path place (bytes "/system-" ++ (tag ++ bytes ".cfg")))
      ])
      (system_path place (bytes "/system.cfg"))

-- the pak of the emulator holds its default.cfg
pub default_cfg : Place → Disk → Option Bytes
unfolding device_cfg get_emu_path before_last
default_cfg place disk =
    let pak = before_last (get_emu_path place.platform (exists disk) place.tag) b'/' in
    device_cfg disk
      (elim place.device_tag [
        | none ↦ none
        | some tag ↦ some (pak ++ (bytes "/default-" ++ (tag ++ bytes ".cfg")))
      ])
      (pak ++ bytes "/default.cfg")

abbrev pub with_scaling : Bool → OptionList → OptionList
with_scaling overscan list = record list {
  options = change_at 0 (λ item. record item { values = scaling_values overscan }) list.options;
}

-- CONFIG_NONE where there is no file
abbrev pub loaded_by : Bool → Option Bytes → Loaded
loaded_by override none = Loaded.config_none
loaded_by override (some text) = if override then Loaded.config_game else Loaded.config_console

-- `Config_load`
unfoldable pub load : Bool → Place → Disk → Config → Config
unfolding system_cfg default_cfg
load overscan place disk config =
    let override = exists disk (game_path place) in
    let user = disk (get_path place override) in
    record config {
      frontend = with_scaling overscan config.frontend;
      system_cfg = system_cfg place disk;
      default_cfg = default_cfg place disk;
      user_cfg = user;
      loaded = loaded_by override user;
    }

-- `option->values[option->value]`; NULL is printed behind the last value.
abbrev pub option_pair : OptionItem → Bytes × Bytes
option_pair option =
    (option.key, elim (current option) [ none ↦ bytes "(null)" | some value ↦ value ])

abbrev pub bind_pair : ButtonMapping → Bytes × Bytes
bind_pair mapping = (bind_key mapping, label_of mapping)

-- the lines that `Config_write` prints
unfoldable pub config_pairs : Config → List (Bytes × Bytes)
unfolding current label_of
config_pairs config =
    map option_pair config.frontend.options
    ++ (map option_pair config.core.options
        ++ ((if config.has_custom_controllers
              then (
                bytes "minarch_gamepad_type",
                digits (suc config.gamepad_type) config.gamepad_type,
              )
                ∷ []
              else [])
            ++ (map bind_pair config.controls ++ map bind_pair config.shortcuts)))

abbrev to_default : OptionItem → OptionItem
to_default item = record item { value = item.default_value }

abbrev to_default_button : ButtonMapping → ButtonMapping
to_default_button m = record m { local = m.default_; mod_ = false }

abbrev unbound : ButtonMapping → ButtonMapping
unbound m = record m { local = none; mod_ = false }

abbrev pub is_game : Loaded → Bool
is_game Loaded.config_game = true
is_game Loaded.config_console = false
is_game Loaded.config_none = false

-- `Config_write`; `opens` says that the file can be opened.
unfoldable pub write : Bool → Bool → Place → Config → Disk → Config × Disk
unfolding unlink write_file config_pairs
write opens override place config disk =
    let cleared =
      if not override && is_game config.loaded then unlink (game_path place) disk else disk in
    let loaded = if override then Loaded.config_game else Loaded.config_console in
    (
      record config { loaded = loaded },
      if opens
          then write_file (get_path place override) (print_lines (config_pairs config)) cleared
          else cleared,
    )

-- the body of the loop over the options of the frontend in `Config_restore`
pub restore_frontend_option : ℕ → Config → Config
unfolding sync_frontend
restore_frontend_option i config =
    let options = change_at i to_default config.frontend.options in
    elim (get_elem? options i) [
      | none ↦ config
      | some option ↦
          let synced = sync_frontend option.key option.value options config.variables in
          record config {
            frontend = record config.frontend { options = synced.0 };
            variables = synced.1;
          }
    ]

abbrev pub forget_file : Place → Loaded → Disk → Disk
forget_file place Loaded.config_game disk = unlink (game_path place) disk
forget_file place Loaded.config_console disk = unlink (console_path place) disk
forget_file place Loaded.config_none disk = disk

-- what `Config_restore` sets before it loads the files again
unfoldable pub reset : Config → Config
unfolding for_each restore_frontend_option
reset config =
    let front = for_each (length config.frontend.options) 0 restore_frontend_option config in
    record front {
      loaded = Loaded.config_none;
      core = record { options = map to_default front.core.options; changed = true };
      gamepad_type = if front.has_custom_controllers then 0 else front.gamepad_type;
      controller_port_device =
          if front.has_custom_controllers then 1 else front.controller_port_device;
      controls = map to_default_button front.controls;
      shortcuts = map unbound front.shortcuts;
    }

-- `Config_restore`; RETRO_DEVICE_JOYPAD is 1.
unfoldable pub restore : Bool → Place → Config → Disk → Config × Disk
unfolding unlink reset load read_options read_controls
restore overscan place config disk =
    let left = forget_file place config.loaded disk in
    let read = read_controls (read_options place (load overscan place left (reset config))) in
    (record read { variables = record read.variables { dst_p_reset = true } }, left)
