-- ===== src/Minarch/Input.antt =====
-- workspace/all/minarch/minarch.c: what the frontend makes of the buttons on every frame. `PAD_poll`
-- and `PWR_update` have been called; their result is the `Pad` given.
mod Tests
pub mod Held
pub mod Threads
use darkui.Base.{
  ℕ, zero, suc, ◌+◌, ◌-◌, Bool, true, false, not, ◌&&◌, ◌||◌, List, [], ◌∷◌, ◌++◌, Option, none,
  some, ltb, leb, ◌==◌, if◌then◌else◌, get_elem?, length,
}
use darkui.CString.{Bytes}
use darkui.Pad.{Pad, with_bit, none_set}
use darkui.Minarch.Options.{OptionItem}
use darkui.Minarch.Controls.{ButtonMapping}
use darkui.Minarch.Config.Frontend.{Variables, sync_frontend}

-- the calls that a poll makes of the menu and of the core
pub data Call : Type 0 where
  save_state : Call
  load_state : Call
  reset_game : Call
  -- the main thread is woken
  broadcast : Call

-- the variables that a poll reads and writes
pub record Input : Type 0 where
  pub variables : Variables
  pub options : List OptionItem
  pub fast_forward : Bool
  pub toggled_ff_on : Bool
  pub ignore_menu : Bool
  pub show_menu : Bool
  pub should_run_core : Bool
  pub quit : Bool
  pub buttons : ℕ → Bool
  pub calls : List Call

abbrev pub btn_menu : ℕ
btn_menu = 16

abbrev pub btn_plus : ℕ
btn_plus = 17

abbrev pub btn_minus : ℕ
btn_minus = 18

abbrev pub btn_power : ℕ
btn_power = 19

abbrev pub ask_toggle : Bool → Variables → Variables
ask_toggle was_threaded v = record v { was_threaded = was_threaded; toggle_thread = true }

-- the first part of `setFastForward`
unfoldable pub fast_forward_thread : Bool → Bool → Variables → Variables
fast_forward_thread fast_forward enable v =
    if not fast_forward && enable && v.thread_video
    then ask_toggle true v
    else if fast_forward && not enable && not v.thread_video && v.was_threaded
    then ask_toggle false v
    else v

-- `setFastForward`
pub set_fast_forward : Bool → Input → Input
unfolding fast_forward_thread
set_fast_forward enable input = record input {
  variables = fast_forward_thread input.fast_forward enable input.variables;
  fast_forward = enable;
}

-- the power button leaves the threaded core, and comes back to it
unfoldable pub power_thread : Pad → Variables → Variables
power_thread pad v =
    if pad.just_pressed btn_power
    then if v.thread_video then ask_toggle true v else v
    else if pad.just_released btn_power && not v.thread_video && v.was_threaded
    then ask_toggle false v
    else v

-- `if (mapping->mod) ignore_menu = 1;`
abbrev pub ignore_if : Bool → Input → Input
ignore_if mod_ input = record input { ignore_menu = mod_ || input.ignore_menu }

abbrev pub call : Call → Input → Input
call c input = record input { calls = input.calls ++ c ∷ [] }

-- `screen_scaling += 1; if (screen_scaling>=count) screen_scaling -= count;`
abbrev pub cycle : ℕ → ℕ → ℕ
cycle value count = if leb count (value + 1) then value + 1 - count else value + 1

abbrev option_key : List OptionItem → ℕ → Bytes
option_key options i = elim (get_elem? options i) [ none ↦ [] | some option ↦ option.key ]

abbrev option_count : List OptionItem → ℕ → ℕ
option_count options i = elim (get_elem? options i) [
  | none ↦ 0
  | some option ↦ length option.values
]

-- the variable is changed, and `Config_syncFrontend` is called with it
pub sync : ℕ → ℕ → Input → Input
unfolding sync_frontend
sync i value input =
    let synced = sync_frontend (option_key input.options i) value input.options input.variables in
    record input { options = synced.0; variables = synced.1 }

-- the `switch` over the shortcuts, of which the last two are not in it; EFFECT_COUNT is 3.
pub press_shortcut : ℕ → Input → Input
unfolding sync
press_shortcut i input =
    if i == 0
    then call save_state input
    else if i == 1
    then call load_state input
    else if i == 2
    then call reset_game input
    else if i == 3
    then (let saved = call save_state input in call broadcast (record saved { quit = true }))
    else if i == 4
    then sync 0 (cycle input.variables.screen_scaling (option_count input.options 0)) input
    else if i == 5
    then sync 1 (cycle input.variables.screen_effect 3) input
    else input

-- the body of the loop over the shortcuts for a bound one, and whether it leaves the loop
pub bound_shortcut : ℕ → ℕ → Bool → Pad → Input → Input × Bool
unfolding set_fast_forward press_shortcut
bound_shortcut i id mod_ pad input =
    if i == 6
    then if pad.just_pressed id
      then (let made = set_fast_forward (not input.fast_forward) input in
          (ignore_if mod_ (record made { toggled_ff_on = made.fast_forward }), true))
      else if pad.just_released id
      then (ignore_if mod_ input, true)
      else (input, false)
    else if i == 7
    then if pad.just_pressed id || (not input.toggled_ff_on && pad.just_released id)
      then (ignore_if mod_ (set_fast_forward (pad.is_pressed id) input), false)
      else (input, false)
    else if pad.just_pressed id
    then (ignore_if mod_ (press_shortcut i input), false)
    else (input, false)

-- A shortcut that is bound to no button is passed over: the source tests `1 << -1` for that.
pub shortcut : ℕ → ButtonMapping → Pad → Input → Input × Bool
unfolding bound_shortcut
shortcut i mapping pad input = elim mapping.local [
  | none ↦ (input, false)
  | some id ↦
      if not mapping.mod_ || pad.is_pressed btn_menu
      then bound_shortcut i id mapping.mod_ pad input
      else (input, false)
]

pub shortcuts_from : ℕ → List ButtonMapping → Pad → Input → Input
unfolding shortcut
shortcuts_from i [] pad input = input
shortcuts_from i (mapping ∷ shortcuts) pad input =
    let made = shortcut i mapping pad input in
    let rest = shortcuts_from (suc i) shortcuts pad made.0 in if made.1 then made.0 else rest

-- `PAD_isPressed(btn)`, where the stick stands for the d-pad of the standard gamepad
abbrev pub pressed : ℕ → ℕ → Pad → Bool
pressed gamepad_type id pad =
    pad.is_pressed id || (gamepad_type == 0 && ltb id 4 && pad.is_pressed (21 + id))

-- the test of the loop over the controls
abbrev pub held : ℕ → Pad → ButtonMapping → Bool
held gamepad_type pad mapping = elim mapping.local [
  | none ↦ false
  | some id ↦ pressed gamepad_type id pad && (not mapping.mod_ || pad.is_pressed btn_menu)
]

abbrev pub with_retro : Option ℕ → (ℕ → Bool) → ℕ → Bool
with_retro none buttons = buttons
with_retro (some retro) buttons = with_bit retro buttons

pub control : ℕ → Pad → ButtonMapping → Input → Input
control gamepad_type pad mapping input =
    if held gamepad_type pad mapping
    then ignore_if mapping.mod_ (record input { buttons = with_retro mapping.retro input.buttons })
    else input

pub controls_all : ℕ → List ButtonMapping → Pad → Input → Input
unfolding control
controls_all gamepad_type [] pad input = input
controls_all gamepad_type (mapping ∷ controls) pad input =
    controls_all gamepad_type controls pad (control gamepad_type pad mapping input)

-- MENU pressed alone begins anew; with PLUS or MINUS it is for a setting.
pub menu_button : Pad → Input → Input
menu_button pad input =
    let fresh = if pad.just_pressed btn_menu then false else input.ignore_menu in
    record input {
      ignore_menu =
          (pad.is_pressed btn_menu && (pad.is_pressed btn_plus || pad.is_pressed btn_minus))
          || fresh;
    }

-- the menu is asked for when MENU is let go
pub open_menu : Pad → Input → Input
open_menu pad input =
    if not input.ignore_menu && pad.just_released btn_menu
    then record input {
      show_menu = true;
      should_run_core = not input.variables.thread_video && input.should_run_core;
    }
    else input

-- `input_poll_callback`
unfoldable pub input_poll_callback :
    ℕ → List ButtonMapping → List ButtonMapping → Pad → Input → Input
unfolding menu_button power_thread shortcuts_from open_menu controls_all
input_poll_callback gamepad_type shortcuts controls pad input =
    let begun = menu_button pad input in
    let powered = record begun { variables = power_thread pad begun.variables } in
    let acted = open_menu pad (shortcuts_from 0 shortcuts pad powered) in
    controls_all gamepad_type controls pad (record acted { buttons = none_set })

-- `input_state_callback` for the joypad of port 0: the button of an id; RETRO_DEVICE_ID_JOYPAD_MASK
-- gives all of `buttons`.
unfoldable pub input_state : Input → ℕ → Bool
input_state input id = input.buttons id

-- the end of the main loop of `main`, less the start and the end of the thread
unfoldable pub settle : Variables → Variables
settle v =
    if v.toggle_thread
    then (let back = v.was_threaded && not v.thread_video in
        record v {
          toggle_thread = false;
          was_threaded = if back then false else v.was_threaded;
          thread_video = not (if back then not v.thread_video else v.thread_video);
        })
    else v
