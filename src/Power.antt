-- ===== src/Power.antt =====
-- workspace/all/common/pwr.c: sleep, the power button and the settings shown over the screen, on
-- every frame. Times are those of `SDL_GetTicks`, numbers of 32 bits.
pub mod Sleeps
mod Tests
pub mod Waits
use darkui.Base.{
  ℕ, zero, suc, ◌+◌, ◌-◌, ◌%◌, Bool, true, false, not, ◌&&◌, ◌||◌, List, [], ◌∷◌, ◌++◌, Option,
  none, some, ltb, leb, ◌==◌, if◌then◌else◌,
}
use darkui.Pad.{Pad, add_u32, none_set}

-- the difference of two `uint32_t`
abbrev pub sub_u32 : ℕ → ℕ → ℕ
sub_u32 a b = (a + 4294967296 - b) % 4294967296

-- the buttons of a platform; `none` is BTN_NONE
pub record Buttons : Type 0 where
  pub btn_sleep : Option ℕ
  pub btn_mod_volume : Option ℕ
  pub btn_mod_brightness : Option ℕ
  pub btn_mod_plus : Option ℕ
  pub btn_mod_minus : Option ℕ

-- what is called of the rest of the program
pub data Call : Type 0 where
  before_sleep : Call
  after_sleep : Call
  faux_sleep : Call
  power_off : Call

-- `PWR_Context` and the static variables of `PWR_update`, with the calls that were made; -1 is
-- `none`.
pub record Power : Type 0 where
  pub is_charging : Bool
  pub can_sleep : Bool
  pub can_autosleep : Bool
  pub requested_sleep : Bool
  pub last_input_at : ℕ
  pub checked_charge_at : ℕ
  pub setting_shown_at : ℕ
  pub power_pressed_at : ℕ
  pub mod_unpressed_at : ℕ
  pub was_muted : Option ℕ
  pub was_charging : Option Bool
  pub dirty : Bool
  pub show_setting : ℕ
  pub calls : List Call

-- what a frame meets: the time, and the time after a sleep; the buttons; `GetHDMI`, `GetMute`
pub record Frame : Type 0 where
  pub now : ℕ
  pub woken_at : ℕ
  pub pad : Pad
  pub any_pressed : Bool
  pub hdmi : Bool
  pub muted : ℕ

abbrev pub has : Option ℕ → (ℕ → Bool) → Bool
has none mask = false
has (some id) mask = mask id

abbrev pub btn_power : ℕ
btn_power = 19

abbrev pub btn_poweroff : ℕ
btn_poweroff = 20

abbrev pub btn_menu : ℕ
btn_menu = 16

abbrev pub charge_delay : ℕ
charge_delay = 1000

abbrev pub sleep_delay : ℕ
sleep_delay = 30000

abbrev pub setting_delay : ℕ
setting_delay = 500

abbrev pub mod_delay : ℕ
mod_delay = 250

-- `PWR_preventAutosleep`
unfoldable pub prevent_autosleep : Bool → Power → Bool
prevent_autosleep hdmi power = power.is_charging || not power.can_autosleep || hdmi

abbrev pub same_bool : Bool → Bool → Bool
same_bool true b = b
same_bool false b = not b

-- the first use of a static variable that is -1
abbrev pub or_first {ℓ} : {A : Type ℓ} → Option A → A → A
or_first none a = a
or_first (some b) a = b

-- from the start to the check of the charger
unfoldable pub note_input : Frame → Power → Power
note_input frame power =
    let was_charging = or_first power.was_charging power.is_charging in
    let idle_from =
      if was_charging || frame.any_pressed || power.last_input_at == 0
      then frame.now
      else power.last_input_at in
    let check = power.dirty || leb charge_delay (sub_u32 frame.now power.checked_charge_at) in
    let changed = check && not (same_bool was_charging power.is_charging) in
    record power {
      was_muted = some (or_first power.was_muted frame.muted);
      was_charging = some (if changed then power.is_charging else was_charging);
      last_input_at = idle_from;
      checked_charge_at = if check then frame.now else power.checked_charge_at;
      dirty = changed || power.dirty;
    }

-- the power button: held for a second, or the button that switches off
unfoldable pub power_button : Frame → Power → Power
power_button frame power =
    let off =
      frame.pad.just_released btn_poweroff
      || (not (power.power_pressed_at == 0)
          && leb 1000 (sub_u32 frame.now power.power_pressed_at)) in
    record power {
      calls = if off then power.calls ++ before_sleep ∷ power_off ∷ [] else power.calls;
      power_pressed_at =
          if frame.pad.just_pressed btn_power then frame.now else power.power_pressed_at;
    }

-- the time of the last input: now, where sleep without input is due but prevented
unfoldable pub kept_input : Frame → Power → ℕ
kept_input frame power =
    if leb sleep_delay (sub_u32 frame.now power.last_input_at) && prevent_autosleep frame.hdmi power
    then frame.now
    else power.last_input_at

-- sleep that is asked for, sleep without input, and the button for it
unfoldable pub sleeps_now : Buttons → Frame → Power → Bool
unfolding kept_input
sleeps_now buttons frame power =
    power.requested_sleep
    || leb sleep_delay (sub_u32 frame.now (kept_input frame power))
    || (power.can_sleep && has buttons.btn_sleep frame.pad.just_released)

abbrev pub slept : Frame → Power → Power
slept frame power = record power {
  requested_sleep = false;
  calls = power.calls ++ before_sleep ∷ faux_sleep ∷ after_sleep ∷ [];
  last_input_at = frame.woken_at;
  power_pressed_at = 0;
  dirty = true;
}

unfoldable pub sleep_if : Buttons → Frame → Power → Power
unfolding sleeps_now kept_input
sleep_if buttons frame power =
    if sleeps_now buttons frame power
    then slept frame power
    else record power { last_input_at = kept_input frame power }

-- the time after the sleep, if there was one
abbrev pub time_after : Buttons → Frame → Power → ℕ
time_after buttons frame power =
    if sleeps_now buttons frame power then frame.woken_at else frame.now

-- the settings: hidden after a while, shown with their modifier, and shown when the sound is
-- switched off or on
unfoldable pub show_settings : Buttons → Frame → ℕ → Power → Power
show_settings buttons frame now power =
    let delay_settings : Bool = elim buttons.btn_mod_brightness [
      | none ↦ false
      | some id ↦ id == btn_menu
    ] in
    let modified =
      has buttons.btn_mod_volume frame.pad.is_pressed
      || has buttons.btn_mod_brightness frame.pad.is_pressed in
    let hide =
      not (power.show_setting == 0)
      && (leb setting_delay (sub_u32 now power.setting_shown_at) || not delay_settings)
      && not modified in
    let hidden = record power {
      show_setting = if hide then 0 else power.show_setting;
      dirty = hide || power.dirty;
    } in
    let unpressed =
      if hidden.show_setting == 0 && not modified then now else hidden.mod_unpressed_at in
    let unmodified : Bool = elim buttons.btn_mod_volume [
      | none ↦ true
      | some v ↦ elim buttons.btn_mod_brightness [ none ↦ true | some b ↦ false ]
    ] in
    let show =
      (modified && (not delay_settings || leb mod_delay (sub_u32 now unpressed)))
      || (unmodified
          && (has buttons.btn_mod_plus frame.pad.just_repeated
              || has buttons.btn_mod_minus frame.pad.just_repeated)) in
    let shown = record hidden {
      mod_unpressed_at = unpressed;
      setting_shown_at = if show then now else hidden.setting_shown_at;
      show_setting =
          if show
          then if has buttons.btn_mod_brightness frame.pad.is_pressed then 1 else 2
          else hidden.show_setting;
    } in
    let turned : Bool = elim power.was_muted [ none ↦ true | some m ↦ not (m == frame.muted) ] in
    let told = record shown {
      was_muted = some frame.muted;
      setting_shown_at = if turned then now else shown.setting_shown_at;
      show_setting = if turned then 2 else shown.show_setting;
    } in
    record told { dirty = not (told.show_setting == 0) || told.dirty }

-- `PAD_reset`, which ends the sleep
abbrev pub reset_pad : Pad → Pad
reset_pad pad = record pad {
  is_pressed = none_set;
  just_pressed = none_set;
  just_released = none_set;
  just_repeated = none_set;
}

abbrev pub frame_after : Buttons → Frame → Power → Frame
frame_after buttons frame power =
    if sleeps_now buttons frame power then record frame { pad = reset_pad frame.pad } else frame

-- `PWR_update`, with both callbacks and both pointers
unfoldable pub update : Buttons → Frame → Power → Power
unfolding note_input power_button sleep_if show_settings
update buttons frame power =
    let awake = power_button frame (note_input frame power) in
    show_settings buttons (frame_after buttons frame awake) (time_after buttons frame awake)
      (sleep_if buttons frame awake)

-- `PWR_waitForWake`: the rounds of its loop, each with whether `PAD_wake` and a wake that was
-- requested end it, the time, and whether the charger is connected. The result is the time that
-- the next check counts from and how often it was switched off.
pub record Round : Type 0 where
  pub wakes : Bool
  pub requested : Bool
  pub now : ℕ
  pub charging : Bool

abbrev pub sleep_poweroff_delay : ℕ
sleep_poweroff_delay = 1800000

unfoldable pub wait_for_wake : Bool → ℕ → ℕ → List Round → ℕ × ℕ
wait_for_wake can_poweroff sleep_ticks offs [] = (sleep_ticks, offs)
wait_for_wake can_poweroff sleep_ticks offs (round ∷ rounds) =
    let due = can_poweroff && leb sleep_poweroff_delay (sub_u32 round.now sleep_ticks) in
    let rest =
      wait_for_wake can_poweroff
        (if due && round.charging then add_u32 sleep_ticks 60000 else sleep_ticks)
        (if due && not round.charging then offs + 1 else offs) rounds in
    if round.wakes || round.requested then (sleep_ticks, offs) else rest
