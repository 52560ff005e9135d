-- ===== src/Power/Tests.antt =====
-- Runs of two frames without input and of a frame on the charger.
use darkui.Base.{
  ℕ, ◌+◌, ◌≤◌, ◌<◌, ◌≡◌, refl, inl, inr, Bool, true, false, [], ◌∷◌, none, some, arith,
}
use darkui.Pad.{Pad, none_set}
use darkui.Power.{Buttons, Frame, Power, prevent_autosleep, update}
use darkui.Power.Sleeps.{IsIdle, Sleeps, update-prevented, update-Sleeps}

abbrev no_pad : Pad
no_pad = record {
  is_pressed = none_set;
  just_pressed = none_set;
  just_released = none_set;
  just_repeated = none_set;
  repeat_at = λ i. 0;
}

abbrev frame_at : ℕ → Frame
frame_at now = record {
  now = now;
  woken_at = now + 5000;
  pad = no_pad;
  any_pressed = false;
  hdmi = false;
  muted = 0;
}

abbrev device : Buttons
device = record {
  btn_sleep = some 19;
  btn_mod_volume = none;
  btn_mod_brightness = some 16;
  btn_mod_plus = some 17;
  btn_mod_minus = some 18;
}

abbrev battery : Bool → Power
battery charging = record {
  is_charging = charging;
  can_sleep = true;
  can_autosleep = true;
  requested_sleep = false;
  last_input_at = 1000;
  checked_charge_at = 900;
  setting_shown_at = 0;
  power_pressed_at = 0;
  mod_unpressed_at = 0;
  was_muted = some 0;
  was_charging = some charging;
  dirty = false;
  show_setting = 0;
  calls = [];
}

idle : (now : ℕ) → 1000 ≤ now → now < 4294967296 → IsIdle device 1000 (frame_at now)
idle now h lt = record {
  none_pressed = refl;
  no_power_button = refl;
  no_poweroff_button = refl;
  no_sleep_button = refl;
  no_hdmi = refl;
  later = h;
  no_wrap = lt;
}

update-Sleeps_example : Sleeps device (frame_at 20000 ∷ frame_at 31000 ∷ []) (battery false)
update-Sleeps_example =
    update-Sleeps device (frame_at 20000 ∷ frame_at 31000 ∷ []) 1000 (battery false)
      (record {
        input_at = refl;
        some_input = λ e. absurd cc;
        uncharged = refl;
        was_uncharged = refl;
        allowed = refl;
        not_asked = refl;
        not_held = refl;
      })
      (idle 20000 (omega arith) (omega arith), (idle 31000 (omega arith) (omega arith), tt))
      (inr (inl (omega arith)))

update-prevented_example : (update device (frame_at 90000) (battery true)).calls ≡ []
unfolding prevent_autosleep
update-prevented_example =
    update-prevented device (frame_at 90000) (battery true)
      (record { not_requested = refl; no_button = refl })
      (record { no_poweroff = refl; not_held = refl; not_pressed = refl }) refl
