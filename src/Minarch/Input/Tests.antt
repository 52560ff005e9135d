-- ===== src/Minarch/Input/Tests.antt =====
-- Runs of a poll in which MENU and A are held, and of a frame in which fast-forward begins.
use darkui.Base.{◌≡◌, refl, true, false, ◌||◌, ◌==◌, [], ◌∷◌, some}
use darkui.CString.{bytes}
use darkui.Pad.{Pad, none_set}
use darkui.Minarch.Controls.{ButtonMapping}
use darkui.Minarch.Config.Frontend.{Variables}
use darkui.Minarch.Input.{
  Input, fast_forward_thread, power_thread, settle, input_poll_callback, input_state,
}
use darkui.Minarch.Input.Held.{input_state-any_held}
use darkui.Minarch.Input.Threads.{IsSettled, wants_thread, settle-wants_thread}

abbrev menu_and_a : Pad
menu_and_a = record {
  is_pressed = λ i. i == 16 || i == 4;
  just_pressed = λ i. i == 4;
  just_released = none_set;
  just_repeated = none_set;
  repeat_at = λ i. 0;
}

abbrev threaded : Variables
threaded = record {
  screen_scaling = 1;
  screen_effect = 0;
  screen_sharpness = 2;
  prevent_tearing = 1;
  overclock = 1;
  show_debug = 0;
  max_ff_speed = 3;
  thread_video = true;
  was_threaded = false;
  toggle_thread = false;
  gfx_sharpness = 2;
  gfx_effect = 0;
  dst_p_reset = false;
}

settle-wants_thread_example :
    let after = settle (fast_forward_thread false true (power_thread menu_and_a threaded)) in
    IsSettled after × (wants_thread after ≡ true)
settle-wants_thread_example =
    settle-wants_thread menu_and_a false true threaded (record { done = refl; apart = refl })

abbrev turbo : ButtonMapping
turbo = record {
  name = bytes "A Button";
  retro = some 8;
  local = some 4;
  mod_ = true;
  default_ = some 4;
}

abbrev begun : Input
begun = record {
  variables = threaded;
  options = [];
  fast_forward = false;
  toggled_ff_on = false;
  ignore_menu = false;
  show_menu = false;
  should_run_core = true;
  quit = false;
  buttons = none_set;
  calls = [];
}

input_state-any_held_example :
    input_state (input_poll_callback 0 [] (turbo ∷ []) menu_and_a begun) 8 ≡ true
input_state-any_held_example = input_state-any_held 0 [] (turbo ∷ []) menu_and_a begun 8
