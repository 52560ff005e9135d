-- ===== src/Pad/Tests.antt =====
-- Runs of a poll with the stick held to the left while the A button is held, of a tap of MENU, and
-- of the motor.
use darkui.Base.{
  ◌+◌, ◌%◌, ◌<◌, ◌↔◌, ◌⊎◌, arith, ℕ, ◌≡◌, refl, Bool, true, false, ◌||◌, ◌==◌, [], ◌∷◌,
}
use darkui.Pad.{pos, Pad, Codes, key, axis_lx, hat, none_set, poll_input}
use darkui.Pad.Marks.{Marked, poll_input-Marked}
use darkui.Pad.Tapped.{
  ModButtons, Tap, tapped_menu, tapped_frames, IsVolume, AnyVolume, tapped_menu-tapped_frames,
}
use darkui.Pad.Vibration.{Vib, set_strength, get_strength, vib_rounds, vib_rounds-set_strength}

abbrev held : Pad
held = record {
  is_pressed = λ i. i == 23 || i == 4;
  just_pressed = none_set;
  just_released = none_set;
  just_repeated = λ i. i == 23 || i == 4;
  repeat_at = λ i. 500;
}

abbrev no_codes : Codes
no_codes = record { keys = 10 ∷ 11 ∷ []; joys = [] }

poll_input-Marked_example :
    Marked held.is_pressed
      (poll_input no_codes 600
        (axis_lx (pos 0) ∷ key 11 true ∷ hat true false false false ∷ [])
        held)
      23
poll_input-Marked_example =
    poll_input-Marked no_codes 600 (axis_lx (pos 0) ∷ key 11 true ∷ hat true false false false ∷ [])
      held 23

-- MENU is button 9, the volume buttons are 15 and 16.
abbrev console : ModButtons
console = record { btn_menu = 9; btn_mod_brightness = 9; btn_mod_plus = 15; btn_mod_minus = 16 }

abbrev frame_of : (ℕ → Bool) → (ℕ → Bool) → (ℕ → Bool) → Pad
frame_of is_pressed just_pressed just_released = record {
  is_pressed = is_pressed;
  just_pressed = just_pressed;
  just_released = just_released;
  just_repeated = none_set;
  repeat_at = λ i. 0;
}

abbrev menu_only : ℕ → Bool
menu_only = λ i. i == 9

abbrev pressing : Pad
pressing = frame_of menu_only menu_only none_set

abbrev holding : Pad
holding = frame_of menu_only none_set none_set

abbrev releasing : Pad
releasing = frame_of none_set none_set menu_only

abbrev untapped : Tap
untapped = record { menu_start = 7; ignore_menu = true }

tapped_menu-tapped_frames_example :
    ((tapped_menu console releasing
        ((1000 + 200) % 4294967296)
        (tapped_frames console ((pressing, 1000) ∷ (holding, 1100) ∷ []) untapped)).0
      ≡ true)
    ↔ ((releasing.just_released 9 ≡ true)
        × (200 < 250)
        × ¬ (AnyVolume console ((holding, 1100) ∷ []) ⊎ IsVolume console releasing))
tapped_menu-tapped_frames_example =
    tapped_menu-tapped_frames console pressing releasing 1000 200 ((holding, 1100) ∷ []) untapped
      refl (omega arith) (omega arith) refl (refl, tt) refl

abbrev rumbling : Vib
rumbling = record { queued_strength = 1; strength = 1; defer = 0; motor = 1 }

vib_rounds-set_strength_example :
    let after = vib_rounds 4 (set_strength 0 rumbling) in
    (get_strength after ≡ 0) × (after.motor ≡ 0)
vib_rounds-set_strength_example = vib_rounds-set_strength 0 rumbling refl
