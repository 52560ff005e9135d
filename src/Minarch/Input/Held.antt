-- ===== src/Minarch/Input/Held.antt =====
-- The buttons that the core is told of, against the bindings.
use darkui.Base.{
  ℕ, ◌≡◌, inl, inr, refl, ap, ◌∙◌, Bool, false, ◌&&◌, ◌||◌, List, [], ◌∷◌, Option, none, some,
  arith, ◌==◌, Bool-cases,
}
use darkui.Pad.{Pad}
use darkui.Minarch.Controls.{ButtonMapping}
use darkui.Minarch.Input.{
  Input, held, with_retro, control, controls_all, input_poll_callback, input_state,
}

abbrev is_retro : Option ℕ → ℕ → Bool
is_retro none id = false
is_retro (some retro) id = id == retro

-- Some control that is held down stands for the core's button.
abbrev pub any_held : ℕ → Pad → List ButtonMapping → ℕ → Bool
any_held gamepad_type pad [] id = false
any_held gamepad_type pad (mapping ∷ controls) id =
    held gamepad_type pad mapping && is_retro mapping.retro id
    || any_held gamepad_type pad controls id

with_retro-is_retro :
    (retro : Option ℕ) (buttons : ℕ → Bool) (id : ℕ)
    → with_retro retro buttons id ≡ (is_retro retro id || buttons id)
with_retro-is_retro none buttons id = refl
with_retro-is_retro (some retro) buttons id = refl

control-buttons :
    (gamepad_type : ℕ) (pad : Pad) (mapping : ButtonMapping) (input : Input) (id : ℕ)
    → (control gamepad_type pad mapping input).buttons id
      ≡ (held gamepad_type pad mapping && is_retro mapping.retro id || input.buttons id)
unfolding control
control-buttons gamepad_type pad mapping input id =
    elim (Bool-cases (held gamepad_type pad mapping)) [
      | inl t ↦ rw t (with_retro-is_retro mapping.retro input.buttons id)
      | inr f ↦ rw f refl
    ]

or_swap : (a b c : Bool) → (a || (b || c)) ≡ ((b || a) || c)
or_swap a b c = ground arith

controls_all-any_held :
    (gamepad_type : ℕ) (pad : Pad) (controls : List ButtonMapping) (input : Input) (id : ℕ)
    → (controls_all gamepad_type controls pad input).buttons id
      ≡ (any_held gamepad_type pad controls id || input.buttons id)
unfolding controls_all
controls_all-any_held gamepad_type pad [] input id = refl
controls_all-any_held gamepad_type pad (mapping ∷ controls) input id =
    controls_all-any_held gamepad_type pad controls (control gamepad_type pad mapping input) id
    ∙ ap (λ b. any_held gamepad_type pad controls id || b)
        (control-buttons gamepad_type pad mapping input id)
    ∙ or_swap (any_held gamepad_type pad controls id)
        (held gamepad_type pad mapping && is_retro mapping.retro id) (input.buttons id)

-- After a poll the core finds a button of its own pressed exactly where a control that stands for
-- it is held, alone or with MENU as it is bound, whatever shortcuts were pressed in that frame.
pub input_state-any_held :
    (gamepad_type : ℕ) (shortcuts controls : List ButtonMapping) (pad : Pad) (input : Input)
    (id : ℕ)
    → input_state (input_poll_callback gamepad_type shortcuts controls pad input) id
      ≡ any_held gamepad_type pad controls id
unfolding input_state input_poll_callback
input_state-any_held gamepad_type shortcuts controls pad input id =
    controls_all-any_held gamepad_type pad controls _ id
    ∙ or_false (any_held gamepad_type pad controls id)
  where
    or_false : (a : Bool) → (a || false) ≡ a
    or_false a = ground arith
