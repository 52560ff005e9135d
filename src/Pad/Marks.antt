-- ===== src/Pad/Marks.antt =====
-- What the marks of one poll say of the change that it made.
use darkui.Base.{
  ℕ, ◌≡◌, inl, inr, Bool, true, false, not, ◌&&◌, ◌||◌, Bool-cases, List, [], ◌∷◌, Option, none,
  some, ◌==◌, arith,
}
use darkui.Pad.{
  ℤ, Pad, Codes, Event, key, joy, hat, hat_unknown, axis_l2, axis_r2, axis_lx, axis_ly, axis_rx,
  axis_ry, pushes_pos, pushes_neg, push_side, leave_side, set_analog, press, release, set_button,
  set_known, set_trigger, handle, handle_all, start_poll, poll_input,
}

-- A button that is pressed now and was not is marked as pressed, one that was and is not as
-- released, and a mark of a press means that it is pressed or was released again.
pub record Marked (was : ℕ → Bool) (pad : Pad) (i : ℕ) : Type 0 where
  pub pressed : was i ≡ false → pad.is_pressed i ≡ true → pad.just_pressed i ≡ true
  pub released : was i ≡ true → pad.is_pressed i ≡ false → pad.just_released i ≡ true
  pub held : pad.just_pressed i ≡ true → (pad.is_pressed i || pad.just_released i) ≡ true

module _ (was : ℕ → Bool) (pad : Pad) (i : ℕ) (m : Marked was pad i) where
  press-Marked : (tick id : ℕ) → Marked was (press tick id pad) i
  unfolding press
  press-Marked tick id = ground (arith, m.pressed, m.released, m.held)

  release-Marked : (id : ℕ) → Marked was (release id pad) i
  unfolding release
  release-Marked id = ground (arith, m.pressed, m.released, m.held)

  push_side-Marked : (id other at : ℕ) → Marked was (push_side id other at pad) i
  unfolding push_side
  push_side-Marked id other at = ground (arith, m.pressed, m.released, m.held)

  leave_side-Marked : (id : ℕ) → Marked was (leave_side id pad) i
  unfolding leave_side
  leave_side-Marked id = ground (arith, m.pressed, m.released, m.held)

module _ (was : ℕ → Bool) (i : ℕ) where
  set_button-Marked :
      (tick : ℕ) (pressed : Bool) (id : ℕ) (pad : Pad)
      → Marked was pad i
      → Marked was (set_button tick pressed id pad) i
  unfolding set_button
  set_button-Marked tick true id pad m = press-Marked was pad i m tick id
  set_button-Marked tick false id pad m = release-Marked was pad i m id

  set_known-Marked :
      (tick : ℕ) (pressed : Bool) (id : Option ℕ) (pad : Pad)
      → Marked was pad i
      → Marked was (set_known tick pressed id pad) i
  unfolding set_known
  set_known-Marked tick pressed none pad m = m
  set_known-Marked tick pressed (some id) pad m = set_button-Marked tick pressed id pad m

  set_trigger-Marked :
      (tick : ℕ) (pressed : Bool) (id : ℕ) (pad : Pad)
      → Marked was pad i
      → Marked was (set_trigger tick pressed id pad) i
  unfolding set_trigger
  set_trigger-Marked tick pressed id pad m =
      elim (Bool-cases (not pressed && not (pad.is_pressed id))) [
        | inl t ↦ rw t m
        | inr t ↦ rw t (set_button-Marked tick pressed id pad m)
      ]

  set_analog-Marked :
      (neg_id pos_id : ℕ) (value : ℤ) (at : ℕ) (pad : Pad)
      → Marked was pad i
      → Marked was (set_analog neg_id pos_id value at pad) i
  unfolding set_analog
  set_analog-Marked neg_id pos_id value at pad m = elim (Bool-cases (pushes_pos value)) [
    | inl t ↦ rw t (push_side-Marked was pad i m pos_id neg_id at)
    | inr t ↦ elim (Bool-cases (pushes_neg value)) [
      | inl u ↦ rw (t, u) (push_side-Marked was pad i m neg_id pos_id at)
      | inr u ↦
          rw (t, u)
            (leave_side-Marked was (leave_side neg_id pad) i (leave_side-Marked was pad i m neg_id)
              pos_id)
    ]
  ]

  handle-Marked :
      (codes : Codes) (tick : ℕ) (event : Event) (pad : Pad)
      → Marked was pad i
      → Marked was (handle codes tick event pad) i
  unfolding handle
  handle-Marked codes tick (key code pressed) pad m = set_known-Marked tick pressed _ pad m
  handle-Marked codes tick (joy code pressed) pad m = set_known-Marked tick pressed _ pad m
  handle-Marked codes tick (hat up down left right) pad m = set_button-Marked tick right 3 _ (
      set_button-Marked tick left 2 _
        (set_button-Marked tick down 1 _ (set_button-Marked tick up 0 pad m)))
  handle-Marked codes tick hat_unknown pad m = m
  handle-Marked codes tick (axis_l2 value) pad m = set_trigger-Marked tick _ 12 pad m
  handle-Marked codes tick (axis_r2 value) pad m = set_trigger-Marked tick _ 13 pad m
  handle-Marked codes tick (axis_lx value) pad m = set_analog-Marked 23 24 value _ pad m
  handle-Marked codes tick (axis_ly value) pad m = set_analog-Marked 21 22 value _ pad m
  handle-Marked codes tick (axis_rx value) pad m = m
  handle-Marked codes tick (axis_ry value) pad m = m

  handle_all-Marked :
      (codes : Codes) (tick : ℕ) (events : List Event) (pad : Pad)
      → Marked was pad i
      → Marked was (handle_all codes tick events pad) i
  unfolding handle_all
  handle_all-Marked codes tick [] pad m = m
  handle_all-Marked codes tick (event ∷ events) pad m =
      handle_all-Marked codes tick events (handle codes tick event pad)
        (handle-Marked codes tick event pad m)

-- Whatever events come between two polls, and in whatever order, no change of a button is lost: a
-- button that is pressed after the poll and was not before is marked as pressed, one that is not
-- and was is marked as released, and one marked as pressed is pressed or was released again.
pub poll_input-Marked :
    (codes : Codes) (tick : ℕ) (events : List Event) (pad : Pad) (i : ℕ)
    → Marked pad.is_pressed (poll_input codes tick events pad) i
unfolding poll_input start_poll
poll_input-Marked codes tick events pad i =
    handle_all-Marked pad.is_pressed i codes tick events _
      (record { pressed = λ h k. cc; released = λ h k. cc; held = λ h. cc })

-- When a stick that was pushed to one side only is let go, the repeat of every other button is
-- dropped, and that of the side that is no longer pressed is kept.
pub set_analog-repeats :
    (neg_id pos_id at : ℕ) (value : ℤ) (pad : Pad) (i : ℕ)
    → pushes_pos value ≡ false
    → pushes_neg value ≡ false
    → pad.is_pressed neg_id ≡ true
    → pad.is_pressed pos_id ≡ false
    → let out = set_analog neg_id pos_id value at pad in
      (out.just_repeated i ≡ (i == neg_id && pad.just_repeated i)) × (out.is_pressed neg_id ≡ false)
unfolding set_analog leave_side
set_analog-repeats neg_id pos_id at value pad i h k pressed other = ground arith
