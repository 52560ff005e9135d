-- ===== src/Pad.antt =====
-- workspace/all/common/pad.c: the state of the buttons, and what one poll makes of the events. A
-- bit mask of buttons is the test of its bits, by button id; the codes of a platform's keys are
-- arguments, in the order of the source's tests.
pub mod Marks
pub mod Tapped
pub mod Vibration
mod Tests
use darkui.Base.{
  ℕ, zero, suc, ◌+◌, ◌-◌, ◌%◌, Bool, true, false, not, ◌&&◌, ◌||◌, List, [], ◌∷◌, Option, none,
  some, ltb, leb, ◌==◌, if◌then◌else◌,
}

-- a number of C that may be negative; `negsuc n` is -(n + 1)
pub data ℤ : Type 0 where
  pos : ℕ → ℤ
  negsuc : ℕ → ℤ

-- `PAD_Context`, without the axes, which are stored only
pub record Pad : Type 0 where
  pub is_pressed : ℕ → Bool
  pub just_pressed : ℕ → Bool
  pub just_released : ℕ → Bool
  pub just_repeated : ℕ → Bool
  pub repeat_at : ℕ → ℕ

abbrev pub none_set : ℕ → Bool
none_set = λ i. false

-- `mask |= 1 << id`, `mask &= ~(1 << id)`, `mask &= 1 << id`
abbrev pub with_bit : ℕ → (ℕ → Bool) → ℕ → Bool
with_bit id mask = λ i. i == id || mask i

abbrev pub without_bit : ℕ → (ℕ → Bool) → ℕ → Bool
without_bit id mask = λ i. not (i == id) && mask i

abbrev pub only_bit : ℕ → (ℕ → Bool) → ℕ → Bool
only_bit id mask = λ i. i == id && mask i

abbrev pub put : ℕ → ℕ → (ℕ → ℕ) → ℕ → ℕ
put id n at = λ i. if i == id then n else at i

abbrev pub repeat_delay : ℕ
repeat_delay = 300

abbrev pub repeat_interval : ℕ
repeat_interval = 100

-- the sum of two `uint32_t`
abbrev pub add_u32 : ℕ → ℕ → ℕ
add_u32 a b = (a + b) % 4294967296

abbrev pub axis_deadzone : ℕ
axis_deadzone = 16384

-- `value > AXIS_DEADZONE` and `value < -AXIS_DEADZONE`
unfoldable pub pushes_pos : ℤ → Bool
pushes_pos (pos n) = ltb axis_deadzone n
pushes_pos (negsuc n) = false

unfoldable pub pushes_neg : ℤ → Bool
pushes_neg (pos n) = false
pushes_neg (negsuc n) = ltb axis_deadzone (n + 1)

-- the stick is pushed to the side of `id`, away from the side of `other`
pub push_side : ℕ → ℕ → ℕ → Pad → Pad
push_side id other repeat_at pad =
    let set = record pad {
      is_pressed = with_bit id pad.is_pressed;
      just_pressed = with_bit id pad.just_pressed;
      just_repeated = with_bit id pad.just_repeated;
      repeat_at = put id repeat_at pad.repeat_at;
    } in
    if pad.is_pressed id
    then pad
    else if set.is_pressed other
    then record set {
      is_pressed = without_bit other set.is_pressed;
      just_repeated = without_bit other set.just_repeated;
      just_released = with_bit other set.just_released;
    }
    else set

-- the stick is let go. The source takes `just_repeated &= neg`, without the complement.
pub leave_side : ℕ → Pad → Pad
leave_side id pad =
    if pad.is_pressed id
    then record pad {
      is_pressed = without_bit id pad.is_pressed;
      just_repeated = only_bit id pad.just_repeated;
      just_released = with_bit id pad.just_released;
    }
    else pad

-- `PAD_setAnalog`
unfoldable pub set_analog : ℕ → ℕ → ℤ → ℕ → Pad → Pad
unfolding pushes_pos pushes_neg push_side leave_side
set_analog neg_id pos_id value repeat_at pad =
    if pushes_pos value
    then push_side pos_id neg_id repeat_at pad
    else if pushes_neg value
    then push_side neg_id pos_id repeat_at pad
    else leave_side pos_id (leave_side neg_id pad)

-- the end of the loop over the events, for the button `id`
pub press : ℕ → ℕ → Pad → Pad
press tick id pad = if pad.is_pressed id then pad else record pad {
  just_pressed = with_bit id pad.just_pressed;
  just_repeated = with_bit id pad.just_repeated;
  is_pressed = with_bit id pad.is_pressed;
  repeat_at = put id (add_u32 tick repeat_delay) pad.repeat_at;
}

pub release : ℕ → Pad → Pad
release id pad = record pad {
  is_pressed = without_bit id pad.is_pressed;
  just_repeated = without_bit id pad.just_repeated;
  just_released = with_bit id pad.just_released;
}

pub set_button : ℕ → Bool → ℕ → Pad → Pad
unfolding press release
set_button tick true id pad = press tick id pad
set_button tick false id pad = release id pad

-- the ids of the buttons in the order in which the codes of keys and of joystick buttons are tried
abbrev pub key_ids : List ℕ
key_ids =
    0 ∷ 1 ∷ 2 ∷ 3 ∷ 4 ∷ 5 ∷ 6 ∷ 7 ∷ 8 ∷ 9 ∷ 16 ∷ 16 ∷ 10 ∷ 12 ∷ 14 ∷ 11 ∷ 13 ∷ 15 ∷ 17 ∷ 18 ∷ 19
    ∷ 20 ∷ []

abbrev pub joy_ids : List ℕ
joy_ids =
    0 ∷ 1 ∷ 2 ∷ 3 ∷ 4 ∷ 5 ∷ 6 ∷ 7 ∷ 8 ∷ 9 ∷ 16 ∷ 16 ∷ 16 ∷ 10 ∷ 12 ∷ 14 ∷ 11 ∷ 13 ∷ 15 ∷ 17 ∷ 18
    ∷ 19 ∷ []

-- the first of the codes that is met; `none` is BTN_NONE
pub find_id : List ℕ → List ℕ → ℕ → Option ℕ
find_id [] ids code = none
find_id (c ∷ codes) [] code = none
find_id (c ∷ codes) (id ∷ ids) code = if code == c then some id else find_id codes ids code

-- `CODE_...` and `JOY_...` of a platform in that order
pub record Codes : Type 0 where
  pub keys : List ℕ
  pub joys : List ℕ

-- An event, with the hat's directions as the source puts them into `hats`; the axes are those of
-- L2, of R2, of the left stick and of the right one.
pub data Event : Type 0 where
  key : ℕ → Bool → Event
  joy : ℕ → Bool → Event
  hat : Bool → Bool → Bool → Bool → Event
  hat_unknown : Event
  axis_l2 axis_r2 axis_lx axis_ly axis_rx axis_ry : ℤ → Event

pub positive : ℤ → Bool
positive (pos n) = ltb 0 n
positive (negsuc n) = false

pub set_known : ℕ → Bool → Option ℕ → Pad → Pad
unfolding set_button
set_known tick pressed none pad = pad
set_known tick pressed (some id) pad = set_button tick pressed id pad

-- an axis that stands for a button: only what was pressed is released
pub set_trigger : ℕ → Bool → ℕ → Pad → Pad
unfolding set_button
set_trigger tick pressed id pad =
    if not pressed && not (pad.is_pressed id) then pad else set_button tick pressed id pad

-- the body of `while (SDL_PollEvent(&event))`
unfoldable pub handle : Codes → ℕ → Event → Pad → Pad
unfolding find_id positive set_known set_trigger set_button set_analog
handle codes tick (key code pressed) pad =
    set_known tick pressed (find_id codes.keys key_ids code) pad
handle codes tick (joy code pressed) pad =
    set_known tick pressed (find_id codes.joys joy_ids code) pad
handle codes tick (hat up down left right) pad =
    set_button tick right 3
      (set_button tick left 2 (set_button tick down 1 (set_button tick up 0 pad)))
handle codes tick hat_unknown pad = pad
handle codes tick (axis_l2 value) pad = set_trigger tick (positive value) 12 pad
handle codes tick (axis_r2 value) pad = set_trigger tick (positive value) 13 pad
handle codes tick (axis_lx value) pad = set_analog 23 24 value (add_u32 tick repeat_delay) pad
handle codes tick (axis_ly value) pad = set_analog 21 22 value (add_u32 tick repeat_delay) pad
handle codes tick (axis_rx value) pad = pad
handle codes tick (axis_ry value) pad = pad

pub handle_all : Codes → ℕ → List Event → Pad → Pad
unfolding handle
handle_all codes tick [] pad = pad
handle_all codes tick (event ∷ events) pad =
    handle_all codes tick events (handle codes tick event pad)

-- the reset of the transient state, and the repeats that are due
pub start_poll : ℕ → Pad → Pad
start_poll tick pad =
    let due : ℕ → Bool = λ i. ltb i 25 && (pad.is_pressed i && leb (pad.repeat_at i) tick) in
    record pad {
      just_pressed = none_set;
      just_released = none_set;
      just_repeated = due;
      repeat_at = λ i. if due i then add_u32 (pad.repeat_at i) repeat_interval else pad.repeat_at i;
    }

-- `PLAT_pollInput` without a lid
unfoldable pub poll_input : Codes → ℕ → List Event → Pad → Pad
unfolding handle_all start_poll
poll_input codes tick events pad = handle_all codes tick events (start_poll tick pad)
