-- ===== src/Power/Sleeps.antt =====
-- `PWR_update`: when the console goes to sleep on its own, and when it does not.
use darkui.Base.{
  ℕ, ◌+◌, ◌-◌, ◌≤◌, ◌<◌, ◌≡◌, ◌≢◌, ◌⊎◌, inl, inr, refl, ap, ◌∙◌, Bool, true, false, not, ◌&&◌, List,
  [], ◌∷◌, ◌++◌, some, arith, ltb, ltb→lt, ltb→le, leb, All, Bool-cases,
}
use darkui.Power.{
  Buttons, Frame, Power, Call, before_sleep, faux_sleep, after_sleep, has, sub_u32, sleep_delay,
  prevent_autosleep, time_after, kept_input, sleeps_now, note_input, power_button, sleep_if,
  show_settings, frame_after, update, btn_power, btn_poweroff,
}

pub sub_u32_le : (a b : ℕ) → b ≤ a → a < 4294967296 → sub_u32 a b ≡ a - b
sub_u32_le a b h lt = omega arith

-- Nobody switches off: the button for it is not let go, and the power button is not held.
pub record IsLeftOn (frame : Frame) (power : Power) : Type 0 where
  pub no_poweroff : frame.pad.just_released btn_poweroff ≡ false
  pub not_held : power.power_pressed_at ≡ 0
  pub not_pressed : frame.pad.just_pressed btn_power ≡ false

-- Nobody asks for sleep: neither the hardware nor the button.
pub record IsUnasked (buttons : Buttons) (frame : Frame) (power : Power) : Type 0 where
  pub not_requested : power.requested_sleep ≡ false
  pub no_button : has buttons.btn_sleep frame.pad.just_released ≡ false

power_button-IsLeftOn :
    (frame : Frame) (power : Power)
    → IsLeftOn frame power
    → (power_button frame power).calls ≡ power.calls
unfolding power_button
power_button-IsLeftOn frame power h = ground (arith, h.no_poweroff, h.not_held)

sub_u32_self : (a : ℕ) → leb sleep_delay (sub_u32 a a) ≡ false
sub_u32_self a = let zero_left : sub_u32 a a ≡ 0 = omega arith in ground (arith, zero_left)

-- Without being asked, the console sleeps when it is time and nothing prevents it.
sleeps_now-IsUnasked :
    (buttons : Buttons) (frame : Frame) (power : Power)
    → IsUnasked buttons frame power
    → sleeps_now buttons frame power ≡ (
        leb sleep_delay (sub_u32 frame.now power.last_input_at)
        && not (prevent_autosleep frame.hdmi power))
unfolding sleeps_now kept_input
sleeps_now-IsUnasked buttons frame power u =
    let self = sub_u32_self frame.now in
    elim (Bool-cases (prevent_autosleep frame.hdmi power)) [
      | inl t ↦ rw (t, sleeps_now) (ground (arith, u.not_requested, u.no_button, self))
      | inr f ↦ rw (f, sleeps_now) (ground (arith, u.not_requested, u.no_button))
    ]

sleep_if-prevented :
    (buttons : Buttons) (frame : Frame) (power : Power)
    → IsUnasked buttons frame power
    → prevent_autosleep frame.hdmi power ≡ true
    → (sleep_if buttons frame power).calls ≡ power.calls
unfolding sleep_if
sleep_if-prevented buttons frame power u p =
    let stays : sleeps_now buttons frame power ≡ false =
      sleeps_now-IsUnasked buttons frame power u ∙ rw p (and_false _) in
    rw (stays, sleep_if) refl
  where
    and_false : (b : Bool) → (b && false) ≡ false
    and_false b = ground arith

-- The console does not go to sleep, and is not switched off, on its own while it is charged, while
-- a screen is connected to HDMI, or while sleep without input is disabled (as it is in a game).
pub update-prevented :
    (buttons : Buttons) (frame : Frame) (power : Power)
    → IsUnasked buttons frame power
    → IsLeftOn frame power
    → prevent_autosleep frame.hdmi power ≡ true
    → (update buttons frame power).calls ≡ power.calls
unfolding update note_input prevent_autosleep show_settings
update-prevented buttons frame power u l p =
    let noted = note_input frame power in
    let awake = power_button frame noted in
    let on : IsLeftOn frame noted = record {
      no_poweroff = l.no_poweroff;
      not_held = l.not_held;
      not_pressed = l.not_pressed;
    } in
    let unasked : IsUnasked buttons frame awake =
      unfold power_button in record { not_requested = u.not_requested; no_button = u.no_button } in
    let prevented : prevent_autosleep frame.hdmi awake ≡ true = unfold power_button in p in
    sleep_if-prevented buttons frame awake unasked prevented ∙ power_button-IsLeftOn frame noted on

-- A frame without input on a console that may sleep by itself.
pub record IsIdle (buttons : Buttons) (last : ℕ) (frame : Frame) : Type 0 where
  pub none_pressed : frame.any_pressed ≡ false
  pub no_power_button : frame.pad.just_pressed btn_power ≡ false
  pub no_poweroff_button : frame.pad.just_released btn_poweroff ≡ false
  pub no_sleep_button : has buttons.btn_sleep frame.pad.just_released ≡ false
  pub no_hdmi : frame.hdmi ≡ false
  pub later : last ≤ frame.now
  pub no_wrap : frame.now < 4294967296

-- The console may sleep by itself, and last had input at the time given.
pub record MaySleep (last : ℕ) (power : Power) : Type 0 where
  pub input_at : power.last_input_at ≡ last
  pub some_input : last ≢ 0
  pub uncharged : power.is_charging ≡ false
  pub was_uncharged : power.was_charging ≡ some false
  pub allowed : power.can_autosleep ≡ true
  pub not_asked : power.requested_sleep ≡ false
  pub not_held : power.power_pressed_at ≡ 0

note_input-MaySleep :
    (buttons : Buttons) (frame : Frame) (last : ℕ) (power : Power)
    → MaySleep last power
    → IsIdle buttons last frame
    → MaySleep last (note_input frame power)
unfolding note_input
note_input-MaySleep buttons frame last power m i = record {
  input_at = ground (arith, m.input_at, m.some_input, m.was_uncharged, i.none_pressed);
  some_input = m.some_input;
  uncharged = m.uncharged;
  was_uncharged = ground (arith, m.was_uncharged, m.uncharged);
  allowed = m.allowed;
  not_asked = m.not_asked;
  not_held = m.not_held;
}

power_button-MaySleep :
    (buttons : Buttons) (frame : Frame) (last : ℕ) (power : Power)
    → MaySleep last power
    → IsIdle buttons last frame
    → MaySleep last (power_button frame power)
unfolding power_button
power_button-MaySleep buttons frame last power m i = record {
  input_at = m.input_at;
  some_input = m.some_input;
  uncharged = m.uncharged;
  was_uncharged = m.was_uncharged;
  allowed = m.allowed;
  not_asked = m.not_asked;
  not_held = ground (arith, m.not_held, i.no_power_button);
}

show_settings-MaySleep :
    (buttons : Buttons) (frame : Frame) (last now : ℕ) (power : Power)
    → MaySleep last power
    → MaySleep last (show_settings buttons frame now power)
unfolding show_settings
show_settings-MaySleep buttons frame last now power m = record {
  input_at = m.input_at;
  some_input = m.some_input;
  uncharged = m.uncharged;
  was_uncharged = m.was_uncharged;
  allowed = m.allowed;
  not_asked = m.not_asked;
  not_held = m.not_held;
}

-- Nothing prevents sleep of a console that may sleep, away from HDMI.
MaySleep-unprevented :
    (hdmi : Bool) (last : ℕ) (power : Power)
    → MaySleep last power
    → hdmi ≡ false
    → prevent_autosleep hdmi power ≡ false
unfolding prevent_autosleep
MaySleep-unprevented hdmi last power m h = ground (arith, m.uncharged, m.allowed, h)

sleep_if-MaySleep :
    (buttons : Buttons) (frame : Frame) (last : ℕ) (power : Power)
    → MaySleep last power
    → IsIdle buttons last frame
    → (frame.now < last + sleep_delay → MaySleep last (sleep_if buttons frame power))
      × (last + sleep_delay ≤ frame.now
          → (sleep_if buttons frame power).calls
            ≡ power.calls ++ before_sleep ∷ faux_sleep ∷ after_sleep ∷ [])
unfolding sleep_if kept_input
sleep_if-MaySleep buttons frame last power m i =
    let free = MaySleep-unprevented frame.hdmi last power m i.no_hdmi in
    let unasked : IsUnasked buttons frame power = record {
      not_requested = m.not_asked;
      no_button = i.no_sleep_button;
    } in
    let since : sub_u32 frame.now power.last_input_at ≡ frame.now - last =
      sub_u32_le frame.now power.last_input_at (omega (arith, m.input_at, i.later)) i.no_wrap
      ∙ ap (λ l. frame.now - l) m.input_at in
    let when : sleeps_now buttons frame power ≡ leb sleep_delay (frame.now - last) =
      sleeps_now-IsUnasked buttons frame power unasked
      ∙ rw (free, since) (and_true (leb sleep_delay (frame.now - last))) in
    let kept : kept_input frame power ≡ power.last_input_at =
      rw (free, kept_input) (ground arith) in
    (
      λ lt.
          let stays : leb sleep_delay (frame.now - last) ≡ false = ground arith in
          rw (when ∙ stays, sleep_if)
            (record {
              input_at = kept ∙ m.input_at;
              some_input = m.some_input;
              uncharged = m.uncharged;
              was_uncharged = m.was_uncharged;
              allowed = m.allowed;
              not_asked = m.not_asked;
              not_held = m.not_held;
            }),
      λ le.
          let goes : leb sleep_delay (frame.now - last) ≡ true = ground arith in
          rw (when ∙ goes, sleep_if) refl,
    )
  where
    and_true : (b : Bool) → (b && true) ≡ b
    and_true b = ground arith

abbrev pub sleep_calls : List Call
sleep_calls = before_sleep ∷ faux_sleep ∷ after_sleep ∷ []

idle_frame :
    (buttons : Buttons) (frame : Frame) (last : ℕ) (power : Power)
    → MaySleep last power
    → IsIdle buttons last frame
    → (frame.now < last + sleep_delay → MaySleep last (update buttons frame power))
      × (last + sleep_delay ≤ frame.now
          → (update buttons frame power).calls ≡ power.calls ++ sleep_calls)
unfolding update
idle_frame buttons frame last power m i =
    let noted = note_input frame power in
    let awake = power_button frame noted in
    let may_noted = note_input-MaySleep buttons frame last power m i in
    let may = power_button-MaySleep buttons frame last noted may_noted i in
    let on : IsLeftOn frame noted = record {
      no_poweroff = i.no_poweroff_button;
      not_held = may_noted.not_held;
      not_pressed = i.no_power_button;
    } in
    let same : awake.calls ≡ power.calls =
      power_button-IsLeftOn frame noted on ∙ unfold note_input in refl in
    let made = sleep_if-MaySleep buttons frame last awake may i in
    let now = time_after buttons frame awake in
    (
      λ lt.
          show_settings-MaySleep buttons (frame_after buttons frame awake) last now
            (sleep_if buttons frame awake) (made.0 lt),
      λ le. (unfold show_settings in made.1 le) ∙ ap (λ calls. calls ++ sleep_calls) same,
    )

-- At some frame of the list the console goes to sleep.
abbrev pub Sleeps : Buttons → List Frame → Power → Type 0
Sleeps buttons [] power = ⊥
Sleeps buttons (frame ∷ frames) power =
    ((update buttons frame power).calls ≡ power.calls ++ sleep_calls)
    ⊎ Sleeps buttons frames (update buttons frame power)

-- One of the frames is as late as that.
abbrev pub SomeFrom : ℕ → List Frame → Type 0
SomeFrom deadline [] = ⊥
SomeFrom deadline (frame ∷ frames) = (deadline ≤ frame.now) ⊎ SomeFrom deadline frames

-- Thirty seconds after the last input the console goes to sleep: in any frames without input, of
-- which one is that late, there is one in which it does. It must not be charged or on HDMI, and
-- sleep without input must be allowed.
pub update-Sleeps :
    (buttons : Buttons) (frames : List Frame) (last : ℕ) (power : Power)
    → MaySleep last power
    → All (IsIdle buttons last) frames
    → SomeFrom (last + sleep_delay) frames
    → Sleeps buttons frames power
update-Sleeps buttons [] last power m h late = late
update-Sleeps buttons (frame ∷ frames) last power m h late =
    let step = idle_frame buttons frame last power m h.0 in
    elim (Bool-cases (ltb frame.now (last + sleep_delay))) [
      | inr f ↦ inl (step.1 (ltb→le frame.now (last + sleep_delay) f))
      | inl t ↦ elim late [
        | inl due ↦ inl (step.1 due)
        | inr then_ ↦ inr (
            update-Sleeps buttons frames last (update buttons frame power)
              (step.0 (ltb→lt frame.now (last + sleep_delay) t)) h.1 then_)
      ]
    ]
