-- ===== src/Pad/Tapped.antt =====
-- workspace/all/common/pad.c: MENU tapped, as opposed to held or used with the volume buttons.
use darkui.Base.{
  ℕ, ◌+◌, ◌-◌, ◌%◌, ◌≡◌, refl, ap, ◌∙◌, inl, inr, Bool, true, false, not, ◌&&◌, ◌||◌, List, [], ◌∷◌,
  ltb, ◌==◌, ==_iff, ◌⊎◌, ◌↔◌, ◌<◌, if◌then◌else◌, All, Bool-cases, arith,
}
use darkui.Pad.{Pad}

-- the buttons of a platform
pub record ModButtons : Type 0 where
  pub btn_menu : ℕ
  pub btn_mod_brightness : ℕ
  pub btn_mod_plus : ℕ
  pub btn_mod_minus : ℕ

-- the variables that `PAD_tappedMenu` keeps
pub record Tap : Type 0 where
  pub menu_start : ℕ
  pub ignore_menu : Bool

-- the second test of `PAD_tappedMenu`
abbrev pub sets_brightness : ModButtons → Pad → Bool
sets_brightness b pad =
    pad.is_pressed b.btn_menu
    && (b.btn_mod_brightness == b.btn_menu
        && (pad.just_pressed b.btn_mod_plus || pad.just_pressed b.btn_mod_minus))

abbrev pub menu_delay : ℕ
menu_delay = 250

-- `now-menu_start` of two `uint32_t`
abbrev pub since : ℕ → ℕ → ℕ
since now start = (now + 4294967296 - start) % 4294967296

-- `PAD_tappedMenu`: what it returns, and its variables then
pub tapped_menu : ModButtons → Pad → ℕ → Tap → Bool × Tap
tapped_menu b pad now tap =
    let after : Tap =
      if pad.just_pressed b.btn_menu
      then record { menu_start = now; ignore_menu = false }
      else if sets_brightness b pad
      then record tap { ignore_menu = true }
      else tap in
    (
      not after.ignore_menu
          && (pad.just_released b.btn_menu && ltb (since now after.menu_start) menu_delay),
      after,
    )

-- The sides of the test.
tapped_iff :
    {out ignored ignored' released : Bool} {time elapsed : ℕ} {V W : Type 0}
    → out ≡ (not ignored && (released && ltb time 250))
    → time ≡ elapsed
    → (ignored ≡ true) ↔ ((ignored' ≡ true) ⊎ W)
    → (ignored' ≡ true) ↔ ((false ≡ true) ⊎ V)
    → (out ≡ true) ↔ ((released ≡ true) × (elapsed < 250) × ¬ (V ⊎ W))
tapped_iff {out} {ignored} {ignored'} {released} {time} {elapsed} {V} {W} o w g i =
    elim (Bool-cases ignored) [
      | inl t ↦ (
        (λ h. absurd (ground (arith, o, t, h))),
        λ (r, d, n). absurd (elim (g.0 t) [
          | inl t' ↦ elim (i.0 t') [ inl never ↦ absurd cc | inr v ↦ n (inl v) ]
          | inr x ↦ n (inr x)
        ]),
      )
      | inr f ↦ (
        λ h. (
          ground (arith, o, h),
          ground (arith, o, w, h),
          λ x. elim x [
            | inl v ↦ ground (arith, f, g.1 (inl (i.1 (inr v))))
            | inr x' ↦ ground (arith, f, g.1 (inr x'))
          ],
        ),
        λ (r, d, n). ground (arith, o, f, r, w, d),
      )
    ]

-- the calls of several frames
pub tapped_frames : ModButtons → List (Pad × ℕ) → Tap → Tap
tapped_frames b [] tap = tap
tapped_frames b ((pad, now) ∷ frames) tap = tapped_frames b frames (tapped_menu b pad now tap).1

-- A volume button goes down while MENU is held.
abbrev pub IsVolume : ModButtons → Pad → Type 0
IsVolume b pad =
    (pad.is_pressed b.btn_menu ≡ true)
    × ((pad.just_pressed b.btn_mod_plus ≡ true) ⊎ (pad.just_pressed b.btn_mod_minus ≡ true))

-- That happens in one of the frames.
abbrev pub AnyVolume : ModButtons → List (Pad × ℕ) → Type 0
AnyVolume b [] = ⊥
AnyVolume b ((pad, now) ∷ frames) = IsVolume b pad ⊎ AnyVolume b frames

tapped_menu-later :
    (b : ModButtons) (pad : Pad) (now : ℕ) (tap : Tap)
    → b.btn_mod_brightness ≡ b.btn_menu
    → pad.just_pressed b.btn_menu ≡ false
    → let after = (tapped_menu b pad now tap).1 in
      (after.menu_start ≡ tap.menu_start)
      × ((after.ignore_menu ≡ true) ↔ ((tap.ignore_menu ≡ true) ⊎ IsVolume b pad))
unfolding tapped_menu
tapped_menu-later b pad now tap e p = elim (Bool-cases (sets_brightness b pad)) [
  | inl t ↦ rw (p, t) (refl, ground (arith, t))
  | inr f ↦ rw (p, f) (refl, ground (arith, f, (==_iff b.btn_mod_brightness b.btn_menu).1 e))
]

tapped_frames-later :
    (b : ModButtons) (frames : List (Pad × ℕ)) (tap : Tap)
    → b.btn_mod_brightness ≡ b.btn_menu
    → All (λ f. f.0.just_pressed b.btn_menu ≡ false) frames
    → let after = tapped_frames b frames tap in
      (after.menu_start ≡ tap.menu_start)
      × ((after.ignore_menu ≡ true) ↔ ((tap.ignore_menu ≡ true) ⊎ AnyVolume b frames))
unfolding tapped_frames
tapped_frames-later b [] tap e h =
    (refl, ((λ t. inl t), λ o. elim o [ inl t ↦ t | inr n ↦ absurd n ]))
tapped_frames-later b ((pad, now) ∷ frames) tap e (p, h) =
    let first = tapped_menu-later b pad now tap e p in
    let rest = tapped_frames-later b frames (tapped_menu b pad now tap).1 e h in
    (rest.0 ∙ first.0, ground (arith, first.1, rest.1))

-- the time that has passed, where the clock of 32 bits went around at most once
since-elapsed :
    (start elapsed : ℕ)
    → start < 4294967296
    → elapsed < 4294967296
    → since ((start + elapsed) % 4294967296) start ≡ elapsed
since-elapsed start elapsed s e = omega arith

-- MENU pressed in one frame and not again in those after it counts as tapped in the last of them,
-- `elapsed` ms after, exactly if it is released there within 250 ms, and in no frame after its
-- press a volume button went down while MENU was held. MENU must be the button that sets the
-- brightness with the volume buttons, as on both platforms; the clock may go around meanwhile.
pub tapped_menu-tapped_frames :
    (b : ModButtons) (first last : Pad) (start elapsed : ℕ) (frames : List (Pad × ℕ)) (tap : Tap)
    → b.btn_mod_brightness ≡ b.btn_menu
    → start < 4294967296
    → elapsed < 4294967296
    → first.just_pressed b.btn_menu ≡ true
    → All (λ f. f.0.just_pressed b.btn_menu ≡ false) frames
    → last.just_pressed b.btn_menu ≡ false
    → ((tapped_menu b last
          ((start + elapsed) % 4294967296)
          (tapped_frames b ((first, start) ∷ frames) tap)).0
        ≡ true)
      ↔ ((last.just_released b.btn_menu ≡ true)
          × (elapsed < 250)
          × ¬ (AnyVolume b frames ⊎ IsVolume b last))
unfolding tapped_menu tapped_frames
tapped_menu-tapped_frames b first last start elapsed frames tap e s t p h l =
    let now = (start + elapsed) % 4294967296 in
    let pressed : Tap = record { menu_start = start; ignore_menu = false } in
    let made : (tapped_menu b first start tap).1 ≡ pressed = rw (p, tapped_menu) refl in
    let held = tapped_frames-later b frames pressed e h in
    let after = tapped_frames b frames pressed in
    let then_last = tapped_menu-later b last now after e l in
    let waited : since now (tapped_menu b last now after).1.menu_start ≡ elapsed =
      ap (since now) (then_last.0 ∙ held.0) ∙ since-elapsed start elapsed s t in
    let tapped = (tapped_menu b last now after).1 in
    let same : (tapped_menu b last now (tapped_frames b ((first, start) ∷ frames) tap)).0 ≡ (
        not tapped.ignore_menu
        && (last.just_released b.btn_menu && ltb (since now tapped.menu_start) 250)) =
      ap (λ t. (tapped_menu b last now (tapped_frames b frames t)).0) made in
    tapped_iff same waited then_last.1 held.1
