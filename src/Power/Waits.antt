-- ===== src/Power/Waits.antt =====
-- `PWR_waitForWake`: a console that sleeps is switched off only on battery and not at once.
use darkui.Base.{
  ℕ, ◌+◌, ◌≤◌, ◌<◌, ◌≡◌, ◌∙◌, inl, inr, refl, Bool, true, false, not, ◌&&◌, ◌||◌, List, [], ◌∷◌,
  arith, leb, if◌then◌else◌, All, Bool-cases,
}
use darkui.Pad.{add_u32}
use darkui.Power.{Round, sub_u32, sleep_poweroff_delay, wait_for_wake}
use darkui.Power.Sleeps.{sub_u32_le}

wait_more :
    (due charging wakes : Bool) (offs : ℕ) (later : ℕ → ℕ × ℕ) (sleep_ticks : ℕ)
    → charging ≡ true
    → ((n : ℕ) → (later n).1 ≡ n)
    → (if wakes
        then (sleep_ticks, offs)
        else later (if due && not charging then offs + 1 else offs)).1
      ≡ offs
wait_more due charging wakes offs later sleep_ticks c h =
    let kept : (if due && not charging then offs + 1 else offs) ≡ offs = ground (arith, c) in
    elim (Bool-cases wakes) [
      | inl t ↦ rw t refl
      | inr f ↦ rw f (h (if due && not charging then offs + 1 else offs) ∙ kept)
    ]

-- Asleep, the console is not switched off while it is charged, however long it sleeps.
pub wait_for_wake-charging :
    (can_poweroff : Bool) (sleep_ticks offs : ℕ) (rounds : List Round)
    → All (λ round. round.charging ≡ true) rounds
    → (wait_for_wake can_poweroff sleep_ticks offs rounds).1 ≡ offs
unfolding wait_for_wake
wait_for_wake-charging can_poweroff sleep_ticks offs [] h = refl
wait_for_wake-charging can_poweroff sleep_ticks offs (round ∷ rounds) h =
    let due = can_poweroff && leb sleep_poweroff_delay (sub_u32 round.now sleep_ticks) in
    let next = if due && round.charging then add_u32 sleep_ticks 60000 else sleep_ticks in
    wait_more due round.charging (round.wakes || round.requested) offs
      (λ n. wait_for_wake can_poweroff next n rounds) sleep_ticks h.0
      (λ n. wait_for_wake-charging can_poweroff next n rounds h.1)

-- A console on battery that is still asleep after thirty minutes is switched off in that round.
pub wait_for_wake-due :
    (sleep_ticks offs : ℕ) (round : Round)
    → round.charging ≡ false
    → (round.wakes || round.requested) ≡ false
    → sleep_ticks + sleep_poweroff_delay ≤ round.now
    → round.now < 4294967296
    → wait_for_wake true sleep_ticks offs (round ∷ []) ≡ (sleep_ticks, offs + 1)
unfolding wait_for_wake
wait_for_wake-due sleep_ticks offs round c w le lt =
    let since = sub_u32_le round.now sleep_ticks (omega arith) lt in
    let due : leb sleep_poweroff_delay (sub_u32 round.now sleep_ticks) ≡ true =
      rw since (ground arith) in
    rw (c, w, due) refl
