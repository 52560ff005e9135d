-- ===== src/Pad/Vibration.antt =====
-- workspace/all/common/pad.c: the strength of the motor, which its thread sets.
use darkui.Base.{
  ℕ, zero, suc, ◌+◌, ◌≡◌, refl, ap, ◌∙◌, sym, ◌⊎◌, inl, inr, true, ◌&&◌, arith, ltb, ◌≤◌, ◌<◌, ◌==◌,
  ==_iff, ==_refl, if◌then◌else◌, Bool-cases,
}

-- `VIB_Context` with `defer` and what the motor was set to last
pub record Vib : Type 0 where
  pub queued_strength : ℕ
  pub strength : ℕ
  pub defer : ℕ
  pub motor : ℕ

abbrev pub defer_frames : ℕ
defer_frames = 3

-- one round of `VIB_thread`
pub vib_round : Vib → Vib
vib_round vib =
    if vib.queued_strength == vib.strength
    then vib
    else if ltb vib.defer defer_frames && vib.queued_strength == 0
    then record vib { defer = vib.defer + 1 }
    else record vib { strength = vib.queued_strength; defer = 0; motor = vib.queued_strength }

-- `VIB_setStrength` and `VIB_getStrength`
pub set_strength : ℕ → Vib → Vib
set_strength strength vib =
    if vib.queued_strength == strength then vib else record vib { queued_strength = strength }

abbrev pub get_strength : Vib → ℕ
get_strength vib = vib.strength

pub vib_rounds : ℕ → Vib → Vib
vib_rounds zero vib = vib
vib_rounds (suc n) vib = vib_rounds n (vib_round vib)

set_strength-queued :
    (strength : ℕ) (vib : Vib)
    → let asked = set_strength strength vib in
      (asked.queued_strength ≡ strength)
      × (asked.strength ≡ vib.strength)
      × (asked.motor ≡ vib.motor)
unfolding set_strength
set_strength-queued strength vib = elim (Bool-cases (vib.queued_strength == strength)) [
  | inl t ↦ rw t ((==_iff vib.queued_strength strength).0 t, refl, refl)
  | inr f ↦ rw f (refl, refl, refl)
]

vib_rounds-equal :
    (n : ℕ) (vib : Vib) → (vib.queued_strength == vib.strength) ≡ true → vib_rounds n vib ≡ vib
unfolding vib_rounds vib_round
vib_rounds-equal zero vib t = refl
vib_rounds-equal (suc n) vib t =
    ap (vib_rounds n) (rw (t, vib_round) refl) ∙ vib_rounds-equal n vib t

abbrev set_to : Vib → Vib
set_to vib = record vib { strength = vib.queued_strength; defer = 0; motor = vib.queued_strength }

vib_round-cases :
    (vib : Vib)
    → ((vib.queued_strength == vib.strength) ≡ true)
      ⊎ (((vib.defer < defer_frames) × (vib_round vib ≡ record vib { defer = vib.defer + 1 }))
          ⊎ (vib_round vib ≡ set_to vib))
unfolding vib_round
vib_round-cases vib = elim (Bool-cases (vib.queued_strength == vib.strength)) [
  | inl t ↦ inl t
  | inr f ↦ elim (Bool-cases (ltb vib.defer defer_frames && vib.queued_strength == 0)) [
    | inl d ↦ inr (inl (ground (arith, d), rw (f, d, vib_round) refl))
    | inr d ↦ inr (inr (rw (f, d, vib_round) refl))
  ]
]

vib_rounds-there :
    (n : ℕ) (vib : Vib)
    → vib.motor ≡ vib.strength
    → (vib.queued_strength == vib.strength) ≡ true
    → ((vib_rounds n vib).strength ≡ vib.queued_strength)
      × ((vib_rounds n vib).motor ≡ vib.queued_strength)
vib_rounds-there n vib m t =
    let same = vib_rounds-equal n vib t in
    let e = (==_iff vib.queued_strength vib.strength).0 t in
    (ap (λ v. v.strength) same ∙ sym e, ap (λ v. v.motor) same ∙ (m ∙ sym e))

vib_rounds-set_to :
    (n : ℕ) (vib : Vib)
    → vib_round vib ≡ set_to vib
    → ((vib_rounds (suc n) vib).strength ≡ vib.queued_strength)
      × ((vib_rounds (suc n) vib).motor ≡ vib.queued_strength)
unfolding vib_rounds
vib_rounds-set_to n vib made =
    let there = vib_rounds-there n (set_to vib) refl (==_refl vib.queued_strength) in
    (
      ap (λ v. (vib_rounds n v).strength) made ∙ there.0,
      ap (λ v. (vib_rounds n v).motor) made ∙ there.1,
    )

vib_rounds-strength :
    (n : ℕ) (vib : Vib)
    → defer_frames ≤ vib.defer + n
    → vib.motor ≡ vib.strength
    → ((vib_rounds (suc n) vib).strength ≡ vib.queued_strength)
      × ((vib_rounds (suc n) vib).motor ≡ vib.queued_strength)
unfolding vib_rounds
vib_rounds-strength zero vib enough m = elim (vib_round-cases vib) [
  | inl t ↦ vib_rounds-there 1 vib m t
  | inr (inl (below, made)) ↦ absurd (omega (arith, enough, below))
  | inr (inr made) ↦ vib_rounds-set_to 0 vib made
]
vib_rounds-strength (suc n) vib enough m = elim (vib_round-cases vib) [
  | inl t ↦ vib_rounds-there (suc (suc n)) vib m t
  | inr (inl (below, made)) ↦
      let next = record vib { defer = vib.defer + 1 } in
      let rest = vib_rounds-strength n next (omega (arith, enough)) m in
      (
        ap (λ v. (vib_rounds (suc n) v).strength) made ∙ rest.0,
        ap (λ v. (vib_rounds (suc n) v).motor) made ∙ rest.1,
      )
  | inr (inr made) ↦ vib_rounds-set_to (suc n) vib made
]

-- Whatever the motor did before, four rounds of its thread after `VIB_setStrength` the strength
-- that was asked for is the one that is told, and the one that the motor was set to last. The
-- motor must have been set to the strength that was told before.
pub vib_rounds-set_strength :
    (strength : ℕ) (vib : Vib)
    → vib.motor ≡ vib.strength
    → let after = vib_rounds 4 (set_strength strength vib) in
      (get_strength after ≡ strength) × (after.motor ≡ strength)
vib_rounds-set_strength strength vib m =
    let (queued, told, moved) = set_strength-queued strength vib in
    let done =
      vib_rounds-strength 3 (set_strength strength vib) (omega arith) (moved ∙ m ∙ sym told) in
    (done.0 ∙ queued, done.1 ∙ queued)
