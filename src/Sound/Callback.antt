-- ===== src/Sound/Callback.antt =====
-- `SND_audioCallback` fills the device's buffer to the last sample, with the oldest frames first.
use darkui.Base.{
  ℕ, zero, suc, ◌-◌, ◌*◌, ◌≡◌, refl, ap, ◌∙◌, false, List, [], ◌∷◌, ◌++◌, some, ◌==◌, take, drop,
  length, length-append, arith, replicate, length-replicate, length-take,
}
use darkui.Sound.{Frame, Sound, Drained, drain, samples, mirror, underrun, audio_callback}
use darkui.Sound.Ring.{IsRing, queue, pending, length-queue, Taken, drain-Taken}

length-samples : (fs : List Frame) → length (samples fs) ≡ 2 * length fs
unfolding samples
length-samples [] = omega arith
length-samples (f ∷ fs) = omega (arith, length-samples fs)

length-mirror : (n at : ℕ) (written : List ℕ) → length (mirror n at written) ≡ n
unfolding mirror
length-mirror zero at written = refl
length-mirror (suc n) zero written = ap suc (length-mirror n zero written)
length-mirror (suc n) (suc at) written = ap suc (length-mirror n at written)

length-underrun :
    (device_samples : ℕ) (written : List ℕ) (len : ℕ)
    → length (underrun device_samples written len) ≡ 2 * len
unfolding underrun
length-underrun device_samples written len = ground (
  arith,
  length-replicate {A = ℕ} (len * 2) 0,
  length-mirror (len * 2) (length written - 1) written,
)

nothing_taken :
    (snd : Sound) (len : ℕ) (d : Drained) → Taken snd len d → pending snd ≡ 0 → d.taken ≡ []
nothing_taken snd len d t none_wait =
    nil_of_length d.taken
      (ap length t.taken ∙ omega (arith, length-take len (queue snd), length-queue snd))
  where
    nil_of_length : (l : List Frame) → length l ≡ 0 → l ≡ []
    nil_of_length [] e = refl
    nil_of_length (f ∷ fs) e = absurd (omega arith)

-- An empty ring gives a whole buffer of the platform's size silence.
silent :
    (device_samples : ℕ) (snd : Sound) (len : ℕ) (d : Drained)
    → Taken snd len d
    → pending snd ≡ 0
    → len ≡ device_samples
    → underrun device_samples (samples d.taken) d.len ≡ replicate (2 * len) 0
unfolding underrun samples
silent device_samples snd len d t none_wait whole =
    let empty = nothing_taken snd len d t none_wait in
    let all : d.len ≡ len = omega (arith, t.wanted, ap length empty) in
    rw (empty, all)
      (ground
        (arith, whole, ap (λ n. replicate {A = ℕ} n 0) {x = len * 2} {y = 2 * len} (omega arith)))

-- For a valid ring the device gets a sample for every place of its buffer: the oldest frames that
-- wait, as many as there are or as it asks for, and behind them only what an underrun puts there.
-- Those frames leave the queue, the others stay in order, and the ring stays valid.
pub audio_callback-queue :
    (device_samples : ℕ) (snd : Sound) (len : ℕ)
    → IsRing snd
    → (out : List ℕ) × (filler : List ℕ) × ((audio_callback device_samples snd len).0 ≡ some out)
      × (out ≡ samples (take len (queue snd)) ++ filler)
      × (length out ≡ 2 * len)
      × (pending snd ≡ 0 → len ≡ device_samples → filler ≡ replicate (2 * len) 0)
      × (queue (audio_callback device_samples snd len).1 ≡ drop len (queue snd))
      × IsRing (audio_callback device_samples snd len).1
unfolding audio_callback
audio_callback-queue device_samples snd len v =
    let d = drain len snd in
    let t = drain-Taken len snd v in
    let filler = underrun device_samples (samples d.taken) d.len in
    let there : (snd.frame_count == 0) ≡ false = ground (arith, v.in_lt) in
    rw there (
      samples d.taken ++ filler,
      filler,
      refl,
      ap (λ l. samples l ++ filler) t.taken,
      omega (
        arith,
        length-append (samples d.taken) filler,
        length-samples d.taken,
        length-underrun device_samples (samples d.taken) d.len,
        t.wanted,
      ),
      λ none_wait whole. silent device_samples snd len d t none_wait whole,
      t.left,
      t.valid,
    )
