-- ===== src/Sound/Resample.antt =====
-- The resampler: every call keeps the ring a ring, and the frames written and consumed stay in
-- the ratio of the two rates.
use darkui.Base.{
  ℕ, zero, suc, ◌+◌, ◌-◌, ◌*◌, ◌≤◌, ◌≡◌, ◌≢◌, ◌⊎◌, refl, sym, ap, ap₂, ◌∙◌, subst, inl, inr, true,
  false, List, [], ◌∷◌, ◌++◌, leb, ltb, ◌==◌, ◌||◌, if◌then◌else◌, take, drop, length, length-drop,
  arith, append_assoc, append-nil, get_or, Bool-cases,
}
use darkui.Sound.{
  Frame, silence, Sound, Resampler, resample_none, resample_near, put_frame, resample_nearest,
  resample_frame, Fed, feed,
}
use darkui.Sound.Ring.{IsRing, queue, pending, put_frame-queue, set_diff-IsRing, room_iff}

-- What one call of the resampler does: it writes the frame or not, and consumes it or not.
pub record Resampled (r : Resampler) (snd : Sound) (frame : Frame) (out : ℕ × Sound) : Type 0 where
  pub valid : IsRing out.1
  pub written : ℕ
  pub grows : pending out.1 ≡ pending snd + written
  pub content :
      ((written ≡ 0) × (queue out.1 ≡ queue snd))
      ⊎ ((written ≡ 1) × (queue out.1 ≡ queue snd ++ frame ∷ []))
  pub consumed : out.0 ≤ 1
  pub moves : 1 ≤ out.0 + written
  pub rate :
      r ≡ resample_near
      → out.1.diff + snd.sample_rate_out * out.0 ≡ snd.diff + snd.sample_rate_in * written
  pub passes : r ≡ resample_none → (out.0 ≡ 1) × (written ≡ 1)

-- What is known of the ring after the first test, with `written` frames put in.
record Written (snd : Sound) (frame : Frame) (fed : Sound) : Type 0 where
  valid : IsRing fed
  written : ℕ
  grows : pending fed ≡ pending snd + written
  content :
      ((written ≡ 0) × (queue fed ≡ queue snd))
      ⊎ ((written ≡ 1) × (queue fed ≡ queue snd ++ frame ∷ []))
  moves : (1 ≤ written) ⊎ (snd.sample_rate_out ≤ fed.diff)
  rate : fed.diff ≡ snd.diff + snd.sample_rate_in * written

consume : Sound → Sound → ℕ × Sound
consume snd fed =
    if leb snd.sample_rate_out fed.diff
    then (1, record fed { diff = fed.diff - snd.sample_rate_out })
    else (0, fed)

consume-Resampled :
    (snd : Sound) (frame : Frame) (fed : Sound)
    → Written snd frame fed
    → Resampled resample_near snd frame (consume snd fed)
unfolding consume
consume-Resampled snd frame fed w = elim (Bool-cases (leb snd.sample_rate_out fed.diff)) [
  | inl t ↦
      let (ok, same) = set_diff-IsRing fed (fed.diff - snd.sample_rate_out) w.valid in
      rw t (record {
        valid = ok;
        written = w.written;
        grows = w.grows;
        content = rw same w.content;
        consumed = omega arith;
        moves = omega arith;
        rate = λ _. ground (arith, w.rate);
        passes = λ e. cc;
      })
  | inr t ↦ rw t (record {
    valid = w.valid;
    written = w.written;
    grows = w.grows;
    content = w.content;
    consumed = omega arith;
    moves = ground (arith, w.moves);
    rate = λ _. omega (arith, w.rate);
    passes = λ e. cc;
  })
]

resample_nearest-Resampled :
    (snd : Sound) (frame : Frame)
    → IsRing snd
    → snd.frame_in ≢ snd.frame_filled
    → Resampled resample_near snd frame (resample_nearest snd frame)
unfolding resample_nearest consume
resample_nearest-Resampled snd frame v room = elim (Bool-cases (ltb snd.diff snd.sample_rate_out)) [
  | inl t ↦
      let (ok, more, grows) = put_frame-queue snd frame v room in
      let fed = record (put_frame snd frame) { diff = snd.diff + snd.sample_rate_in } in
      let (ok', same) = set_diff-IsRing (put_frame snd frame) (snd.diff + snd.sample_rate_in) ok in
      rw t (
        consume-Resampled snd frame fed (record {
          valid = ok';
          written = 1;
          grows = grows;
          content = inr (refl, same ∙ more);
          moves = inl (omega arith);
          rate = omega arith;
        }))
  | inr t ↦ rw t (
      consume-Resampled snd frame snd (record {
        valid = v;
        written = 0;
        grows = omega arith;
        content = inl (refl, refl);
        moves = inr (ground arith);
        rate = omega arith;
      }))
]

-- One call of either resampler on a ring with room writes the frame once or not at all, consumes
-- it once or not at all, and does one of the two; what it writes stands behind all that waits.
-- The pass-through does both; for the other, `diff` accounts for the frames at the two rates.
pub resample_frame-Resampled :
    (r : Resampler) (snd : Sound) (frame : Frame)
    → IsRing snd
    → snd.frame_in ≢ snd.frame_filled
    → Resampled r snd frame (resample_frame r snd frame)
unfolding resample_frame
resample_frame-Resampled resample_near snd frame v room =
    resample_nearest-Resampled snd frame v room
resample_frame-Resampled resample_none snd frame v room =
    let (ok, more, grows) = put_frame-queue snd frame v room in
    record {
      valid = ok;
      written = 1;
      grows = grows;
      content = inr (refl, more);
      consumed = omega arith;
      moves = omega arith;
      rate = λ e. cc;
      passes = λ _. (refl, refl);
    }

-- A call leaves the sizes, the rates and the choice of the resampler alone.
pub record SameSetup (a b : Sound) : Type 0 where
  pub count : b.frame_count ≡ a.frame_count
  pub rate_in : b.sample_rate_in ≡ a.sample_rate_in
  pub rate_out : b.sample_rate_out ≡ a.sample_rate_out
  pub chosen : b.resample ≡ a.resample

resample_frame-SameSetup :
    (r : Resampler) (snd : Sound) (frame : Frame) → SameSetup snd (resample_frame r snd frame).1
unfolding resample_frame resample_nearest put_frame
resample_frame-SameSetup resample_none snd frame = ground arith
resample_frame-SameSetup resample_near snd frame = ground arith

-- What the inner loop of `SND_batchSamples` has done when it stops.
pub record FedBy (amount : ℕ) (snd : Sound) (frames : List Frame) (out : Fed) : Type 0 where
  pub valid : IsRing out.snd
  pub setup : SameSetup snd out.snd
  pub bounded : out.consumed ≤ amount
  pub rest : out.frames ≡ drop out.consumed frames
  pub stops : (out.consumed ≡ amount) ⊎ (out.snd.frame_in ≡ out.snd.frame_filled)
  pub written : ℕ
  pub grows : pending out.snd ≡ pending snd + written
  pub rate :
      snd.resample ≡ resample_near
      → out.snd.diff + snd.sample_rate_out * out.consumed ≡ snd.diff + snd.sample_rate_in * written
  pub passes :
      snd.resample ≡ resample_none
      → (written ≡ out.consumed)
        × (out.consumed ≤ length frames → queue out.snd ≡ queue snd ++ take out.consumed frames)

feed-stop :
    (fuel amount : ℕ) (snd : Sound) (frames : List Frame)
    → IsRing snd
    → (amount ≡ 0) ⊎ (snd.frame_in ≡ snd.frame_filled)
    → FedBy amount snd frames (feed (suc fuel) amount snd frames)
unfolding feed
feed-stop fuel amount snd frames v why =
    let stop : (amount == 0 || snd.frame_in == snd.frame_filled) ≡ true = ground arith in
    rw stop (record {
      valid = v;
      setup = record { count = refl; rate_in = refl; rate_out = refl; chosen = refl };
      bounded = omega arith;
      rest = refl;
      stops = ground arith;
      written = 0;
      grows = omega arith;
      rate = λ _. grind arith;
      passes = λ _. (refl, λ _. sym (append-nil (queue snd)));
    })

drop-nil : (a : ℕ) → drop {A = Frame} a [] ≡ []
drop-nil zero = refl
drop-nil (suc a) = refl

drop-drop : (a b : ℕ) (frames : List Frame) → drop a (drop b frames) ≡ drop (b + a) frames
drop-drop a zero frames = ap (λ k. drop k frames) (omega arith)
drop-drop a (suc b) [] = drop-nil a ∙ sym (drop-nil (suc b + a))
drop-drop a (suc b) (x ∷ frames) =
    drop-drop a b frames ∙ ap (λ k. drop k (x ∷ frames)) {x = suc (b + a)} (omega arith)

taken_one :
    (old new : List Frame) (n : ℕ) (frames : List Frame)
    → 1 + n ≤ length frames
    → new ≡ (old ++ get_or frames 0 silence ∷ []) ++ take n (drop 1 frames)
    → new ≡ old ++ take (1 + n) frames
taken_one old new n [] h e = absurd (omega arith)
taken_one old new n (x ∷ frames) h e =
    e
    ∙ append_assoc old (x ∷ []) (take n frames)
    ∙ ap (λ k. old ++ take k (x ∷ frames)) {x = suc n} (omega arith)

passed_on :
    (amount c : ℕ) (snd snd' : Sound) (frames : List Frame) (rest : Fed)
    → (r : Resampled snd.resample snd (get_or frames 0 silence) (c, snd'))
    → (f : FedBy (amount - c) snd' (drop c frames) rest) → (c ≡ 1) × (r.written ≡ 1)
    → (f.written ≡ rest.consumed)
      × (rest.consumed ≤ length (drop c frames)
          → queue rest.snd ≡ queue snd' ++ take rest.consumed (drop c frames))
    → c + rest.consumed ≤ length frames
    → queue rest.snd ≡ queue snd ++ take (c + rest.consumed) frames
passed_on amount c snd snd' frames rest r f (one, once) (same, more) enough =
    let put : queue snd' ≡ queue snd ++ get_or frames 0 silence ∷ [] = elim r.content [
      | inl (e, x) ↦ absurd (omega arith)
      | inr (e, x) ↦ x
    ] in
    let fits : rest.consumed ≤ length (drop c frames) = omega (arith, length-drop c frames) in
    taken_one (queue snd) (queue rest.snd) rest.consumed frames (omega arith)
      (more fits ∙ ap₂ (λ q k. q ++ take rest.consumed (drop k frames)) put one)
    ∙ ap (λ k. queue snd ++ take (k + rest.consumed) frames) (sym one)

feed-cons :
    (amount c : ℕ) (snd snd' : Sound) (frames : List Frame) (rest : Fed)
    → 1 ≤ amount
    → Resampled snd.resample snd (get_or frames 0 silence) (c, snd')
    → SameSetup snd snd'
    → FedBy (amount - c) snd' (drop c frames) rest
    → FedBy amount snd frames (record rest { consumed = c + rest.consumed })
feed-cons amount c snd snd' frames rest h r s f = record {
  valid = f.valid;
  setup = record {
    count = f.setup.count ∙ s.count;
    rate_in = f.setup.rate_in ∙ s.rate_in;
    rate_out = f.setup.rate_out ∙ s.rate_out;
    chosen = f.setup.chosen ∙ s.chosen;
  };
  bounded = omega (arith, f.bounded, r.consumed);
  rest = f.rest ∙ drop-drop rest.consumed c frames;
  stops = ground (arith, f.stops, r.consumed);
  written = r.written + f.written;
  grows = omega (arith, r.grows, f.grows);
  rate = λ near. omega (
    arith,
    r.rate near,
    f.rate (s.chosen ∙ near),
    ap (λ k. k * rest.consumed) s.rate_out,
    ap (λ k. k * f.written) s.rate_in,
  );
  passes = λ pass. (
    omega (arith, r.passes pass, f.passes (s.chosen ∙ pass)),
    λ enough.
        passed_on amount c snd snd' frames rest r f (r.passes pass) (f.passes (s.chosen ∙ pass))
          enough,
  );
}

feed-step :
    (fuel amount : ℕ) (snd : Sound) (frames : List Frame)
    → (out : ℕ × Sound) → out ≡ resample_frame snd.resample snd (get_or frames 0 silence)
    → (amount == 0 || snd.frame_in == snd.frame_filled) ≡ false
    → record (feed fuel (amount - out.0) out.1 (drop out.0 frames)) {
      consumed = out.0 + (feed fuel (amount - out.0) out.1 (drop out.0 frames)).consumed;
    }
      ≡ feed (suc fuel) amount snd frames
unfolding feed
feed-step fuel amount snd frames out e go = rw (go, e) refl

-- On a valid ring the inner loop of `SND_batchSamples` stops: a step for each frame asked for and
-- each free place is enough. It stops at the amount or at a full ring, keeps the ring valid, and
-- with equal rates the frames it consumed are those that it queued, in order.
pub feed-FedBy :
    (fuel amount : ℕ) (snd : Sound) (frames : List Frame)
    → IsRing snd
    → snd.frame_count + amount ≤ fuel + pending snd
    → FedBy amount snd frames (feed fuel amount snd frames)
feed-FedBy zero amount snd frames v enough = absurd (omega (arith, (room_iff snd v).0))
feed-FedBy (suc fuel) amount snd frames v enough =
    elim (Bool-cases (amount == 0 || snd.frame_in == snd.frame_filled)) [
      | inl t ↦ feed-stop fuel amount snd frames v (ground arith)
      | inr t ↦
          let out = resample_frame snd.resample snd (get_or frames 0 silence) in
          let r =
            resample_frame-Resampled snd.resample snd (get_or frames 0 silence) v (ground arith) in
          let s = resample_frame-SameSetup snd.resample snd (get_or frames 0 silence) in
          let asked : 1 ≤ amount = ground arith in
          let rest =
            feed-FedBy fuel (amount - out.0) out.1 (drop out.0 frames) r.valid
              (omega (arith, asked, r.grows, r.moves, r.consumed, s.count)) in
          subst (FedBy amount snd frames) (feed-step fuel amount snd frames out refl t) (
            feed-cons amount out.0 snd out.1 frames
              (feed fuel (amount - out.0) out.1 (drop out.0 frames)) asked r s rest)
    ]
