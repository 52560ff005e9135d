-- ===== src/Sound/Tests.antt =====
-- Runs of the ring of frames with a ring of three places.
use darkui.Base.{ℕ, ◌≡◌, ◌*◌, refl, List, [], ◌∷◌, ◌++◌, some, length, arith, drop, take, replicate}
use darkui.Sound.{Frame, silence, Sound, resample_near, next, samples, audio_callback, feed}
use darkui.Sound.Ring.{IsRing, pending, queue}
use darkui.Sound.Callback.{audio_callback-queue}
use darkui.Sound.Resample.{FedBy, feed-FedBy}

abbrev one_frame : Frame
one_frame = record { left = 3; right = 4 }

-- one frame waits, and one more fits
abbrev small_ring : Sound
small_ring = record {
  sample_rate_in = 3;
  sample_rate_out = 4;
  buffer = silence ∷ silence ∷ one_frame ∷ [];
  frame_count = 3;
  frame_in = 0;
  frame_out = 2;
  frame_filled = 1;
  resample = resample_near;
  diff = 0;
}

small_ring-IsRing : IsRing small_ring
unfolding next
small_ring-IsRing = record {
  block = refl;
  in_lt = omega arith;
  out_lt = omega arith;
  filled_lt = omega arith;
  behind = refl;
}

audio_callback-queue_example :
    (out : List ℕ) × (filler : List ℕ) × ((audio_callback 400 small_ring 2).0 ≡ some out)
    × (out ≡ samples (take 2 (queue small_ring)) ++ filler)
    × (length out ≡ 2 * 2)
    × (pending small_ring ≡ 0 → ◌≡◌ {A = ℕ} 2 400 → filler ≡ replicate (2 * 2) 0)
    × (queue (audio_callback 400 small_ring 2).1 ≡ drop 2 (queue small_ring))
    × IsRing (audio_callback 400 small_ring 2).1
audio_callback-queue_example = audio_callback-queue 400 small_ring 2 small_ring-IsRing

feed-FedBy_example :
    FedBy 2 small_ring (one_frame ∷ silence ∷ []) (feed 5 2 small_ring (one_frame ∷ silence ∷ []))
feed-FedBy_example =
    feed-FedBy 5 2 small_ring (one_frame ∷ silence ∷ []) small_ring-IsRing (omega arith)
