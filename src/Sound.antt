-- ===== src/Sound.antt =====
-- workspace/all/common/snd.c: the ring of frames between `SND_batchSamples`, which the game's
-- thread calls, and `SND_audioCallback`, which the audio device calls. The lock makes the calls
-- happen one after the other, so an interleaving is a sequence of whole calls.
pub mod Ring
pub mod Callback
pub mod Resample
mod Tests
use darkui.Base.{
  ℕ, zero, suc, ◌+◌, ◌-◌, ◌*◌, ◌/◌, min, Bool, true, false, not, ◌&&◌, ◌||◌, List, [], ◌∷◌, ◌++◌,
  Option, none, some, leb, ltb, ◌==◌, if◌then◌else◌, get_or, set, length, replicate, drop,
}

-- Samples are only moved, so a sample is any number.
pub record Frame : Type 0 where
  pub left : ℕ
  pub right : ℕ

abbrev pub silence : Frame
silence = record { left = 0; right = 0 }

pub data Resampler : Type 0 where
  resample_none resample_near : Resampler

-- `struct SND_Context`, and the static `diff` of `SND_resampleNear`. The quotient by the frame
-- rate, a `double`, enters where the buffer is sized.
pub record Sound : Type 0 where
  pub sample_rate_in : ℕ
  pub sample_rate_out : ℕ
  pub buffer : List Frame
  pub frame_count : ℕ
  pub frame_in : ℕ
  pub frame_out : ℕ
  pub frame_filled : ℕ
  pub resample : Resampler
  pub diff : ℕ

-- `x += 1; if (x >= snd.frame_count) x = 0;`
pub next : ℕ → ℕ → ℕ
next frame_count x = if leb frame_count (x + 1) then 0 else x + 1

-- the frames of a device buffer that are copied from the ring, with how many are still wanted
pub record Drained : Type 0 where
  pub taken : List Frame
  pub snd : Sound
  pub len : ℕ

-- `while (snd.frame_out != snd.frame_in && len > 0)`
pub drain : ℕ → Sound → Drained
unfolding next
drain zero snd = record { taken = []; snd = snd; len = 0 }
drain (suc len) snd =
    let frame = get_or snd.buffer snd.frame_out silence in
    let rest = drain len (record snd {
      frame_filled = snd.frame_out;
      frame_out = next snd.frame_count snd.frame_out;
    }) in
    if snd.frame_out == snd.frame_in
    then record { taken = []; snd = snd; len = suc len }
    else record rest { taken = frame ∷ rest.taken }

pub samples : List Frame → List ℕ
samples [] = []
samples (f ∷ fs) = f.left ∷ f.right ∷ samples fs

-- `*out++ = (void*)in > (void*)stream ? *--in : 0` for the `n` samples that are wanted, where `in`
-- points at the sample `at` of those written
pub mirror : ℕ → ℕ → List ℕ → List ℕ
mirror zero at written = []
mirror (suc n) zero written = 0 ∷ mirror n zero written
mirror (suc n) (suc at) written = get_or written at 0 ∷ mirror n at written

-- what stands behind the frames taken: silence for a whole buffer, or the last samples mirrored;
-- `device_samples` is SAMPLES of the platform
pub underrun : ℕ → List ℕ → ℕ → List ℕ
unfolding mirror
underrun device_samples written len =
    if ltb 0 len && len == device_samples
    then replicate (len * 2) 0
    else mirror (len * 2) (length written - 1) written

-- `SND_audioCallback` for a device buffer of `len` frames: the samples in it, and the ring. With
-- no ring the buffer is left alone.
unfoldable pub audio_callback : ℕ → Sound → ℕ → Option (List ℕ) × Sound
unfolding drain samples underrun
audio_callback device_samples snd len =
    if snd.frame_count == 0
    then (none, snd)
    else (let d = drain len snd in
        (some (samples d.taken ++ underrun device_samples (samples d.taken) d.len), d.snd))

-- `SND_resizeBuffer`, where the new count of frames is the quotient that the source computes;
-- `granted` says whether `realloc` finds the memory.
unfoldable pub resize_buffer : Bool → Sound → ℕ → Sound
resize_buffer granted snd frame_count =
    if frame_count == 0
    then record snd { frame_count = 0 }
    else if granted
    then record snd {
      frame_count = frame_count;
      buffer = replicate frame_count silence;
      frame_in = 0;
      frame_out = 0;
      frame_filled = frame_count - 1;
    }
    else snd

-- `snd.buffer[snd.frame_in++] = frame` and the wrap
pub put_frame : Sound → Frame → Sound
unfolding next
put_frame snd frame = record snd {
  buffer = set snd.buffer snd.frame_in frame;
  frame_in = next snd.frame_count snd.frame_in;
}

-- `SND_resampleNear`: how many frames were consumed, 0 or 1
pub resample_nearest : Sound → Frame → ℕ × Sound
unfolding put_frame
resample_nearest snd frame =
    let fed =
      if ltb snd.diff snd.sample_rate_out
      then record (put_frame snd frame) { diff = snd.diff + snd.sample_rate_in }
      else snd in
    if leb snd.sample_rate_out fed.diff
    then (1, record fed { diff = fed.diff - snd.sample_rate_out })
    else (0, fed)

-- the call through `snd.resample`; `SND_resampleNone` consumes every frame
unfoldable pub resample_frame : Resampler → Sound → Frame → ℕ × Sound
unfolding resample_nearest put_frame
resample_frame resample_none snd frame = (1, put_frame snd frame)
resample_frame resample_near snd frame = resample_nearest snd frame

unfoldable pub select_resampler : Sound → Sound
select_resampler snd =
    if snd.sample_rate_in == snd.sample_rate_out
    then record snd { resample = resample_none }
    else record snd { resample = resample_near }

pub record Fed : Type 0 where
  pub snd : Sound
  pub frames : List Frame
  pub consumed : ℕ

-- `while (amount && snd.frame_in != snd.frame_filled)`, with fuel: the frames that are left
pub feed : ℕ → ℕ → Sound → List Frame → Fed
unfolding resample_frame
feed zero amount snd frames = record { snd = snd; frames = frames; consumed = 0 }
feed (suc fuel) amount snd frames =
    let (c, snd') = resample_frame snd.resample snd (get_or frames 0 silence) in
    let rest = feed fuel (amount - c) snd' (drop c frames) in
    if amount == 0 || snd.frame_in == snd.frame_filled
    then record { snd = snd; frames = frames; consumed = 0 }
    else record rest { consumed = c + rest.consumed }

-- `while (tries < 10 && snd.frame_in == snd.frame_filled)` with `tries` tries left. While the
-- lock is released and the thread sleeps, the device takes as many frames as the head of `device`
-- says, if it asks at all.
pub wait_room : ℕ → ℕ → Sound → List ℕ → Sound × List ℕ
unfolding audio_callback
wait_room device_samples zero snd device = (snd, device)
wait_room device_samples (suc tries) snd device =
    let rest =
      wait_room device_samples tries (audio_callback device_samples snd (get_or device 0 0)).1
        (drop 1 device) in
    if snd.frame_in == snd.frame_filled then rest else (snd, device)

abbrev pub batch_size : ℕ
batch_size = 100

-- `while (frame_count > 0)` of `SND_batchSamples`, with fuel: the sum of what was consumed, and
-- the ring; `none` means that the fuel ran out.
pub batch_from : ℕ → ℕ → Sound → List Frame → List ℕ → Option (ℕ × Sound)
unfolding wait_room feed
batch_from device_samples zero snd frames device = none
batch_from device_samples (suc fuel) snd frames device =
    let (ready, device') = wait_room device_samples 10 snd device in
    let fed =
      feed (ready.frame_count + length frames) (min batch_size (length frames)) ready frames in
    let rest = batch_from device_samples fuel fed.snd fed.frames device' in
    if length frames == 0
    then some (0, snd)
    else elim rest [ none ↦ none | some (n, snd') ↦ some (fed.consumed + n, snd') ]

unfoldable pub batch_samples : ℕ → ℕ → Sound → List Frame → List ℕ → Option (ℕ × Sound)
unfolding batch_from
batch_samples device_samples fuel snd frames device =
    if snd.frame_count == 0 then some (0, snd) else batch_from device_samples fuel snd frames device
