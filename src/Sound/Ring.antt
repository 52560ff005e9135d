-- ===== src/Sound/Ring.antt =====
-- The ring of frames is a queue: what is put in comes out in order, and a frame that waits is
-- never overwritten.
use darkui.Base.{
  ℕ, zero, suc, ◌+◌, ◌-◌, ◌<◌, ◌≡◌, ◌≢◌, refl, ap, ap₂, ◌∙◌, inl, inr, Bool, true, false, List, [],
  ◌∷◌, ◌++◌, leb, ltb, ◌==◌, if◌then◌else◌, take, drop, length, arith, get_or, set, length-set,
  get_or-set, length-replicate, Bool-cases,
}
use darkui.Sound.{Frame, silence, Sound, next, put_frame, Drained, drain, resize_buffer}

-- The indices are inside, and `frame_filled` is the place just before `frame_out`.
pub record IsRing (snd : Sound) : Type 0 where
  pub block : length snd.buffer ≡ snd.frame_count
  pub in_lt : snd.frame_in < snd.frame_count
  pub out_lt : snd.frame_out < snd.frame_count
  pub filled_lt : snd.frame_filled < snd.frame_count
  pub behind : next snd.frame_count snd.frame_filled ≡ snd.frame_out

-- how many frames wait, and how many more may come
abbrev pub pending : Sound → ℕ
pending snd =
    if leb snd.frame_out snd.frame_in
    then snd.frame_in - snd.frame_out
    else snd.frame_in + snd.frame_count - snd.frame_out

module _ (buffer : List Frame) (frame_count : ℕ) where
  -- the `n` frames from index `h` on, going round
  pub window : ℕ → ℕ → List Frame
  window h zero = []
  window h (suc n) = get_or buffer h silence ∷ window (next frame_count h) n

-- The frames that wait, the oldest first.
pub queue : Sound → List Frame
queue snd = window snd.buffer snd.frame_count snd.frame_out (pending snd)

pub length-window : (buffer : List Frame) (count h n : ℕ) → length (window buffer count h n) ≡ n
unfolding window
length-window buffer count h zero = refl
length-window buffer count h (suc n) = ap suc (length-window buffer count (next count h) n)

pub length-queue : (snd : Sound) → length (queue snd) ≡ pending snd
unfolding queue
length-queue snd = length-window snd.buffer snd.frame_count snd.frame_out (pending snd)

-- `diff` is no part of the ring.
pub set_diff-IsRing :
    (snd : Sound) (d : ℕ)
    → IsRing snd
    → IsRing (record snd { diff = d }) × (queue (record snd { diff = d }) ≡ queue snd)
unfolding queue
set_diff-IsRing snd d v = (
  record {
    block = v.block;
    in_lt = v.in_lt;
    out_lt = v.out_lt;
    filled_lt = v.filled_lt;
    behind = v.behind;
  },
  refl,
)

-- the place `n` steps on
abbrev place : ℕ → ℕ → ℕ → ℕ
place count h n = if ltb (h + n) count then h + n else h + n - count

window-set :
    (buffer : List Frame) (count : ℕ) (f : Frame) (n h i : ℕ)
    → length buffer ≡ count
    → h < count
    → n < count
    → i ≡ place count h n
    → window (set buffer i f) count h (suc n) ≡ window buffer count h n ++ f ∷ []
unfolding window
window-set buffer count f zero h i e lt k at = ground (arith, get_or-set buffer i h f silence)
window-set buffer count f (suc n) h i e lt k at =
    ap₂ ◌∷◌ (ground (arith, get_or-set buffer i h f silence)) (
      window-set buffer count f n (next count h) i e (unfold next in ground arith) (omega arith)
        (unfold next in ground arith))

pending-put_frame :
    (snd : Sound) (f : Frame)
    → IsRing snd
    → snd.frame_in ≢ snd.frame_filled
    → pending (put_frame snd f) ≡ pending snd + 1
unfolding put_frame next
pending-put_frame snd f v room = ground (arith, v.behind, v.in_lt, v.out_lt, v.filled_lt)

-- A frame that is put in while there is room stands behind all that wait.
pub put_frame-queue :
    (snd : Sound) (f : Frame)
    → IsRing snd
    → snd.frame_in ≢ snd.frame_filled
    → IsRing (put_frame snd f)
      × (queue (put_frame snd f) ≡ queue snd ++ f ∷ [])
      × (pending (put_frame snd f) ≡ pending snd + 1)
unfolding put_frame queue
put_frame-queue snd f v room =
    let more = pending-put_frame snd f v room in
    (
      record {
        block = length-set snd.buffer snd.frame_in f ∙ v.block;
        in_lt = unfold next in ground (arith, v.in_lt);
        out_lt = v.out_lt;
        filled_lt = v.filled_lt;
        behind = v.behind;
      },
      ap (window (put_frame snd f).buffer snd.frame_count snd.frame_out) {y = suc (pending snd)}
            (omega (arith, more))
          ∙ window-set snd.buffer snd.frame_count f (pending snd) snd.frame_out snd.frame_in v.block
              v.out_lt (ground (arith, v.in_lt, v.out_lt)) (ground (arith, v.in_lt, v.out_lt)),
      more,
    )

-- There is room exactly while fewer than all places but one are taken.
pub room_iff :
    (snd : Sound)
    → IsRing snd
    → (pending snd < snd.frame_count)
      × ((snd.frame_in == snd.frame_filled) ≡ (pending snd + 1 == snd.frame_count))
unfolding next
room_iff snd v = ground (arith, v.behind, v.in_lt, v.out_lt, v.filled_lt)

-- One round of the device's loop takes the oldest frame.
advance : Sound → Sound
advance snd = record snd {
  frame_filled = snd.frame_out;
  frame_out = next snd.frame_count snd.frame_out;
}

queue-nil : (snd : Sound) → IsRing snd → snd.frame_out ≡ snd.frame_in → queue snd ≡ []
unfolding queue window
queue-nil snd v e = ap (window snd.buffer snd.frame_count snd.frame_out) {y = 0} (ground arith)

advance-queue :
    (snd : Sound)
    → IsRing snd
    → snd.frame_out ≢ snd.frame_in
    → IsRing (advance snd)
      × (queue snd ≡ get_or snd.buffer snd.frame_out silence ∷ queue (advance snd))
unfolding queue window advance
advance-queue snd v ne =
    let fewer : pending snd ≡ suc (pending (advance snd)) =
      unfold next in ground (arith, v.in_lt, v.out_lt) in
    (
      record {
        block = v.block;
        in_lt = v.in_lt;
        out_lt = unfold next in ground (arith, v.out_lt);
        filled_lt = v.out_lt;
        behind = refl;
      },
      ap (window snd.buffer snd.frame_count snd.frame_out) fewer,
    )

-- What the device's loop has taken when it stops.
pub record Taken (snd : Sound) (len : ℕ) (d : Drained) : Type 0 where
  pub valid : IsRing d.snd
  pub taken : d.taken ≡ take len (queue snd)
  pub left : queue d.snd ≡ drop len (queue snd)
  pub wanted : d.len + length d.taken ≡ len

pub drain-Taken : (len : ℕ) (snd : Sound) → IsRing snd → Taken snd len (drain len snd)
unfolding drain advance
drain-Taken zero snd v = record { valid = v; taken = refl; left = refl; wanted = omega arith }
drain-Taken (suc len) snd v = elim (Bool-cases (snd.frame_out == snd.frame_in)) [
  | inl t ↦
      let empty = queue-nil snd v (ground arith) in
      rw t (record { valid = v; taken = rw empty; left = rw empty; wanted = omega arith })
  | inr t ↦
      let (ok, head) = advance-queue snd v (ground arith) in
      let rest = drain-Taken len (advance snd) ok in
      rw t (record {
        valid = rest.valid;
        taken = rw head (ap (◌∷◌ (get_or snd.buffer snd.frame_out silence)) rest.taken);
        left = rw head rest.left;
        wanted = omega (arith, rest.wanted);
      })
]

-- For a count of frames above 0 `SND_resizeBuffer` leaves an empty valid ring of the new size
-- where memory is granted, and everything as it was, so a valid ring if it was one, where not.
pub resize_buffer-IsRing :
    (granted : Bool) (snd : Sound) (count : ℕ)
    → 0 < count
    → (granted ≡ false → IsRing snd)
    → IsRing (resize_buffer granted snd count)
      × (granted ≡ true
          → (pending (resize_buffer granted snd count) ≡ 0)
            × ((resize_buffer granted snd count).frame_count ≡ count))
      × (granted ≡ false → resize_buffer granted snd count ≡ snd)
unfolding resize_buffer next
resize_buffer-IsRing true snd count h old =
    let some_frames : (count == 0) ≡ false = ground arith in
    rw some_frames (
      record {
        block = length-replicate count silence;
        in_lt = h;
        out_lt = h;
        filled_lt = omega arith;
        behind = ground arith;
      },
      λ e. (refl, refl),
      λ e. absurd cc,
    )
resize_buffer-IsRing false snd count h old =
    let some_frames : (count == 0) ≡ false = ground arith in
    rw some_frames (old refl, λ e. absurd cc, λ e. refl)
