-- ===== src/Minarch/Input/Threads.antt =====
-- Fast-forward and the power button leave the threaded core and come back to it.
use darkui.Base.{ℕ, ◌≤◌, ◌≡◌, Bool, false, ◌&&◌, ◌||◌, arith}
use darkui.Pad.{Pad}
use darkui.Minarch.Config.Frontend.{Variables, FrontendOption, sync_variable, as_int}
use darkui.Minarch.Input.{fast_forward_thread, power_thread, settle}

-- The core is in its own thread, or is to be again.
abbrev pub wants_thread : Variables → Bool
wants_thread v = v.thread_video || v.was_threaded

-- Between two frames no toggle is left, and the core is not both in its thread and to come back.
pub record IsSettled (v : Variables) : Type 0 where
  pub done : v.toggle_thread ≡ false
  pub apart : (v.thread_video && v.was_threaded) ≡ false

-- Whatever a frame does with fast-forward and the power button, after the toggle that it asked
-- for the player's choice about the thread is the one from before.
pub settle-wants_thread :
    (pad : Pad) (fast_forward enable : Bool) (v : Variables)
    → IsSettled v
    → let after = settle (fast_forward_thread fast_forward enable (power_thread pad v)) in
      IsSettled after × (wants_thread after ≡ wants_thread v)
unfolding settle fast_forward_thread power_thread
settle-wants_thread pad fast_forward enable v h = ground (arith, h.done, h.apart)

-- The option "Prioritize Audio" takes effect with the toggle: the choice is then the value of the
-- option, off or on, during fast-forward too.
pub settle-sync_variable :
    (value : ℕ) (v : Variables)
    → IsSettled v
    → value ≤ 1
    → let after = settle (sync_variable FrontendOption.thread value v) in
      IsSettled after × (as_int (wants_thread after) ≡ value)
unfolding settle
settle-sync_variable value v h le = ground (arith, h.done, h.apart)
