-- ===== src/Minarch/Saves/Tests.antt =====
-- Runs of a save and of a state, with every call granted and with a file that is cut short.
use darkui.Base.{
  ℕ, ◌-◌, if◌then◌else◌, ◌≡◌, refl, ap, length, Bool, true, false, [], ◌∷◌, Option, none, some, All,
}
use darkui.CString.{Bytes, bytes, equal}
use darkui.Minarch.Config.{Disk, write_file}
use darkui.Minarch.Saves.{Answers, Frontend, state_write, state_autosave, state_resume}
use darkui.Minarch.Saves.Atomic.{at_end}
use darkui.Minarch.Saves.States.{
  IsOldOrGiven, quietly, state_write-IsOldOrNew, state_resume-state_autosave,
}

abbrev granted : ℕ → Answers
granted n = record { opens = true; taken = n; stored = n; renames = true }

abbrev refused : Answers
refused = record { opens = true; taken = 2; stored = 2; renames = true }

abbrev card : Disk
card = λ p. if equal p (bytes "/s/Tetris.sav") then some (bytes "old") else none

abbrev playing : Frontend
playing = record { fast_forward = true; state_slot = 2 }

abbrev serialize : Bool → Option Bytes
serialize fast_forward = if fast_forward then none else some (bytes "state")

serialize-length : (state : Bytes) → serialize false ≡ some state → length state ≡ 5
serialize-length state e = let same : state ≡ bytes "state" = cc in ap length same

state_write-IsOldOrNew_example :
    let made = state_write 5 true serialize (bytes "/t/Tetris.st2") (granted 5) playing card in
    All (IsOldOrGiven serialize (bytes "/t/Tetris.st2") card) made.0.0
    × (at_end card made.0.0 (bytes "/t/Tetris.st2")
        ≡ (if made.0.1 then serialize false else card (bytes "/t/Tetris.st2")))
    × (made.1 ≡ playing)
state_write-IsOldOrNew_example =
    state_write-IsOldOrNew 5 true serialize (bytes "/t/Tetris.st2") (granted 5) playing card
      serialize-length refl

abbrev one_digit : Bytes → ℕ
one_digit [] = 0
one_digit (c ∷ s) = c - b'0'

state_resume-state_autosave_example :
    let (disks, after) =
      state_autosave 5 true serialize (bytes "/t") (bytes "Tetris") (granted 5) playing card in
    let resumed =
      state_resume one_digit 5 true
        (bytes "/tmp/resume_slot.txt")
        (bytes "/t")
        (bytes "Tetris")
        playing
        (write_file (bytes "/tmp/resume_slot.txt") (bytes "9") (at_end card disks)) in
    (resumed.0.0 ≡ some (quietly (bytes "state")))
    × (resumed.0.1 (bytes "/tmp/resume_slot.txt") ≡ none)
    × (after ≡ playing)
    × (resumed.1 ≡ playing)
unfolding equal
state_resume-state_autosave_example =
    state_resume-state_autosave one_digit 5 serialize (bytes "state") (bytes "9")
      (bytes "/tmp/resume_slot.txt") (bytes "/t") (bytes "Tetris") (granted 5) playing playing card
      refl refl (λ e. absurd cc)
      (record { opened = refl; all_taken = refl; all_stored = refl; renamed = refl }) refl refl
