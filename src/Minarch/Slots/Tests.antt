-- ===== src/Minarch/Slots/Tests.antt =====
-- A game of two discs whose second one is in the drive, saved in slot 3.
use darkui.Base.{if◌then◌else◌, ◌≡◌, refl, inr, Bool, true, false, Option, none, some}
use darkui.CString.{Bytes, bytes, equal}
use darkui.Launcher.Entries.{digits}
use darkui.Minarch.Config.{Disk}
use darkui.Minarch.Saves.{Answers, Frontend}
use darkui.Minarch.Saves.States.{quietly}
use darkui.Minarch.Slots.{Game, Slot, save_state, load_state}
use darkui.Minarch.Slots.Kept.{load_state-save_state}

abbrev two_discs : Game
two_discs = record {
  states_dir = bytes "/s";
  minui_dir = bytes "/m";
  name = bytes "A.m3u";
  slot_path = bytes "/m/A.m3u.txt";
  base_path = bytes "/r/A/";
  disc_path = some (bytes "/r/A/2.cue");
}

abbrev third : Slot
third = record { slot = 3; save_exists = false; preview_exists = false }

abbrev granted : Answers
granted = record { opens = true; taken = 5; stored = 5; renames = true }

abbrev fast : Frontend
fast = record { fast_forward = true; state_slot = 0 }

abbrev serialize : Bool → Option Bytes
serialize fast_forward = if fast_forward then none else some (bytes "state")

abbrev empty_card : Disk
empty_card = λ p. none

load_state-save_state_example :
    let saved = save_state 5 true serialize granted (bytes "BM") two_discs third fast empty_card in
    let loaded = load_state 5 true two_discs saved.1.0 fast saved.0.0 in
    (saved.0.1 ≡ true)
    × (loaded.0.given ≡ some (quietly (bytes "state")))
    × (loaded.0.disc ≡ none)
    × (saved.1.1.state_slot ≡ 3)
    × (loaded.1.1.state_slot ≡ 3)
unfolding equal digits
load_state-save_state_example =
    load_state-save_state 5 serialize (bytes "state") (bytes "BM") granted two_discs third fast fast
      empty_card refl refl (λ e. absurd cc)
      (record { opened = refl; all_taken = refl; all_stored = refl; renamed = refl })
      (record {
        state_last = refl;
        state_bmp = refl;
        state_txt = refl;
        txt_last = refl;
        txt_bmp = refl;
      })
      (inr (bytes "2.cue", refl, refl))
