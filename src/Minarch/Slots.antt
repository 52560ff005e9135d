-- ===== src/Minarch/Slots.antt =====
-- workspace/all/minarch/menu.c: the slots of saved states. The picture of a state is the argument
-- `picture`; a number in a file is read by `get_int`.
pub mod Kept
mod Tests
use darkui.Base.{
  ℕ, suc, Bool, true, false, not, ◌&&◌, List, [], ◌∷◌, ◌++◌, Option, none, some, ◌==◌,
  if◌then◌else◌, length, drop, get_or,
}
use darkui.CString.{Bytes, bytes}
use darkui.Names.{exact_match}
use darkui.Launcher.Entries.{digits}
use darkui.Minarch.Config.{Disk, exists, write_file}
use darkui.Minarch.Saves.{Answers, Frontend, Given, state_path, state_write, state_read}
use darkui.Minarch.Saves.Atomic.{at_end}
use darkui.Minarch.Menu.{text_at}

-- the game in `core` and `game`, and the folders and files of the menu for it
pub record Game : Type 0 where
  pub states_dir : Bytes
  pub minui_dir : Bytes
  pub name : Bytes
  pub slot_path : Bytes
  pub base_path : Bytes
  -- the path of the current disc, where the game has several
  pub disc_path : Option Bytes

-- `menu.slot` and what is known of it
pub record Slot : Type 0 where
  pub slot : ℕ
  pub save_exists : Bool
  pub preview_exists : Bool

-- `Menu_initState`: slot 8 is the one of the default state.
unfoldable pub init_state : (Bytes → ℕ) → Game → Disk → Slot → Slot
init_state get_int game disk menu =
    let read : ℕ = elim (disk game.slot_path) [ none ↦ menu.slot | some text ↦ get_int text ] in
    record { slot = if read == 8 then 0 else read; save_exists = false; preview_exists = false }

-- `"%s/%s.%d.bmp"` and `"%s/%s.%d.txt"`
abbrev pub slot_file : Game → ℕ → Bytes → Bytes
slot_file game slot suffix =
    game.minui_dir ++ (b'/' ∷ (game.name ++ (b'.' ∷ (digits (suc slot) slot ++ suffix))))

abbrev pub bmp_path : Game → ℕ → Bytes
bmp_path game slot = slot_file game slot (bytes ".bmp")

abbrev pub txt_path : Game → ℕ → Bytes
txt_path game slot = slot_file game slot (bytes ".txt")

abbrev pub slot_state_path : Game → ℕ → Bytes
slot_state_path game slot = state_path game.states_dir game.name slot

-- `Menu_updateState`, which leaves `state_slot` as it was
unfoldable pub update_state : Game → Disk → Slot → Slot
update_state game disk menu =
    let save_exists = exists disk (slot_state_path game menu.slot) in
    record menu {
      save_exists = save_exists;
      preview_exists = save_exists && exists disk (bmp_path game menu.slot);
    }

-- `putFile` of the disc's name, behind the folder of the playlist
pub put_disc : Game → Slot → Disk → Disk
unfolding write_file
put_disc game menu disk = elim game.disc_path [
  | none ↦ disk
  | some disc ↦ write_file (txt_path game menu.slot) (drop (length game.base_path) disc) disk
]

-- what `Menu_saveState` writes behind the state: the disc's name, the picture and the slot's number
pub saved_card : Bytes → Game → Slot → Disk → Disk
unfolding put_disc write_file
saved_card picture game menu written =
    write_file game.slot_path (digits (suc menu.slot) menu.slot)
      (write_file (bmp_path game menu.slot) picture (put_disc game menu written))

-- `Menu_saveState`: nothing more is written where the state is not. `granted` is what `calloc`
-- answers.
unfoldable pub save_state :
    ℕ
    → Bool
    → (Bool → Option Bytes)
    → Answers
    → Bytes
    → Game
    → Slot
    → Frontend
    → Disk
    → (Disk × Bool) × (Slot × Frontend)
unfolding update_state state_write saved_card
save_state size granted serialize answers picture game menu frontend disk =
    let updated = update_state game disk menu in
    let there = record frontend { state_slot = updated.slot } in
    let made =
      state_write size granted serialize (slot_state_path game updated.slot) answers there disk in
    let written = at_end disk made.0.0 in
    if made.0.1
    then ((saved_card picture game updated written, true), (updated, made.1))
    else ((written, false), (updated, made.1))

-- the disc of a slot: an absolute path, or one behind the folder of the playlist
abbrev pub slot_disc : Game → Bytes → Bytes
slot_disc game slot_disc_name =
    if get_or slot_disc_name 0 0 == b'/' then slot_disc_name else game.base_path ++ slot_disc_name

-- the disc that `Game_changeDisc` is called with, if it is called
pub other_disc : Game → Slot → Disk → Option Bytes
unfolding exact_match
other_disc game menu disk = elim game.disc_path [
  | none ↦ none
  | some disc_path ↦
      let wanted = slot_disc game (text_at disk (txt_path game menu.slot)) in
      if exact_match wanted disc_path then none else some wanted
]

-- `Menu_loadState`: the disc to change to, what the core is given, and the card; `granted`
-- is what `calloc` answers
pub record Loading : Type 0 where
  pub disc : Option Bytes
  pub given : Option Given
  pub card : Disk

unfoldable pub load_state : ℕ → Bool → Game → Slot → Frontend → Disk → Loading × (Slot × Frontend)
unfolding update_state other_disc state_read write_file
load_state size granted game menu frontend disk =
    let updated = update_state game disk menu in
    if updated.save_exists
    then (let left = write_file game.slot_path (digits (suc updated.slot) updated.slot) disk in
        let there = record frontend { state_slot = updated.slot } in
        let read = state_read size granted (slot_state_path game updated.slot) there left in
        (
          record { disc = other_disc game updated disk; given = read.0; card = left },
          (updated, read.1),
        ))
    else (record { disc = none; given = none; card = disk }, (updated, frontend))
