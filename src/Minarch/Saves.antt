-- ===== src/Minarch/Saves.antt =====
-- workspace/all/minarch/minarch.c: the files that a game saves. A function that writes gives every
-- state of the card that its calls pass through, the last of which is the result; what the calls
-- of the C library and of the core answer is in its arguments.
mod Tests
pub mod Atomic
pub mod States
use darkui.Base.{
  ℕ, zero, suc, ◌+◌, ◌-◌, Bool, true, false, not, ◌&&◌, List, [], ◌∷◌, ◌++◌, Option, none, some,
  ◌==◌, if◌then◌else◌, length, take, drop, replicate,
}
use darkui.CString.{Bytes, bytes}
use darkui.Launcher.Entries.{digits}
use darkui.Minarch.Config.{Disk, write_file, unlink}

-- `rename`
unfoldable pub rename : Bytes → Bytes → Disk → Disk
unfolding write_file unlink
rename from to disk = elim (disk from) [
  | none ↦ disk
  | some text ↦ write_file to text (unlink from disk)
]

-- What a write meets: whether `fopen` and `rename` succeed, how many bytes `fwrite` takes, and
-- how many of them are in the file when it is closed.
pub record Answers : Type 0 where
  pub opens : Bool
  pub taken : ℕ
  pub stored : ℕ
  pub renames : Bool

abbrev pub tmp_path : Bytes → Bytes
tmp_path filename = filename ++ bytes ".tmp"

-- the last call: `rename`, or `remove` if the data were not written
pub finish : Bool → Bool → Bytes → Disk → Disk
unfolding rename unlink
finish write_ok renames filename disk =
    if write_ok
    then if renames then rename (tmp_path filename) filename disk else disk
    else unlink (tmp_path filename) disk

-- `SRAM_write` and `RTC_write`, which differ in the memory of the core that they save: `memory` is
-- its bytes, `size` of them, or NULL.
unfoldable pub memory_write : ℕ → Option Bytes → Bytes → Answers → Disk → List Disk
unfolding finish write_file
memory_write size memory filename a disk =
    if size == 0
    then disk ∷ []
    else if a.opens
    then (let opened = write_file (tmp_path filename) [] disk in
        elim memory [
          | none ↦ disk ∷ opened ∷ finish false a.renames filename opened ∷ []
          | some saved ↦
              let closed = write_file (tmp_path filename) (take a.stored saved) opened in
              disk ∷ opened ∷ closed ∷ finish (size == a.taken) a.renames filename closed ∷ []
        ])
    else disk ∷ []

-- `SRAM_read` and `RTC_read`: what the memory of the core holds then. `fread` fills its beginning.
unfoldable pub memory_read : ℕ → Bytes → Bytes → Disk → Bytes
memory_read size filename memory disk = if size == 0 then memory else elim (disk filename) [
  | none ↦ memory
  | some text ↦ let read = take size text in read ++ drop (length read) memory
]

-- `fast_forward` and `state_slot`
pub record Frontend : Type 0 where
  pub fast_forward : Bool
  pub state_slot : ℕ

-- `SRAM_getPath`, `RTC_getPath` and `State_getPath`, of the folder and the game's name
abbrev pub sram_path : Bytes → Bytes → Bytes
sram_path saves_dir name = saves_dir ++ (b'/' ∷ (name ++ bytes ".sav"))

abbrev pub rtc_path : Bytes → Bytes → Bytes
rtc_path saves_dir name = saves_dir ++ (b'/' ∷ (name ++ bytes ".rtc"))

abbrev pub state_path : Bytes → Bytes → ℕ → Bytes
state_path states_dir name slot =
    states_dir ++ (b'/' ∷ (name ++ (bytes ".st" ++ digits (suc slot) slot)))

-- `State_write` from the state that the core gives with fast-forward off, or its refusal: the
-- states of the card and the result. `granted` is what `calloc` answers; the name of the temporary
-- file is not made where it refuses, so that nothing is removed.
unfoldable pub state_write :
    ℕ
    → Bool
    → (Bool → Option Bytes)
    → Bytes
    → Answers
    → Frontend
    → Disk
    → (List Disk × Bool) × Frontend
unfolding rename write_file unlink
state_write size granted serialize filename a frontend disk =
    let was_ff = frontend.fast_forward in
    let quiet = record frontend { fast_forward = false } in
    let after = record quiet { fast_forward = was_ff } in
    if size == 0
    then ((disk ∷ [], false), frontend)
    else if not granted
    then ((disk ∷ [], false), after)
    else if a.opens
    then (let opened = write_file (tmp_path filename) [] disk in
        elim (serialize quiet.fast_forward) [
          | none ↦ ((disk ∷ opened ∷ unlink (tmp_path filename) opened ∷ [], false), after)
          | some state ↦
              let closed = write_file (tmp_path filename) (take a.stored state) opened in
              let success = size == a.taken && a.renames in
              let renamed =
                if success then rename (tmp_path filename) filename closed else closed in
              (
                (
                  disk
                      ∷ opened
                      ∷ closed
                      ∷ renamed
                      ∷ (if success then renamed else unlink (tmp_path filename) renamed)
                      ∷ [],
                  success,
                ),
                after,
              )
        ])
    else ((disk ∷ unlink (tmp_path filename) disk ∷ [], false), after)

-- What `core.unserialize` is given, and `fast_forward` at the time of the call.
pub record Given : Type 0 where
  pub state : Bytes
  pub fast_forward : Bool

-- `State_read`: what the core is given, if it is called, and the variables afterwards. The buffer
-- is zeros before it is read into, and no number of bytes that `fread` returns is greater than
-- `state_size`. `granted` is what `calloc` answers. What `core.unserialize` answers changes only
-- what is logged.
unfoldable pub state_read : ℕ → Bool → Bytes → Frontend → Disk → Option Given × Frontend
state_read size granted filename frontend disk =
    let was_ff = frontend.fast_forward in
    let quiet = record frontend { fast_forward = false } in
    let after = record quiet { fast_forward = was_ff } in
    if size == 0
    then (none, frontend)
    else if not granted
    then (none, after)
    else elim (disk filename) [
      | none ↦ (none, after)
      | some text ↦
          let read = take size text in
          let state = read ++ replicate (size - length read) 0 in
          (some (record { state = state; fast_forward = quiet.fast_forward }), after)
    ]

abbrev pub auto_resume_slot : ℕ
auto_resume_slot = 9

-- `State_autosave`
unfoldable pub state_autosave :
    ℕ
    → Bool
    → (Bool → Option Bytes)
    → Bytes
    → Bytes
    → Answers
    → Frontend
    → Disk
    → List Disk × Frontend
unfolding state_write
state_autosave size granted serialize states_dir name a frontend disk =
    let last_state_slot = frontend.state_slot in
    let there = record frontend { state_slot = auto_resume_slot } in
    let made =
      state_write size granted serialize (state_path states_dir name there.state_slot) a there
        disk in
    (made.0.0, record made.1 { state_slot = last_state_slot })

-- `State_resume`: `get_int` reads a number from a text. The result is what the core is given, the
-- card, and the variables.
unfoldable pub state_resume :
    (Bytes → ℕ)
    → ℕ
    → Bool
    → Bytes
    → Bytes
    → Bytes
    → Frontend
    → Disk
    → (Option Given × Disk) × Frontend
unfolding state_read unlink
state_resume get_int size granted resume_slot_path states_dir name frontend disk =
    elim (disk resume_slot_path) [
      | none ↦ ((none, disk), frontend)
      | some text ↦
          let last_state_slot = frontend.state_slot in
          let there = record frontend { state_slot = get_int text } in
          let left = unlink resume_slot_path disk in
          let made =
            state_read size granted (state_path states_dir name there.state_slot) there left in
          ((made.0, left), record made.1 { state_slot = last_state_slot })
    ]
