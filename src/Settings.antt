-- ===== src/Settings.antt =====
-- workspace/all/common/msettings_core.c: the block of settings that the processes share, and its
-- file. What the system calls answer is in the arguments; `abort` is the result `none`.
pub mod Kept
pub mod Shares
mod Tests
use darkui.Base.{
  ℕ, zero, suc, Bool, true, false, List, [], ◌∷◌, ◌++◌, Option, none, some, ltb, leb, ◌==◌,
  if◌then◌else◌, length, take, replicate,
}
use darkui.CString.{Bytes, bytes}
use darkui.Minarch.Config.{Disk, write_file}
use darkui.Minarch.Saves.{Answers, rename, tmp_path}

-- the object `/SharedSettings`, if it exists, and the card
pub record Shared : Type 0 where
  pub block : Option Bytes
  pub card : Disk

-- `SettingsPath`, of the environment's USERDATA_PATH
abbrev pub settings_path : Bytes → Bytes
settings_path userdata_path = userdata_path ++ bytes "/msettings.bin"

-- What `InitSettingsCore` meets: the calls that may fail, the size that `fstat` gives in each round
-- of the loop, and the most bytes that `read` gives, none where it fails.
pub record Calls : Type 0 where
  pub opens : Bool
  pub truncates : Bool
  pub maps : Bool
  pub sizes : ℕ → Option ℕ
  pub opens_file : Bool
  pub read : Option ℕ

-- `st.st_size>=settings_size` where `fstat` succeeds
abbrev pub has_size : ℕ → Option ℕ → Bool
has_size size none = false
has_size size (some st_size) = leb size st_size

-- the loop that waits for the host, with the rounds that are left
pub ready : (ℕ → Option ℕ) → ℕ → ℕ → ℕ → Bool
ready sizes size i zero = false
ready sizes size i (suc left) =
    let rest = ready sizes size (suc i) left in if has_size size (sizes i) then true else rest

abbrev pub ready_rounds : ℕ
ready_rounds = 200

-- what the host puts into the block: the file, or the defaults where it is missing or short
pub populate : Bytes → ℕ → Calls → Option Bytes → Bytes
populate default_settings size calls file =
    let defaults = take size default_settings in
    if calls.opens_file
    then elim file [
      | none ↦ defaults
      | some text ↦ elim calls.read [
        | none ↦ defaults
        | some n ↦
            let got = take n (take size text) in if ltb (length got) size then defaults else got
      ]
    ]
    else defaults

-- `InitSettingsCore`: `is_host`, and what is shared then
pub init_settings_core : Bytes → ℕ → Option Bytes → Calls → Shared → Option Bool × Shared
unfolding ready populate
init_settings_core default_settings size userdata_path calls shared = elim userdata_path [
  | none ↦ (none, shared)
  | some userdata ↦
      if calls.opens
      then elim shared.block [
        | some block ↦
            if ready calls.sizes size 0 ready_rounds
            then if calls.maps then (some false, shared) else (none, shared)
            else (none, shared)
        | none ↦
            if calls.truncates
            then if calls.maps
              then (let settings =
                    populate default_settings size calls (shared.card (settings_path userdata)) in
                  (some true, record shared { block = some settings }))
              else (none, shared)
            else (none, shared)
      ]
      else (none, shared)
]

-- `QuitSettingsCore`
pub quit_settings_core : Bool → Shared → Shared
quit_settings_core is_host shared = if is_host then record shared { block = none } else shared

-- `SaveSettingsCore`: the states of the card. Its calls of the system answer as those of a save.
pub save_settings_core : ℕ → Bytes → Bytes → Answers → Disk → List Disk
unfolding rename write_file
save_settings_core size path settings a disk =
    if a.opens
    then (let opened = write_file (tmp_path path) [] disk in
        let written = write_file (tmp_path path) (take a.stored settings) opened in
        disk
        ∷ opened
        ∷ written
        ∷ (if a.taken == size
            then if a.renames then rename (tmp_path path) path written else written
            else written)
        ∷ [])
    else disk ∷ []
