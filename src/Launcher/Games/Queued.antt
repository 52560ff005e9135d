-- ===== src/Launcher/Games/Queued.antt =====
-- What `openRom` leaves: a command for an installed emulator, or the menu as it was.
use darkui.Base.{
  ◌≡◌, ap, sym, ◌∙◌, subst, inl, inr, Bool, true, false, ◌&&◌, Bool-cases, List, [], ◌∷◌, length,
  drop, Option, none, some, if◌then◌else◌, refl, arith,
}
use darkui.CString.{Bytes, bytes}
use darkui.Names.{
  Platform, roms_path, faux_recent_path, suffix_match, exact_match, get_emu_name, get_emu_path,
}
use darkui.Names.Emu.{get_emu_path_exists}
use darkui.Launcher.Files.{Files, m3u_path, has_emu}
use darkui.Launcher.Command.{rom_command}
use darkui.Launcher.Command.Words.{between, shell_words, Kept, rom_command_words}
use darkui.Launcher.Recents.{Recent, save_recents}
use darkui.Launcher.Recents.Bump.{Lists}
use darkui.Launcher.Recents.Distinct.{IsRecent, first_path, add_recent-IsRecent}
use darkui.Launcher.Entries.{get_first_disc}
use darkui.Launcher.Games.{
  Directory, Menu, top_path, get_file, max_path, disc_of, disc_path_path, started_path,
  resume_state, start_rom, open_rom, remember, save_last, queue_next,
}

-- Nothing that the launcher acts on has changed.
pub record Unmoved (menu out : Menu) : Type 0 where
  pub quit : out.quit ≡ menu.quit
  pub queued : out.queued ≡ menu.queued
  pub stack : out.stack ≡ menu.stack
  pub recents : out.recents ≡ menu.recents
  pub last : out.last ≡ menu.last
  pub recent_file : out.recent_file ≡ menu.recent_file

-- the playlist of a game, or the game where there is none
abbrev pub listed_path : Files → Bytes → Bytes
listed_path files path = if files.exists (m3u_path path) then m3u_path path else path

-- the file that is run: of a saved state that is resumed the disc noted for its slot, an absolute
-- path or one below the playlist's folder; else the first disc of a playlist, and else the game
pub run_path : Platform → Files → Bytes → Menu → Bytes
unfolding disc_of disc_path_path get_file get_first_disc suffix_match
run_path p files path menu =
    let playlist = m3u_path path in
    let first = (get_first_disc files playlist path).1 in
    let game = if files.exists playlist && suffix_match (bytes ".m3u") path then first else path in
    let slot = get_file files menu.slot_path 16 in
    let disc = disc_path_path p (get_emu_name (roms_path p) game) playlist slot in
    if menu.should_resume && (files.exists playlist && files.exists disc)
    then disc_of playlist (get_file files disc max_path)
    else game

-- The launcher stops, and the shell will start the emulator of the game's tag, which exists, on
-- the file that is to be run. The game or its playlist is first on the list of recent games, which
-- is saved, has no game twice and 24 at most; LAST_PATH is the recently played games if they are
-- on the screen, else what the caller named, else the file that is run.
pub record Started (p : Platform) (files : Files) (path : Bytes) (last : Option Bytes)
    (menu out : Menu) : Type 0 where
  pub installed :
      files.exists
        (get_emu_path p files.exists (get_emu_name (roms_path p) (started_path files path)))
      ≡ true
  pub quit : out.quit ≡ true
  pub command :
      out.queued
      ≡ some (
          rom_command
            (get_emu_path p files.exists (get_emu_name (roms_path p) (started_path files path)))
            (run_path p files path menu))
  pub words :
      (cmd emu sd : Bytes) × (out.queued ≡ some cmd)
      × (shell_words between [] cmd ≡ some (emu ∷ sd ∷ []))
      × Kept
          (get_emu_path p files.exists (get_emu_name (roms_path p) (started_path files path)))
          emu
      × Kept (run_path p files path menu) sd
  pub recents :
      (rs : List Recent) × Lists out.recents rs
      × IsRecent rs
      × (first_path rs ≡ some (drop (length p.sdcard_path) (listed_path files path)))
  pub recent_file : out.recent_file ≡ some (save_recents out.recents)
  pub last_path :
      out.last
      ≡ some (
          if exact_match (top_path menu) (faux_recent_path p)
          then faux_recent_path p
          else elim last [ none ↦ run_path p files path menu | some named ↦ named ])

-- with the emulator installed, and without it
abbrev pub Opened : Bool → Platform → Files → Bytes → Option Bytes → Menu → Menu → Type 0
Opened true p files path last menu out = Started p files path last menu out
Opened false p files path last menu out = Unmoved menu out

pub resume_state-Unmoved :
    (p : Platform) (files : Files) (path emu_name : Bytes) (menu : Menu)
    → Unmoved menu (resume_state p files path emu_name menu).1
      × ((resume_state p files path emu_name menu).1.recent_alias ≡ menu.recent_alias)
      × ((resume_state p files path emu_name menu).1.should_resume ≡ false)
unfolding resume_state
resume_state-Unmoved p files path emu_name menu = elim (Bool-cases menu.should_resume) [
  | inl t ↦ rw t (
    record {
      quit = refl;
      queued = refl;
      stack = refl;
      recents = refl;
      last = refl;
      recent_file = refl;
    },
    refl,
    refl,
  )
  | inr t ↦ rw t (
    record {
      quit = refl;
      queued = refl;
      stack = refl;
      recents = refl;
      last = refl;
      recent_file = refl;
    },
    refl,
    refl,
  )
]

pub start_rom-none :
    (p : Platform) (files : Files) (emu_path recent_path sd_path : Bytes) (last : Option Bytes)
    (menu : Menu)
    → files.exists emu_path ≡ false
    → start_rom p files emu_path recent_path sd_path last menu ≡ menu
unfolding start_rom
start_rom-none p files emu_path recent_path sd_path last menu h = rw (h, start_rom) refl

pub start_rom-some :
    (p : Platform) (files : Files) (emu_path recent_path sd_path : Bytes) (last : Option Bytes)
    (menu : Menu)
    → files.exists emu_path ≡ true
    → start_rom p files emu_path recent_path sd_path last menu
      ≡ queue_next (rom_command emu_path sd_path) (
          save_last p
            (elim last [ none ↦ sd_path | some path ↦ path ])
            (remember p files recent_path menu.recent_alias menu))
unfolding start_rom
start_rom-some p files emu_path recent_path sd_path last menu h = rw (h, start_rom) refl

resume_state-run_path :
    (p : Platform) (files : Files) (path : Bytes) (menu : Menu)
    → let emu_name = get_emu_name (roms_path p) (started_path files path) in
      (resume_state p files path emu_name menu).0 ≡ run_path p files path menu
unfolding resume_state run_path started_path
resume_state-run_path p files path menu = elim (Bool-cases menu.should_resume) [
  | inl t ↦ rw t refl
  | inr t ↦ rw t refl
]

start_rom-Started :
    (p : Platform) (files : Files) (path sd_path : Bytes) (rs : List Recent) (last : Option Bytes)
    (menu menu' : Menu)
    → let emu_path =
        get_emu_path p files.exists (get_emu_name (roms_path p) (started_path files path)) in
      files.exists emu_path ≡ true
      → sd_path ≡ run_path p files path menu
      → Lists menu'.recents rs
      → IsRecent rs
      → menu'.stack ≡ menu.stack
      → Started p files path last menu
          (start_rom p files emu_path (listed_path files path) sd_path last menu')
unfolding remember save_last queue_next
start_rom-Started p files path sd_path rs last menu menu' h run lists recent stack =
    let emu_path =
      get_emu_path p files.exists (get_emu_name (roms_path p) (started_path files path)) in
    let (emu, sd, read, kept_emu, kept_sd) =
      rom_command_words emu_path (run_path p files path menu) in
    let cmd = rom_command emu_path (run_path p files path menu) in
    let queued : some (rom_command emu_path sd_path) ≡ some cmd =
      ap (λ sd. some (rom_command emu_path sd)) run in
    let saved : Bytes → List Directory → Option Bytes = λ sd stack. some (
      if exact_match (elim stack [ [] ↦ [] | top ∷ below ↦ top.path ]) (faux_recent_path p)
      then faux_recent_path p
      else elim last [ none ↦ sd | some named ↦ named ]) in
    rw (start_rom-some p files emu_path (listed_path files path) sd_path last menu' h) (record {
      installed = h;
      quit = refl;
      command = queued;
      words = (cmd, emu, sd, queued, read, kept_emu, kept_sd);
      recents =
          add_recent-IsRecent p files menu'.recents rs (listed_path files path) menu'.recent_alias
            lists recent;
      recent_file = refl;
      last_path =
          ap (λ sd. saved sd menu'.stack) run ∙ ap (saved (run_path p files path menu)) stack;
    })

-- `openRom` queues a command exactly if a pak for the game's tag is installed: the emulator of
-- that pak is run on the game, on the first disc of a playlist, or on the disc of the state that
-- is resumed; the shell will read the command as these two words; the game or its playlist heads
-- the list of recent games, which is saved; and the launcher quits. Else all of that stays as it
-- was. The list must be valid before.
pub open_rom-Started :
    (p : Platform) (files : Files) (path : Bytes) (last : Option Bytes) (menu : Menu)
    (rs : List Recent)
    → Lists menu.recents rs
    → IsRecent rs
    → let emu_name = get_emu_name (roms_path p) (started_path files path) in
      Opened (has_emu p files emu_name) p files path last menu (open_rom p files path last menu)
unfolding open_rom has_emu
open_rom-Started p files path last menu rs lists recent =
    let emu_name = get_emu_name (roms_path p) (started_path files path) in
    let emu_path = get_emu_path p files.exists emu_name in
    let there = get_emu_path_exists p files.exists emu_name in
    let (same, alias, resumed) = resume_state-Unmoved p files path emu_name menu in
    let menu' = (resume_state p files path emu_name menu).1 in
    let sd_path = (resume_state p files path emu_name menu).0 in
    elim (Bool-cases (has_emu p files emu_name)) [
      | inr h ↦
          let missing : files.exists emu_path ≡ false = ground (arith, there.0, h) in
          let still : Unmoved menu
              (start_rom p files emu_path (listed_path files path) sd_path last menu') =
            rw (start_rom-none p files emu_path (listed_path files path) sd_path last menu' missing)
              same in
          rw h still
      | inl h ↦ rw h (
          start_rom-Started p files path sd_path rs last menu menu' (there.1 (ground (arith, h)))
            (resume_state-run_path p files path menu)
            (subst (λ r. Lists r rs) (sym same.recents) lists) recent same.stack)
    ]

-- Starting a game leaves the open directories alone.
pub start_rom-stack :
    (p : Platform) (files : Files) (emu_path recent_path sd_path : Bytes) (last : Option Bytes)
    (menu : Menu)
    → (start_rom p files emu_path recent_path sd_path last menu).stack ≡ menu.stack
unfolding remember save_last queue_next
start_rom-stack p files emu_path recent_path sd_path last menu =
    elim (Bool-cases (files.exists emu_path)) [
      | inl t ↦ rw (start_rom-some p files emu_path recent_path sd_path last menu t) refl
      | inr t ↦ rw (start_rom-none p files emu_path recent_path sd_path last menu t) refl
    ]
