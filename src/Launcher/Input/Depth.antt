-- ===== src/Launcher/Input/Depth.antt =====
-- The stack of directories is never emptied.
use darkui.Base.{
  ℕ, ◌<◌, ◌≡◌, inl, inr, Bool, true, false, not, ◌&&◌, Bool-cases, Option-cases, List, [], ◌∷◌,
  Option, some, ltb, ◌==◌, if◌then◌else◌, refl, ap, ◌∙◌, arith, length,
}
use darkui.CString.{Bytes}
use darkui.Names.{Platform, roms_path, get_emu_name, get_emu_path}
use darkui.Launcher.Files.{Files, m3u_path}
use darkui.Launcher.Entries.{EntryType, entry_dir, entry_pak, entry_rom, get_first_disc}
use darkui.Launcher.Selection.{View}
use darkui.Launcher.Games.{
  Directory, Menu, ready_resume, open_rom, open_pak, resume_state, top_path, started_path, cue_path,
  folder_m3u_path,
}
use darkui.Launcher.Games.Queued.{resume_state-Unmoved, start_rom-stack}
use darkui.Launcher.Stack.{
  push_directory, open_directory, open_kind, entry_open, close_directory, closed, directory_new,
  last_of,
}
use darkui.Launcher.Input.{
  Buttons, selected_entry, is_collection, ready_selected, view_after, replaced, rebuilt,
  delete_selected, act,
}

abbrev pub IsOpen : Menu → Type 0
IsOpen menu = 0 < length menu.stack

ready_resume-stack :
    (p : Platform) (files : Files) (path : Bytes) (kind : EntryType) (menu : Menu)
    → (ready_resume p files path kind menu).stack ≡ menu.stack
unfolding ready_resume
ready_resume-stack p files path kind menu = ground arith

open_rom-stack :
    (p : Platform) (files : Files) (path : Bytes) (last : Option Bytes) (menu : Menu)
    → (open_rom p files path last menu).stack ≡ menu.stack
unfolding open_rom
open_rom-stack p files path last menu =
    let emu_name = get_emu_name (roms_path p) (started_path files path) in
    let out = resume_state p files path emu_name menu in
    start_rom-stack p files (get_emu_path p files.exists emu_name)
      (if files.exists (m3u_path path) then m3u_path path else path) out.0 last out.1
    ∙ (resume_state-Unmoved p files path emu_name menu).0.stack

open_pak-stack :
    (p : Platform) (files : Files) (path : Bytes) (menu : Menu)
    → (open_pak p files path menu).stack ≡ menu.stack
unfolding open_pak
open_pak-stack p files path menu = ground arith

if-IsOpen : (b : Bool) (x y : Menu) → IsOpen x → IsOpen y → IsOpen (if b then x else y)
if-IsOpen true x y h k = h
if-IsOpen false x y h k = k

same-IsOpen : (x y : Menu) → y.stack ≡ x.stack → IsOpen x → IsOpen y
same-IsOpen x y e h = rw e h

push_directory-IsOpen :
    (p : Platform) (files : Files) (rows : ℕ) (path : Bytes) (menu : Menu)
    → IsOpen (push_directory p files rows path menu)
unfolding push_directory
push_directory-IsOpen p files rows path menu = omega arith

open_directory-IsOpen :
    (p : Platform) (files : Files) (rows : ℕ) (auto_launch : Bool) (path : Bytes) (menu : Menu)
    → IsOpen menu
    → IsOpen (open_directory p files rows auto_launch path menu)
unfolding open_directory
open_directory-IsOpen p files rows auto_launch path menu h =
    let disc = (get_first_disc files (folder_m3u_path path) []).1 in
    let cue = open_rom p files (cue_path path) (some path) menu in
    let m3u = open_rom p files disc (some path) menu in
    if-IsOpen (files.exists (cue_path path) && auto_launch) cue _
      (same-IsOpen menu cue (open_rom-stack p files (cue_path path) (some path) menu) h)
      (if-IsOpen _ m3u (push_directory p files rows path menu)
        (same-IsOpen menu m3u (open_rom-stack p files disc (some path) menu) h)
        (push_directory-IsOpen p files rows path menu))

open_kind-IsOpen :
    (p : Platform) (files : Files) (rows : ℕ) (kind : EntryType) (path : Bytes) (menu : Menu)
    → IsOpen menu
    → IsOpen (open_kind p files rows kind path menu)
unfolding open_kind
open_kind-IsOpen p files rows entry_rom path menu h =
    same-IsOpen menu (open_rom p files path (last_of p (top_path menu) path) menu)
      (open_rom-stack p files path (last_of p (top_path menu) path) menu) h
open_kind-IsOpen p files rows entry_pak path menu h =
    same-IsOpen menu (open_pak p files path menu) (open_pak-stack p files path menu) h
open_kind-IsOpen p files rows entry_dir path menu h =
    open_directory-IsOpen p files rows true path menu h

-- Closing needs a directory below.
close_directory-IsOpen : (menu : Menu) → 1 < length menu.stack → IsOpen (close_directory menu)
unfolding close_directory closed
close_directory-IsOpen menu h = go menu.stack refl
  where
    go : (stack : List Directory) → menu.stack ≡ stack → IsOpen (close_directory menu)
    go [] e = absurd (omega (arith, ap length e))
    go (top ∷ []) e = absurd (omega (arith, ap length e))
    go (top ∷ below ∷ stack) e = rw (e, close_directory) (omega arith)

ready_selected-IsOpen :
    (p : Platform) (files : Files) (menu : Menu)
    → IsOpen menu
    → IsOpen (ready_selected p files menu)
unfolding ready_selected
ready_selected-IsOpen p files menu h = elim (Option-cases (selected_entry menu.stack)) [
  | inl n ↦ rw (n, ready_selected) h
  | inr (e, n) ↦
      rw (n, ready_selected)
        (same-IsOpen menu (ready_resume p files e.path e.kind menu)
          (ready_resume-stack p files e.path e.kind menu) h)
]

replaced-IsOpen :
    (rows : ℕ) (fresh : Directory) (stack : List Directory) (menu : Menu)
    → IsOpen (replaced rows fresh stack menu)
unfolding replaced
replaced-IsOpen rows fresh stack menu =
    let put : View → Menu = λ v. record menu { stack = record fresh { view = v } ∷ stack } in
    let empty : View = record { selected = 0; start = 0; end = 0 } in
    let bare : View = record { selected = fresh.view.selected; start = 0; end = 0 } in
    let closes = close_directory-IsOpen (put bare) in
    elim (Bool-cases (ltb 0 (length stack))) [
      | inl t ↦ rw t (
          if-IsOpen (not (length fresh.entries == 0))
            (put (view_after rows (length fresh.entries) fresh.view.selected))
            (close_directory (put bare)) (omega arith) (closes (ground arith)))
      | inr t ↦ rw t (
          if-IsOpen (not (length fresh.entries == 0))
            (put (view_after rows (length fresh.entries) fresh.view.selected)) (put empty)
            (omega arith) (omega arith))
    ]

rebuilt-IsOpen :
    (p : Platform) (files : Files) (rows : ℕ) (top : Directory) (stack : List Directory)
    (menu : Menu)
    → IsOpen (rebuilt p files rows top stack menu)
unfolding rebuilt
rebuilt-IsOpen p files rows top stack menu =
    let made = directory_new p files menu.simple_mode menu.recents top.path top.view in
    replaced-IsOpen rows made.0 stack (record menu { recents = made.1 })

delete_selected-IsOpen :
    (p : Platform) (files : Files) (rows : ℕ) (confirmed unlinked : Bool) (menu : Menu)
    → IsOpen menu
    → IsOpen (delete_selected p files rows confirmed unlinked menu)
unfolding delete_selected
delete_selected-IsOpen p files rows confirmed unlinked menu h = go menu.stack refl
  where
    go :
        (stack : List Directory)
        → menu.stack ≡ stack
        → IsOpen (delete_selected p files rows confirmed unlinked menu)
    go [] e = absurd (omega (arith, ap length e))
    go (top ∷ stack) e =
        rw (e, delete_selected)
          (if-IsOpen (confirmed && unlinked) (rebuilt p files rows top stack menu) menu
            (rebuilt-IsOpen p files rows top stack menu) h)

back-IsOpen :
    (p : Platform) (files : Files) (b : Bool) (menu : Menu)
    → IsOpen menu
    → IsOpen (
        if b && ltb 1 (length menu.stack)
        then ready_selected p files (close_directory menu)
        else menu)
back-IsOpen p files b menu h = elim (Bool-cases (b && ltb 1 (length menu.stack))) [
  | inl t ↦ rw t (
      ready_selected-IsOpen p files (close_directory menu)
        (close_directory-IsOpen menu (ground arith)))
  | inr t ↦ rw t h
]

-- Whatever button is pressed, on whatever files: from a stack with an open directory the menu
-- always comes to a stack with an open directory, so that `top` stays one of them.
pub act-IsOpen :
    (p : Platform) (files left : Files) (rows : ℕ) (confirmed unlinked : Bool) (buttons : Buttons)
    (menu : Menu)
    → IsOpen menu
    → IsOpen (act p files left rows confirmed unlinked buttons menu)
unfolding act entry_open
act-IsOpen p files left rows confirmed unlinked buttons menu h =
    let back = back-IsOpen p files buttons.b menu h in
    let back_menu : Menu =
      if buttons.b && ltb 1 (length menu.stack)
      then ready_selected p files (close_directory menu)
      else menu in
    elim (Option-cases (selected_entry menu.stack)) [
      | inl n ↦ rw (n, act) back
      | inr (e, n) ↦
          let named = record menu { recent_alias = some e.name } in
          let opened = open_kind-IsOpen p files rows e.kind e.path named h in
          let resumed =
            open_kind-IsOpen p files rows e.kind e.path (record named { should_resume = true }) h in
          let third_menu : Menu =
            if buttons.y && ltb 1 (length menu.stack) && is_collection p e
            then delete_selected p left rows confirmed unlinked menu
            else back_menu in
          let second_menu : Menu =
            if buttons.a
            then ready_selected p files (entry_open p files rows e menu)
            else third_menu in
          rw (n, act)
            (if-IsOpen (menu.can_resume && buttons.resume)
              (entry_open p files rows e (record menu { should_resume = true })) second_menu resumed
              (if-IsOpen buttons.a (ready_selected p files (entry_open p files rows e menu))
                third_menu (ready_selected-IsOpen p files (entry_open p files rows e menu) opened)
                (if-IsOpen (buttons.y && ltb 1 (length menu.stack) && is_collection p e)
                  (delete_selected p left rows confirmed unlinked menu) back_menu
                  (delete_selected-IsOpen p left rows confirmed unlinked menu h) back)))
    ]
