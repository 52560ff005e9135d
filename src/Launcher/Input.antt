-- ===== src/Launcher/Input.antt =====
-- What the buttons that act do in `Menu_handleInput` of workspace/all/minui/minui.c, after the
-- selection has moved, and the deletion of a collection.
pub mod Depth
mod Tests
use darkui.Base.{
  ℕ, zero, suc, ◌+◌, ◌-◌, Bool, true, false, not, ◌&&◌, List, [], ◌∷◌, Option, none, some, ltb, leb,
  ◌==◌, if◌then◌else◌, length,
}
use darkui.CString.{Bytes, bytes}
use darkui.Names.{Platform, collections_path, prefix_match, suffix_match}
use darkui.Launcher.Files.{Files}
use darkui.Launcher.Entries.{Entry}
use darkui.Launcher.Selection.{View, page}
use darkui.Launcher.Games.{Directory, Menu, ready_resume}
use darkui.Launcher.Stack.{directory_new, close_directory, entry_open}

-- `PAD_justReleased(BTN_RESUME)`, and `PAD_justPressed` of the others
pub record Buttons : Type 0 where
  pub resume : Bool
  pub a : Bool
  pub b : Bool
  pub y : Bool

pub entry_at : ℕ → List Entry → Option Entry
entry_at i [] = none
entry_at zero (entry ∷ entries) = some entry
entry_at (suc i) (entry ∷ entries) = entry_at i entries

-- `top->entries->items[top->selected]`, if the directory has entries
pub selected_entry : List Directory → Option Entry
unfolding entry_at
selected_entry [] = none
selected_entry (top ∷ stack) = entry_at top.view.selected top.entries

-- `if (total>0) readyResume(...)`
pub ready_selected : Platform → Files → Menu → Menu
unfolding selected_entry ready_resume
ready_selected p files menu = elim (selected_entry menu.stack) [
  | none ↦ menu
  | some entry ↦ ready_resume p files entry.path entry.kind menu
]

pub is_collection : Platform → Entry → Bool
unfolding prefix_match suffix_match
is_collection p entry =
    prefix_match (collections_path p) entry.path && suffix_match (bytes ".txt") entry.path

-- the selection in the list of collections after one was deleted; `cnt` are left
pub view_after : ℕ → ℕ → ℕ → View
unfolding page
view_after rows cnt selected =
    let sel = if leb cnt selected then cnt - 1 else selected in
    let end = page rows cnt in
    if leb end sel
    then record { selected = sel; start = sel + 1 - rows; end = sel + 1 }
    else record { selected = sel; start = 0; end = end }

-- the new directory `fresh` in place of the old one. Where it is empty and another is below, the
-- source saves for a restore the `start` and `end` of `fresh`, which nothing has set; here they
-- are 0.
pub replaced : ℕ → Directory → List Directory → Menu → Menu
unfolding view_after close_directory
replaced rows fresh stack menu =
    let put : View → Menu = λ v. record menu { stack = record fresh { view = v } ∷ stack } in
    if not (length fresh.entries == 0)
    then put (view_after rows (length fresh.entries) fresh.view.selected)
    else if ltb 0 (length stack)
    then close_directory (put (record { selected = fresh.view.selected; start = 0; end = 0 }))
    else put (record { selected = 0; start = 0; end = 0 })

-- the directory is read in again on the files that are left
pub rebuilt : Platform → Files → ℕ → Directory → List Directory → Menu → Menu
unfolding directory_new replaced
rebuilt p files rows top stack menu =
    let (fresh, recents) = directory_new p files menu.simple_mode menu.recents top.path top.view in
    replaced rows fresh stack (record menu { recents = recents })

-- `Menu_deleteSelectedCollection`, for a collection under the cursor: `confirmed` is the answer,
-- `unlinked` says whether the file could be deleted, `files` are those that are left then
unfoldable pub delete_selected : Platform → Files → ℕ → Bool → Bool → Menu → Menu
unfolding rebuilt
delete_selected p files rows confirmed unlinked menu = elim menu.stack [
  | [] ↦ menu
  | top ∷ stack ↦ if confirmed && unlinked then rebuilt p files rows top stack menu else menu
]

-- `files` before and `left` after a deletion
unfoldable pub act : Platform → Files → Files → ℕ → Bool → Bool → Buttons → Menu → Menu
unfolding selected_entry entry_open ready_selected is_collection delete_selected close_directory
act p files left rows confirmed unlinked buttons menu =
    let back =
      if buttons.b && ltb 1 (length menu.stack)
      then ready_selected p files (close_directory menu)
      else menu in
    elim (selected_entry menu.stack) [
      | none ↦ back
      | some entry ↦
          if menu.can_resume && buttons.resume
          then entry_open p files rows entry (record menu { should_resume = true })
          else if buttons.a
          then ready_selected p files (entry_open p files rows entry menu)
          else if buttons.y && ltb 1 (length menu.stack) && is_collection p entry
          then delete_selected p left rows confirmed unlinked menu
          else back
    ]
