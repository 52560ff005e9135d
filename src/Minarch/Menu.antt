-- ===== src/Minarch/Menu.antt =====
-- workspace/all/minarch/menu.c: the menu over a game: the rows of its lists, the values of their
-- items, the slots of states, and the collections that the game is in.
mod Tests
pub mod Rows
pub mod Members
use darkui.Base.{
  ℕ, zero, suc, ◌+◌, ◌-◌, Bool, true, false, not, ◌&&◌, ◌||◌, List, [], ◌∷◌, ◌++◌, Option, none,
  some, ltb, leb, ◌==◌, if◌then◌else◌, min, length,
}
use darkui.CString.{Bytes, bytes, equal}
use darkui.Names.{Platform, collections_path, exact_match}
use darkui.Launcher.Files.{text_lines}
use darkui.Minarch.Config.{Disk, write_file, unlink}
use darkui.Minarch.Saves.{rename, tmp_path}

-- `selected`, `start` and `end` of `Menu_options`
pub record View : Type 0 where
  pub selected : ℕ
  pub start : ℕ
  pub end_ : ℕ

-- before the loop of `Menu_options`
abbrev pub first_rows : ℕ → ℕ → View
first_rows count max_visible_options = record {
  selected = 0;
  start = 0;
  end_ = min count max_visible_options;
}

-- `Menu_selectNext`
unfoldable pub select_next : ℕ → ℕ → View → View
select_next count visible_rows rows =
    let next = record rows { selected = rows.selected + 1 } in
    if leb count next.selected
    then record { selected = 0; start = 0; end_ = visible_rows }
    else if leb next.end_ next.selected
    then record next { start = next.start + 1; end_ = next.end_ + 1 }
    else next

-- `Menu_selectPrev`: below zero it takes the last row.
unfoldable pub select_prev : ℕ → ℕ → View → View
select_prev count max_visible_options rows =
    let prev = record rows { selected = rows.selected - 1 } in
    if rows.selected == 0
    then record { selected = count - 1; start = count - max_visible_options; end_ = count }
    else if ltb prev.selected prev.start
    then record prev { start = prev.start - 1; end_ = prev.end_ - 1 }
    else prev

-- LEFT and RIGHT on an item with so many values
unfoldable pub value_left : ℕ → ℕ → ℕ
value_left count value = if ltb 0 value then value - 1 else count - 1

unfoldable pub value_right : ℕ → ℕ → ℕ
value_right count value = if ltb (value + 1) count then value + 1 else 0

-- `COLLECTIONS_PATH "/%s.txt"`
abbrev pub collection_path : Platform → Bytes → Bytes
collection_path p name = collections_path p ++ (b'/' ∷ (name ++ bytes ".txt"))

pub any_line : Bytes → List Bytes → Bool
unfolding exact_match
any_line rel [] = false
any_line rel (line ∷ lines) = exact_match line rel || any_line rel lines

-- `Menu_inCollection`. An empty line is no game's path.
unfoldable pub in_collection : Bytes → Bytes → Disk → Bool
unfolding text_lines any_line
in_collection path rel disk = elim (disk path) [
  | none ↦ false
  | some text ↦ any_line rel (text_lines text)
]

-- the loop that writes all other lines
pub other_lines : Bytes → List Bytes → Bytes
unfolding exact_match
other_lines rel [] = []
other_lines rel (line ∷ lines) =
    let rest = other_lines rel lines in if exact_match line rel then rest else line ++ b'\n' ∷ rest

-- the text of a file, none where there is no file
abbrev pub text_at : Disk → Bytes → Bytes
text_at disk path = elim (disk path) [ none ↦ [] | some text ↦ text ]

-- `Menu_toggleCollection`, less the row's label. `opens` says that the file to write can be
-- opened; the rename is granted.
unfoldable pub toggle_collection : Bool → Bytes → Bytes → Disk → Disk
unfolding in_collection other_lines text_lines rename write_file
toggle_collection opens path rel disk =
    if in_collection path rel disk
    then elim (disk path) [
      | none ↦ disk
      | some text ↦
          if opens
          then rename (tmp_path path) path
              (write_file (tmp_path path) (other_lines rel (text_lines text)) disk)
          else disk
    ]
    else if opens
    then write_file path (text_at disk path ++ (rel ++ b'\n' ∷ [])) disk
    else disk
