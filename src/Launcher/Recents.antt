-- ===== src/Launcher/Recents.antt =====
-- The recently played games of workspace/all/minui/minui.c: `Recent`, `addRecent`,
-- `saveRecents` and `hasRecents`.
pub mod Bump
pub mod Order
pub mod Distinct
pub mod Stored
use darkui.Base.{
  ℕ, zero, suc, ◌+◌, ◌-◌, Bool, true, false, ◌&&◌, ◌||◌, List, [], ◌∷◌, ◌++◌, Option, none, some,
  leb, ltb, ◌==◌, if◌then◌else◌, get_or, set, length, drop,
}
use darkui.CString.{Bytes, bytes}
use darkui.Names.{Platform, roms_path, exact_match, prefix_match, get_emu_name}
use darkui.Collections.{Array, array_new, push, pop, unshift}
use darkui.Launcher.Files.{Files, text_lines, split_tab, has_emu, m3u_path, parent_path}

-- `path` stands without the SD card's path in front.
pub record Recent : Type 0 where
  pub path : Bytes
  pub alias : Option Bytes
  pub available : Bool

unfoldable pub recent_new : Platform → Files → Bytes → Option Bytes → Recent
unfolding get_emu_name has_emu
recent_new p files path alias = record {
  path = path;
  alias = alias;
  available = has_emu p files (get_emu_name (roms_path p) (p.sdcard_path ++ path));
}

match_recent : Option Recent → Bytes → Bool
match_recent none str = false
match_recent (some item) str = exact_match item.path str

-- `RecentArray_indexOf` from index `i` on, with `n` rounds left; `none` is -1
pub recent_index_from : ℕ → ℕ → List (Option Recent) → Bytes → Option ℕ
unfolding match_recent
recent_index_from zero i items str = none
recent_index_from (suc n) i items str =
    let later = recent_index_from n (suc i) items str in
    if match_recent (get_or items i none) str then some i else later

abbrev pub max_recents : ℕ
max_recents = 24

-- `while (recents->count >= MAX_RECENTS) Recent_free(Array_pop(recents));`, with fuel
pub drop_oldest : ℕ → Array Recent → Array Recent
drop_oldest zero recents = recents
drop_oldest (suc fuel) recents =
    let rest = drop_oldest fuel (pop recents).1 in
    if leb max_recents recents.count then rest else recents

-- `for (int i = id; i > 0; i--)` swaps the items at `i - 1` and `i`.
pub bump : ℕ → List (Option Recent) → List (Option Recent)
bump zero items = items
bump (suc i) items =
    let tmp = get_or items i none in
    bump i (set (set items i (get_or items (suc i) none)) (suc i) tmp)

-- `addRecent`, before it saves; memory is granted.
unfoldable pub add_recent : Platform → Files → Array Recent → Bytes → Option Bytes → Array Recent
unfolding recent_index_from drop_oldest bump recent_new pop unshift
add_recent p files recents sd_path alias =
    let path = drop (length p.sdcard_path) sd_path in
    elim (recent_index_from recents.count 0 recents.items path) [
      | none ↦
          unshift true (drop_oldest recents.count recents) (some (recent_new p files path alias))
      | some id ↦ record recents { items = bump id recents.items }
    ]

-- what `saveRecents` writes for one game
pub recent_line : Recent → Bytes
recent_line recent =
    recent.path
    ++ (elim recent.alias [ none ↦ b'\n' ∷ [] | some alias ↦ b'\t' ∷ (alias ++ b'\n' ∷ []) ])

-- `saveRecents` from index `i` on, with `n` rounds left: the text of the file
pub saved_from : ℕ → ℕ → List (Option Recent) → Bytes
saved_from zero i items = []
saved_from (suc n) i items =
    (elim (get_or items i none) [ none ↦ [] | some recent ↦ recent_line recent ])
    ++ saved_from n (suc i) items

unfoldable pub save_recents : Array Recent → Bytes
unfolding saved_from recent_line
save_recents recents = saved_from recents.count 0 recents.items

-- What `hasRecents` has found so far; `has` counts the games that can be started.
pub record Found : Type 0 where
  pub recents : Array Recent
  pub parent_paths : List Bytes
  pub has : ℕ

pub found_push : Found → Recent → Found
unfolding push
found_push found recent = record found {
  recents = push true found.recents (some recent);
  has = found.has + (if recent.available then 1 else 0);
}

-- whether a folder on the list is a front of `path`
pub under_parent : List Bytes → Bytes → Bool
under_parent [] path = false
under_parent (parent ∷ parents) path = prefix_match parent path || under_parent parents path

-- one line of recent.txt: a game that exists, and whose folder of discs has none on the list yet
pub found_line : Platform → Files → Found → Bytes → Found
unfolding split_tab m3u_path parent_path under_parent found_push recent_new
found_line p files found line =
    let (path, alias) = split_tab line in
    let sd_path = p.sdcard_path ++ path in
    let parent = parent_path path in
    let recent = recent_new p files path alias in
    if files.exists sd_path && ltb found.recents.count max_recents
    then (if files.exists (m3u_path sd_path)
        then (if under_parent found.parent_paths parent
            then found
            else found_push (record found { parent_paths = found.parent_paths ++ parent ∷ [] })
                recent)
        else found_push found recent)
    else found

pub found_lines : Platform → Files → Found → List Bytes → Found
unfolding found_line
found_lines p files found [] = found
found_lines p files found (line ∷ lines) = found_lines p files (found_line p files found line) lines

abbrev pub change_disc_path : Bytes
change_disc_path = bytes "/tmp/change_disc.txt"

abbrev pub recent_path : Platform → Bytes
recent_path p = p.sdcard_path ++ bytes "/.userdata/shared/.minui/recent.txt"

-- the disc that the player changed to, first; `text` is what /tmp/change_disc.txt holds
found_disc : Platform → Files → Found → Bytes → Found
unfolding parent_path found_push recent_new
found_disc p files found sd_path =
    let disc_path = drop (length p.sdcard_path) sd_path in
    if files.exists sd_path
    then found_push
        (record found { parent_paths = found.parent_paths ++ parent_path disc_path ∷ [] })
        (recent_new p files disc_path none)
    else found

-- `hasRecents` on the list `recents`: what it leaves there. It then saves the list, and says
-- whether `has` is above 0. `getFile` reads at most 511 bytes of a path.
unfoldable pub has_recents : Platform → Files → Array Recent → Found
unfolding found_disc found_lines text_lines
has_recents p files recents =
    let start : Found = record { recents = recents; parent_paths = []; has = 0 } in
    let disc =
      if files.exists change_disc_path
      then elim (files.read change_disc_path) [
        | none ↦ start
        | some text ↦ found_disc p files start text
      ]
      else start in
    elim (files.read (recent_path p)) [
      | none ↦ disc
      | some text ↦ found_lines p files disc (text_lines text)
    ]
