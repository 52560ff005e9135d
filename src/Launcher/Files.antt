-- ===== src/Launcher/Files.antt =====
-- What the launcher reads of the file system, and how it reads the lines of a text file.
pub mod Lines
use darkui.Base.{
  ℕ, ◌+◌, ◌-◌, Bool, true, false, ◌&&◌, ◌||◌, List, [], ◌∷◌, ◌++◌, Option, none, some, ◌==◌,
  if◌then◌else◌, drop, take,
}
use darkui.CString.{Bytes, bytes, strchr, strrchr, before_last}
use darkui.Names.{Platform, normalize_newline, trim_trailing_newlines, extra_pak, system_pak}

-- The state of the file system at one moment: `access(path, F_OK)`, the text of a file that can
-- be opened, and the names in a folder that can be opened, each with whether it is a folder.
pub record Files : Type 0 where
  pub exists : Bytes → Bool
  pub read : Bytes → Option Bytes
  pub list : Bytes → Option (List (Bytes × Bool))

-- at the end of the file: a line without a newline, if there is one
last_line : Bytes → List Bytes
last_line [] = []
last_line (c ∷ line) = (c ∷ line) ∷ []

-- `char line[256]; while (fgets(line, 256, file) != NULL)`: the lines that the loop sees, with
-- their newlines. A line of more than 255 bytes comes in parts. `room` bytes fit still.
pub fgets_lines : ℕ → Bytes → Bytes → List Bytes
unfolding last_line
fgets_lines room line [] = last_line line
fgets_lines room line (c ∷ s) =
    let full = c == b'\n' || room == 1 in
    let rest =
      fgets_lines (if full then 255 else room - 1) (if full then [] else line ++ c ∷ []) s in
    if full then (line ++ c ∷ []) ∷ rest else rest

keep_line : Bytes → List Bytes → List Bytes
keep_line [] lines = lines
keep_line (c ∷ line) lines = (c ∷ line) ∷ lines

-- `normalizeNewline(line); trimTrailingNewlines(line); if (strlen(line) == 0) continue;`
pub clean_lines : List Bytes → List Bytes
unfolding keep_line
clean_lines [] = []
clean_lines (line ∷ lines) =
    keep_line (trim_trailing_newlines (normalize_newline line)) (clean_lines lines)

unfoldable pub text_lines : Bytes → List Bytes
unfolding fgets_lines clean_lines normalize_newline trim_trailing_newlines
text_lines text = clean_lines (fgets_lines 255 [] text)

-- `tmp = strchr(line, '\t')`: the text before the first tab, and the text behind it
unfoldable pub split_tab : Bytes → Bytes × Option Bytes
unfolding strchr
split_tab line = elim (strchr line b'\t') [
  | none ↦ (line, none)
  | some i ↦ (take i line, some (drop (i + 1) line))
]

-- `hasEmu`
unfoldable pub has_emu : Platform → Files → Bytes → Bool
has_emu p files emu_name =
    files.exists (system_pak p emu_name) || files.exists (extra_pak p emu_name)

-- The text from the last slash on. Every path that the launcher handles has one.
unfoldable pub last_component : Bytes → Bytes
unfolding strrchr
last_component path = elim (strrchr path b'/') [ none ↦ [] | some i ↦ drop i path ]

-- `hasM3u`: the playlist beside a game, named for its folder
unfoldable pub m3u_path : Bytes → Bytes
unfolding before_last last_component
m3u_path rom_path =
    let folder = before_last rom_path b'/' in folder ++ (last_component folder ++ bytes ".m3u")

-- `strrchr(path, '/') + 1`, cut off: the path up to its last slash
unfoldable pub parent_path : Bytes → Bytes
unfolding strrchr
parent_path path = elim (strrchr path b'/') [ none ↦ [] | some i ↦ take (i + 1) path ]
