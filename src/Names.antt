-- ===== src/Names.antt =====
-- The text functions of workspace/all/common/utils.c: matching, names for display, emulator
-- tags, and the clean-up of lines read from a file.
pub mod Match
pub mod Display
pub mod Emu
pub mod Lines
mod Tests
use darkui.Base.{
  ℕ, zero, suc, ◌+◌, ◌-◌, Bool, true, false, ◌&&◌, ◌||◌, List, [], ◌∷◌, ◌++◌, Option, none, some,
  ltb, leb, ◌==◌, if◌then◌else◌, length, take, drop, get_or,
}
use darkui.CString.{
  Bytes, bytes, isdigit, isblank, isspace, strncasecmp, is_eq, equal, strchr, strrchr, after_last,
  before_last, before_first,
}

-- What the platform's headers and make files define: `SDCARD_PATH` and `PLATFORM`.
pub record Platform : Type 0 where
  pub sdcard_path : Bytes
  pub platform : Bytes

abbrev pub roms_path : Platform → Bytes
roms_path p = p.sdcard_path ++ bytes "/Roms"

abbrev pub collections_path : Platform → Bytes
collections_path p = p.sdcard_path ++ bytes "/Collections"

abbrev pub faux_recent_path : Platform → Bytes
faux_recent_path p = p.sdcard_path ++ bytes "/Recently Played"

abbrev pub paks_path : Platform → Bytes
paks_path p = p.sdcard_path ++ (bytes "/.system/" ++ (p.platform ++ bytes "/paks"))

unfoldable pub prefix_match : Bytes → Bytes → Bool
unfolding strncasecmp
prefix_match pre str = is_eq (strncasecmp (length pre) pre str)

-- `offset` is an `int`, negative where the suffix is longer than the text.
unfoldable pub suffix_match : Bytes → Bytes → Bool
unfolding strncasecmp
suffix_match suf str =
    leb (length suf) (length str)
    && is_eq (strncasecmp (length suf) suf (drop (length str - length suf) str))

unfoldable pub exact_match : Bytes → Bytes → Bool
unfolding equal
exact_match str1 str2 = length str1 == length str2 && equal str1 str2

unfoldable pub hide : Bytes → Bool
unfolding suffix_match exact_match
hide file_name =
    get_or file_name 0 0 == b'.'
    || suffix_match (bytes ".disabled") file_name
    || exact_match (bytes "map.txt") file_name

-- `while ((tmp = strrchr(out_name, '.')) != NULL)`, with fuel
pub strip_extensions : ℕ → Bytes → Bytes
strip_extensions zero s = s
strip_extensions (suc n) s = elim (strrchr s b'.') [
  | none ↦ s
  | some i ↦
      let shorter = strip_extensions n (take i s) in
      let len = length s - i in if ltb 2 len && leb len 5 then shorter else s
]

-- `(tmp = strrchr(out_name, '(')) != NULL || (tmp = strrchr(out_name, '[')) != NULL`
last_bracket : Bytes → Option ℕ
last_bracket s = elim (strrchr s b'(') [ some i ↦ some i | none ↦ strrchr s b'[' ]

-- `while (...) { if (tmp == out_name) break; tmp[0] = '\0'; }`, with fuel
pub strip_brackets : ℕ → Bytes → Bytes
strip_brackets zero s = s
strip_brackets (suc n) s = elim (last_bracket s) [
  | none ↦ s
  | some i ↦ let shorter = strip_brackets n (take i s) in if i == 0 then s else shorter
]

-- `while (tmp > out_name && isspace(*tmp)) tmp--; tmp[1] = '\0';` for `tmp` at index `i`
pub trim_spaces : ℕ → Bytes → Bytes
trim_spaces zero s = take 1 s
trim_spaces (suc i) s =
    if isspace (get_or s (suc i) 0) then trim_spaces i s else take (suc (suc i)) s

-- `if (suffixMatch("/" PLATFORM, work_name)) ...` and the file name of what is left
pub display_base : Bytes → Bytes → Bytes
display_base platform in_name =
    let work_name =
      if suffix_match (b'/' ∷ platform) in_name then before_last in_name b'/' else in_name in
    elim (strrchr work_name b'/') [ some i ↦ drop (suc i) work_name | none ↦ in_name ]

-- `if (out_name[0] == '\0') strcpy(out_name, work_name)`
or_restore : Bytes → Bytes → Bytes
or_restore [] work_name = work_name
or_restore (c ∷ out_name) work_name = c ∷ out_name

unfoldable pub get_display_name : Bytes → Bytes → Bytes
unfolding display_base strip_extensions strip_brackets last_bracket or_restore trim_spaces
    suffix_match before_last strrchr
get_display_name platform in_name =
    let base = display_base platform in_name in
    let work_name = strip_extensions (length base) base in
    let out_name = or_restore (strip_brackets (length work_name) work_name) work_name in
    trim_spaces (length out_name - 1) out_name

-- the folder below Roms that a path stands in; other names are left as they are
unfoldable pub roms_folder : Bytes → Bytes → Bytes
unfolding prefix_match before_first
roms_folder roms in_name =
    if prefix_match roms in_name
    then before_first (drop (length roms + 1) in_name) b'/'
    else in_name

-- the text in the last parentheses; a missing closing one keeps the rest of the text
unfoldable pub paren_tag : Bytes → Bytes
unfolding strrchr before_first
paren_tag name = elim (strrchr name b'(') [
  | some i ↦ before_first (drop (suc i) name) b')'
  | none ↦ name
]

unfoldable pub get_emu_name : Bytes → Bytes → Bytes
unfolding roms_folder paren_tag
get_emu_name roms in_name = paren_tag (roms_folder roms in_name)

-- `sprintf(pak_path, "%s/Emus/%s/%s.pak/launch.sh", SDCARD_PATH, PLATFORM, emu_name)`
abbrev pub extra_pak : Platform → Bytes → Bytes
extra_pak p emu_name =
    p.sdcard_path
    ++ (bytes "/Emus/" ++ (p.platform ++ (b'/' ∷ (emu_name ++ bytes ".pak/launch.sh"))))

-- `sprintf(pak_path, "%s/Emus/%s.pak/launch.sh", PAKS_PATH, emu_name)`
abbrev pub system_pak : Platform → Bytes → Bytes
system_pak p emu_name = paks_path p ++ (bytes "/Emus/" ++ (emu_name ++ bytes ".pak/launch.sh"))

unfoldable pub get_emu_path : Platform → (Bytes → Bool) → Bytes → Bytes
get_emu_path p exists emu_name =
    if exists (extra_pak p emu_name) then extra_pak p emu_name else system_pak p emu_name

unfoldable pub normalize_newline : Bytes → Bytes
normalize_newline line =
    let len = length line in
    if ltb 1 len && get_or line (len - 1) 0 == b'\n' && get_or line (len - 2) 0 == b'\r'
    then take (len - 2) line ++ b'\n' ∷ []
    else line

-- `while (len > 0 && line[len - 1] == '\n')`, for a line of length `len`
trim_newlines : ℕ → Bytes → Bytes
trim_newlines zero line = line
trim_newlines (suc len) line =
    if get_or line len 0 == b'\n' then trim_newlines len (take len line) else line

unfoldable pub trim_trailing_newlines : Bytes → Bytes
unfolding trim_newlines
trim_trailing_newlines line = trim_newlines (length line) line

-- `while (f(**str)) *str += 1`
unfoldable pub skip_while : (ℕ → Bool) → Bytes → Bytes
skip_while f [] = []
skip_while f (c ∷ s) = if f c then skip_while f s else c ∷ s

-- behind the digits: a closing parenthesis, or bail out and restore
meta_tail : Bytes → Bytes → Bytes
meta_tail safe [] = safe
meta_tail safe (c ∷ s) = if c == b')' then skip_while isblank s else safe

unfoldable pub trim_sorting_meta : Bytes → Bytes
unfolding skip_while meta_tail
trim_sorting_meta str = meta_tail str (skip_while isdigit str)
