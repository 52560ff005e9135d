-- ===== src/Launcher/Command.antt =====
-- `escapeSingleQuotes` of workspace/all/minui/minui.c, and the commands that `openRom`,
-- `autoResume` and `openPak` hand to the shell through `queueNext`.
pub mod Escape
pub mod Words
use darkui.Base.{
  ℕ, ◌+◌, Bool, true, false, List, [], ◌∷◌, ◌++◌, Option, none, some, leb, ◌==◌, if◌then◌else◌,
}
use darkui.CString.{Bytes, bytes}

-- `MAX_PATH * 2`, the size of the buffers that hold an escaped path
abbrev pub escaped_size : ℕ
escaped_size = 1024

-- how many bytes one byte of the source needs, and which
abbrev pub needed : ℕ → ℕ
needed c = if c == b'\'' then 4 else 1

abbrev pub piece : ℕ → Bytes
piece c = if c == b'\'' then bytes "'\\''" else c ∷ []

-- the loop of `escapeSingleQuotes` with `di` bytes written: what it writes from there on
pub escape_from : ℕ → ℕ → Bytes → Bytes
escape_from dst_size di [] = []
escape_from dst_size di (c ∷ src) =
    let later = piece c ++ escape_from dst_size (di + needed c) src in
    if leb dst_size (di + needed c) then [] else later

-- what `dst` holds before its NUL; `none` for a buffer without room, which is left alone. A
-- source of NULL is `none`.
unfoldable pub escape_single_quotes : ℕ → Option Bytes → Option Bytes
unfolding escape_from
escape_single_quotes dst_size src =
    if dst_size == 0
    then none
    else elim src [ none ↦ some [] | some s ↦ some (escape_from dst_size 0 s) ]

-- an escaped path in its buffer of `MAX_PATH * 2` bytes
pub escaped : Bytes → Bytes
unfolding escape_single_quotes
escaped path = elim (escape_single_quotes escaped_size (some path)) [ none ↦ [] | some s ↦ s ]

-- `snprintf(cmd, sizeof(cmd), "'%s' '%s'", esc_emu_path, esc_sd_path)`; two escaped paths fit
-- into the `MAX_PATH * 4 + 16` bytes of `cmd`.
unfoldable pub rom_command : Bytes → Bytes → Bytes
unfolding escaped
rom_command emu_path sd_path =
    b'\'' ∷ (escaped emu_path ++ (bytes "' '" ++ (escaped sd_path ++ b'\'' ∷ [])))

-- `snprintf(cmd, sizeof(cmd), "'%s/launch.sh'", esc_path)`
unfoldable pub pak_command : Bytes → Bytes
unfolding escaped
pak_command path = b'\'' ∷ (escaped path ++ bytes "/launch.sh'")
