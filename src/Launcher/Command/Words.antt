-- ===== src/Launcher/Command/Words.antt =====
-- The shell reads each queued command as exactly the words that were meant.
use darkui.Base.{
  ℕ, ◌<◌, ◌≡◌, refl, sym, ap, ◌∙◌, inl, inr, Bool, true, false, List, [], ◌∷◌, ◌++◌, Option, none,
  some, ltb, ◌==◌, ◌||◌, if◌then◌else◌, take, length, arith, Bool-cases, append_assoc, append-nil,
  take_all, ltb→lt, ltb→le,
}
use darkui.CString.{Bytes, bytes}
use darkui.Launcher.Command.{piece, escaped_size, escaped, rom_command, pak_command}
use darkui.Launcher.Command.Escape.{escape_all, escaped-fits, escaped-front}

-- A POSIX shell's reading of blanks, single quotes and backslashes; other special bytes stand
-- only inside quotes in these commands.
pub data Mode : Type 0 where
  between plain quoted backslash : Mode

next_mode : Mode → ℕ → Mode
next_mode quoted c = if c == b'\'' then plain else quoted
next_mode backslash c = plain
next_mode between c =
    if c == b' '
    then between
    else if c == b'\''
    then quoted
    else if c == b'\\'
    then backslash
    else plain
next_mode plain c =
    if c == b' '
    then between
    else if c == b'\''
    then quoted
    else if c == b'\\'
    then backslash
    else plain

-- whether the byte belongs to the word
keeps : Mode → ℕ → Bool
keeps quoted c = if c == b'\'' then false else true
keeps backslash c = true
keeps between c = if c == b' ' || c == b'\'' || c == b'\\' then false else true
keeps plain c = if c == b' ' || c == b'\'' || c == b'\\' then false else true

ends_word : Mode → ℕ → Bool
ends_word plain c = c == b' '
ends_word _ c = false

-- the words of a command line, with `word` read of the current one; `none` is an open quote
pub shell_words : Mode → Bytes → Bytes → Option (List Bytes)
shell_words between word [] = some []
shell_words plain word [] = some (word ∷ [])
shell_words quoted word [] = none
shell_words backslash word [] = none
shell_words m word (c ∷ s) =
    let rest =
      shell_words (next_mode m c)
        (if ends_word m c then [] else if keeps m c then word ++ c ∷ [] else word) s in
    if ends_word m c then elim rest [ none ↦ none | some words ↦ some (word ∷ words) ] else rest

shell_words-piece :
    (c : ℕ) (word rest : Bytes)
    → shell_words quoted word (piece c ++ rest) ≡ shell_words quoted (word ++ c ∷ []) rest
unfolding shell_words next_mode keeps ends_word
shell_words-piece c word rest = elim (Bool-cases (c == b'\'')) [
  | inl t ↦ let e : c ≡ b'\'' = ground arith in rw e
  | inr t ↦ ground arith
]

-- Inside quotes the escape of a text is the text.
shell_words-escape_all :
    (s word rest : Bytes)
    → shell_words quoted word (escape_all s ++ rest) ≡ shell_words quoted (word ++ s) rest
shell_words-escape_all [] word rest = ap (λ w. shell_words quoted w rest) (sym (append-nil word))
shell_words-escape_all (c ∷ s) word rest =
    ap (shell_words quoted word) (append_assoc (piece c) (escape_all s) rest)
    ∙ shell_words-piece c word (escape_all s ++ rest)
    ∙ shell_words-escape_all s (word ++ c ∷ []) rest
    ∙ ap (λ w. shell_words quoted w rest) (append_assoc word (c ∷ []) s)

-- The part of a path that its buffer holds: a front of it, the whole where the escape fits.
pub record Kept (path word : Bytes) : Type 0 where
  pub count : ℕ
  pub front : word ≡ take count path
  pub whole : length (escape_all path) < escaped_size → word ≡ path

escaped-Kept : (path : Bytes) → (word : Bytes) × (escaped path ≡ escape_all word) × Kept path word
escaped-Kept path = elim (Bool-cases (ltb (length (escape_all path)) escaped_size)) [
  | inl t ↦ (
    path,
    escaped-fits path (ltb→lt _ _ t),
    record {
      count = length path;
      front = sym (take_all (length path) path (omega arith));
      whole = λ _. refl;
    },
  )
  | inr t ↦
      let (k, e) = escaped-front path in
      (
        take k path,
        e,
        record { count = k; front = refl; whole = λ h. absurd (omega (arith, ltb→le _ _ t)) },
      )
]

shell_words-rom :
    (a b : Bytes)
    → shell_words between []
        (b'\'' ∷ (escape_all a ++ (bytes "' '" ++ (escape_all b ++ b'\'' ∷ []))))
      ≡ some (a ∷ b ∷ [])
unfolding shell_words next_mode keeps ends_word
shell_words-rom a b =
    shell_words-escape_all a [] (bytes "' '" ++ (escape_all b ++ b'\'' ∷ []))
    ∙ ap (λ r. elim r [ none ↦ none | some words ↦ some (a ∷ words) ])
        (shell_words-escape_all b [] (b'\'' ∷ []))

-- Whatever the two paths hold, quotes, blanks and backslashes included, the shell reads the
-- command of `openRom` and of `autoResume` as two words and no more: the emulator's path and the
-- game's, each whole if its escape is shorter than the buffer of `MAX_PATH * 2` bytes, and
-- otherwise cut.
pub rom_command_words :
    (emu_path sd_path : Bytes)
    → (emu sd : Bytes) × (shell_words between [] (rom_command emu_path sd_path)
        ≡ some (emu ∷ sd ∷ []))
      × Kept emu_path emu
      × Kept sd_path sd
unfolding rom_command
rom_command_words emu_path sd_path =
    let (emu, e, ke) = escaped-Kept emu_path in
    let (sd, s, ks) = escaped-Kept sd_path in (emu, sd, rw (e, s) (shell_words-rom emu sd), ke, ks)

shell_words-launch :
    (pak : Bytes)
    → shell_words between [] (b'\'' ∷ (escape_all pak ++ bytes "/launch.sh'"))
      ≡ some ((pak ++ bytes "/launch.sh") ∷ [])
unfolding shell_words next_mode keeps ends_word
shell_words-launch pak =
    shell_words-escape_all pak [] (bytes "/launch.sh'")
    ∙ ap (λ w. some (w ∷ [])) (simp append_assoc)

-- The command of `openPak` is one word, the launch script of the pak.
pub pak_command_words :
    (path : Bytes)
    → (pak : Bytes) × (shell_words between [] (pak_command path)
        ≡ some ((pak ++ bytes "/launch.sh") ∷ []))
      × Kept path pak
unfolding pak_command
pak_command_words path =
    let (pak, e, k) = escaped-Kept path in (pak, rw e (shell_words-launch pak), k)
