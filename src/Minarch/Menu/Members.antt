-- ===== src/Minarch/Menu/Members.antt =====
-- The games of a collection, before and after the menu puts the current game in or takes it out.
use darkui.Base.{
  ◌≡◌, refl, sym, ap, ◌∙◌, inl, inr, Bool, true, false, not, ◌||◌, List, [], ◌∷◌, ◌++◌,
  append_assoc, Option, none, some, arith, if◌then◌else◌, All, Bool-cases, Option-cases,
}
use darkui.CString.{Bytes}
use darkui.Names.{exact_match}
use darkui.Names.Match.{exact_match_iff}
use darkui.Launcher.Files.{text_lines}
use darkui.Launcher.Files.Lines.{IsLine, joined, text_lines-joined}
use darkui.Minarch.Config.{Disk, write_file}
use darkui.Minarch.Saves.{tmp_path}
use darkui.Minarch.Saves.Atomic.{rename_tmp, write_file_same}
use darkui.Minarch.Menu.{any_line, in_collection, other_lines, text_at, toggle_collection}

-- The lines without those of the game.
abbrev pub without : Bytes → List Bytes → List Bytes
without rel [] = []
without rel (line ∷ lines) =
    if exact_match line rel then without rel lines else line ∷ without rel lines

-- What the menu makes of the lines of a collection.
abbrev pub toggled : Bytes → List Bytes → List Bytes
toggled rel lines = if any_line rel lines then without rel lines else lines ++ rel ∷ []

other_lines-joined :
    (rel : Bytes) (lines : List Bytes) → other_lines rel lines ≡ joined (without rel lines)
unfolding other_lines
other_lines-joined rel [] = refl
other_lines-joined rel (line ∷ lines) =
    let later = other_lines-joined rel lines in
    elim (Bool-cases (exact_match line rel)) [
      | inl t ↦ rw t later
      | inr f ↦ rw f (ap (λ rest. line ++ b'\n' ∷ rest) later)
    ]

All-without : (rel : Bytes) (lines : List Bytes) → All IsLine lines → All IsLine (without rel lines)
All-without rel [] h = tt
All-without rel (line ∷ lines) h = elim (Bool-cases (exact_match line rel)) [
  | inl t ↦ rw t (All-without rel lines h.1)
  | inr f ↦ rw f (h.0, All-without rel lines h.1)
]

joined-snoc :
    (lines : List Bytes) (rel : Bytes)
    → joined lines ++ (rel ++ b'\n' ∷ []) ≡ joined (lines ++ rel ∷ [])
joined-snoc [] rel = refl
joined-snoc (line ∷ lines) rel =
    append_assoc line (b'\n' ∷ joined lines) (rel ++ b'\n' ∷ [])
    ∙ ap (λ rest. line ++ b'\n' ∷ rest) (joined-snoc lines rel)

All-snoc :
    (lines : List Bytes) (rel : Bytes)
    → All IsLine lines
    → IsLine rel
    → All IsLine (lines ++ rel ∷ [])
All-snoc [] rel h r = (r, tt)
All-snoc (line ∷ lines) rel h r = (h.0, All-snoc lines rel h.1 r)

in_collection-any_line :
    (path rel : Bytes) (disk : Disk) (lines : List Bytes)
    → text_at disk path ≡ joined lines
    → All IsLine lines
    → in_collection path rel disk ≡ any_line rel lines
unfolding in_collection
in_collection-any_line path rel disk lines e h =
    let read = text_lines-joined lines h in
    elim (Option-cases (disk path)) [
      | inl n ↦
          let empty : [] ≡ joined lines = rw (n, text_at) at e in
          rw (n, in_collection) (ap (any_line rel) (ap text_lines empty ∙ read))
      | inr (text, g) ↦
          let same : text ≡ joined lines = rw (g, text_at) at e in
          rw (g, in_collection) (ap (any_line rel) (ap text_lines same ∙ read))
    ]

All-toggled :
    (rel : Bytes) (lines : List Bytes)
    → All IsLine lines
    → IsLine rel
    → All IsLine (toggled rel lines)
All-toggled rel lines h r = elim (Bool-cases (any_line rel lines)) [
  | inl t ↦ rw t (All-without rel lines h)
  | inr f ↦ rw f (All-snoc lines rel h r)
]

any_line-without : (rel : Bytes) (lines : List Bytes) → any_line rel (without rel lines) ≡ false
unfolding any_line
any_line-without rel [] = refl
any_line-without rel (line ∷ lines) =
    let later = any_line-without rel lines in
    elim (Bool-cases (exact_match line rel)) [ inl t ↦ rw t later | inr f ↦ rw f (rw f later) ]

any_line-snoc : (rel : Bytes) (lines : List Bytes) → any_line rel (lines ++ rel ∷ []) ≡ true
unfolding any_line
any_line-snoc rel [] = rw ((exact_match_iff rel rel).1 refl) refl
any_line-snoc rel (line ∷ lines) = rw (any_line-snoc rel lines) (or_true (exact_match line rel))
  where
    or_true : (b : Bool) → (b || true) ≡ true
    or_true b = ground arith

any_line-toggled :
    (rel : Bytes) (lines : List Bytes) → any_line rel (toggled rel lines) ≡ not (any_line rel lines)
any_line-toggled rel lines = elim (Bool-cases (any_line rel lines)) [
  | inl t ↦ rw t (any_line-without rel lines)
  | inr f ↦ rw f (any_line-snoc rel lines)
]

toggle_collection_text :
    (path rel : Bytes) (disk : Disk) (lines : List Bytes)
    → text_at disk path ≡ joined lines
    → All IsLine lines
    → text_at (toggle_collection true path rel disk) path ≡ joined (toggled rel lines)
unfolding toggle_collection
toggle_collection_text path rel disk lines e h =
    let inside = in_collection-any_line path rel disk lines e h in
    elim (Bool-cases (any_line rel lines)) [
      | inr f ↦
          let out : in_collection path rel disk ≡ false = inside ∙ f in
          rw (out, f, toggle_collection)
            (text_written path (text_at disk path ++ (rel ++ b'\n' ∷ [])) disk
              ∙ ap (λ text. text ++ (rel ++ b'\n' ∷ [])) e
              ∙ joined-snoc lines rel)
      | inl t ↦ elim (Option-cases (disk path)) [
        | inl n ↦ absurd (no_lines rel lines (rw (n, text_at) at e) t)
        | inr (text, g) ↦
            let same : text ≡ joined lines = rw (g, text_at) at e in
            let into : in_collection path rel disk ≡ true = inside ∙ t in
            let left = other_lines rel (text_lines text) in
            let moved =
              rename_tmp path left (write_file (tmp_path path) left disk)
                (write_file_same (tmp_path path) left disk) in
            rw (into, t, toggle_collection)
              (rw g (
                ap text_of moved.0
                ∙ ap (other_lines rel) (ap text_lines same ∙ text_lines-joined lines h)
                ∙ other_lines-joined rel lines))
      ]
    ]
  where
    text_of : Option Bytes → Bytes
    text_of none = []
    text_of (some text) = text

    text_written :
        (path text : Bytes) (disk : Disk) → text_at (write_file path text disk) path ≡ text
    text_written path text disk = ap text_of (write_file_same path text disk)

    no_lines :
        (rel : Bytes) (lines : List Bytes) → [] ≡ joined lines → any_line rel lines ≡ true → ⊥
    no_lines rel [] e t = absurd cc
    no_lines rel ([] ∷ lines) e t = absurd cc
    no_lines rel ((c ∷ line) ∷ lines) e t = absurd cc

-- The menu puts the game behind the other games of a collection that it is not in, and takes it
-- out of one that it is in, wherever it stands there; the other games stay in their order. The
-- lines of the file and the game's path must be lines that `fgets` reads whole, each with a
-- newline behind it, and the files can be written. A collection without a file counts as empty.
pub toggle_collection-text_lines :
    (path rel : Bytes) (disk : Disk) (lines : List Bytes)
    → text_at disk path ≡ joined lines
    → All IsLine lines
    → IsLine rel
    → (text_lines (text_at (toggle_collection true path rel disk) path) ≡ toggled rel lines)
      × (in_collection path rel (toggle_collection true path rel disk)
          ≡ not (in_collection path rel disk))
toggle_collection-text_lines path rel disk lines e h r =
    let after = toggle_collection_text path rel disk lines e h in
    let kept = All-toggled rel lines h r in
    (
      ap text_lines after ∙ text_lines-joined (toggled rel lines) kept,
      in_collection-any_line path rel (toggle_collection true path rel disk) (toggled rel lines)
            after kept
          ∙ any_line-toggled rel lines
          ∙ sym (ap not (in_collection-any_line path rel disk lines e h)),
    )
