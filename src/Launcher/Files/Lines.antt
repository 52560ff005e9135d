-- ===== src/Launcher/Files/Lines.antt =====
-- Reading lines back: short lines come whole, without their ends, and empty ones are skipped.
use darkui.Base.{
  ℕ, suc, ◌-◌, ◌≤◌, ◌<◌, ◌≡◌, ◌≢◌, refl, ap, ap₂, ◌∙◌, List, [], ◌∷◌, ◌++◌, none, some, drop,
  length, arith, append_assoc, All, take-append_left,
}
use darkui.CString.{Bytes}
use darkui.CString.Search.{Lacks, strchr-append, strchr-Lacks, drop-append_cons}
use darkui.Names.Lines.{EndsNot, clean_endings}
use darkui.Launcher.Files.{fgets_lines, clean_lines, text_lines, split_tab}

-- A line that `fgets` reads whole and the clean-up leaves as it is.
pub record IsLine (line : Bytes) : Type 0 where
  pub filled : line ≢ []
  pub one : Lacks b'\n' line
  pub short : length line ≤ 254
  pub no_newline : EndsNot b'\n' line
  pub no_return : EndsNot b'\r' line

-- The text of a file with these lines.
abbrev pub joined : List Bytes → Bytes
joined [] = []
joined (line ∷ lines) = line ++ b'\n' ∷ joined lines

fgets_lines-append :
    (line rest : Bytes) (room : ℕ) (front : Bytes)
    → Lacks b'\n' line
    → length line < room
    → fgets_lines room front (line ++ b'\n' ∷ rest)
      ≡ (front ++ (line ++ b'\n' ∷ [])) ∷ fgets_lines 255 [] rest
unfolding fgets_lines
fgets_lines-append [] rest room front h lt = refl
fgets_lines-append (c ∷ line) rest room front h lt = ground (
  arith,
  h.0,
  fgets_lines-append line rest (room - 1) (front ++ c ∷ []) h.1,
  append_assoc front (c ∷ []) (line ++ b'\n' ∷ []),
)

keep-clean :
    (line : Bytes) (lines : List Bytes)
    → IsLine line
    → clean_lines ((line ++ b'\n' ∷ []) ∷ lines) ≡ line ∷ clean_lines lines
unfolding clean_lines
keep-clean [] lines l = absurd (l.filled refl)
keep-clean (c ∷ line) lines l =
    rw ((clean_endings (c ∷ line) l.no_newline l.no_return).1, clean_lines)

-- Reading a file of such lines gives the lines.
pub text_lines-joined : (lines : List Bytes) → All IsLine lines → text_lines (joined lines) ≡ lines
unfolding text_lines
text_lines-joined [] h = refl
text_lines-joined (line ∷ lines) h =
    ap clean_lines
      (fgets_lines-append line (joined lines) 255 [] h.0.one (omega (arith, h.0.short)))
    ∙ keep-clean line (fgets_lines 255 [] (joined lines)) h.0
    ∙ ap (◌∷◌ line) (text_lines-joined lines h.1)

pub split_tab-append : (a b : Bytes) → Lacks b'\t' a → split_tab (a ++ b'\t' ∷ b) ≡ (a, some b)
unfolding split_tab
split_tab-append a b h =
    rw (strchr-append b'\t' a b h, split_tab)
      (ap₂ (λ x y. (x, some y)) (take-append_left a (b'\t' ∷ b))
        (ap (λ k. drop k (a ++ b'\t' ∷ b)) {y = suc (length a)} (omega arith)
          ∙ drop-append_cons b'\t' a b))

pub split_tab-Lacks : (a : Bytes) → Lacks b'\t' a → split_tab a ≡ (a, none)
unfolding split_tab
split_tab-Lacks a h = rw (strchr-Lacks b'\t' a h, split_tab)
