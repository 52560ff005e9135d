-- ===== src/Launcher/Recents/Stored.antt =====
-- What `saveRecents` writes, the line reader and the split at the tab of `hasRecents` read back.
use darkui.Base.{
  ℕ, suc, ◌+◌, ◌<◌, ◌≡◌, refl, ap, ap₂, ◌∙◌, List, [], ◌∷◌, ◌++◌, Option, none, some, length, arith,
  append_assoc, All, get_or,
}
use darkui.CString.{Bytes}
use darkui.CString.Search.{Lacks}
use darkui.Collections.{Array}
use darkui.Launcher.Files.{text_lines, split_tab}
use darkui.Launcher.Files.Lines.{
  IsLine, joined, text_lines-joined, split_tab-append, split_tab-Lacks,
}
use darkui.Launcher.Recents.{Recent, recent_line, saved_from, save_recents}
use darkui.Launcher.Recents.Bump.{games, Lists, Lists-count}
use darkui.Launcher.Recents.Order.{Lists-get}

-- The line of a game, without its end.
abbrev pub entry_line : Recent → Bytes
entry_line r = elim r.alias [ none ↦ r.path | some alias ↦ r.path ++ b'\t' ∷ alias ]

-- The line can be read back: it is short, has no newline and no trailing carriage return, and
-- the path has no tab.
pub record IsStorable (r : Recent) : Type 0 where
  pub line : IsLine (entry_line r)
  pub no_tab : Lacks b'\t' r.path

lines_of : List Recent → List Bytes
lines_of [] = []
lines_of (r ∷ rs) = entry_line r ∷ lines_of rs

recent_line-entry_line :
    (r : Recent) (rest : Bytes) → recent_line r ++ rest ≡ entry_line r ++ b'\n' ∷ rest
unfolding recent_line
recent_line-entry_line r rest = go r.alias refl
  where
    go : (o : Option Bytes) → r.alias ≡ o → recent_line r ++ rest ≡ entry_line r ++ b'\n' ∷ rest
    go none e = rw (e, recent_line) (append_assoc r.path (b'\n' ∷ []) rest)
    go (some alias) e = rw (e, recent_line) (simp append_assoc)

saved_from-joined :
    (rs : List Recent) (i : ℕ) (items : List (Option Recent))
    → ((j : ℕ) → j < length rs → get_or items (i + j) none ≡ get_or (games rs) j none)
    → saved_from (length rs) i items ≡ joined (lines_of rs)
unfolding saved_from lines_of games
saved_from-joined [] i items h = refl
saved_from-joined (r ∷ rs) i items h =
    let at : get_or items i none ≡ some r =
      ap (λ k. get_or items k none) {y = i + 0} (omega arith) ∙ h 0 (omega arith) in
    rw (at, saved_from)
      (recent_line-entry_line r _
        ∙ ap (λ l. entry_line r ++ b'\n' ∷ l)
            (saved_from-joined rs (suc i) items (λ j lt.
              ap (λ k. get_or items k none) {y = i + suc j} (omega arith)
              ∙ h (suc j) (omega arith))))

All-lines : (rs : List Recent) → All IsStorable rs → All IsLine (lines_of rs)
unfolding lines_of
All-lines [] h = tt
All-lines (r ∷ rs) h = (h.0.line, All-lines rs h.1)

-- the path and the alias that each line gives
abbrev pub split_lines : List Bytes → List (Bytes × Option Bytes)
split_lines [] = []
split_lines (line ∷ lines) = split_tab line ∷ split_lines lines

abbrev pub saved : List Recent → List (Bytes × Option Bytes)
saved [] = []
saved (r ∷ rs) = (r.path, r.alias) ∷ saved rs

split-entry_line : (r : Recent) → Lacks b'\t' r.path → split_tab (entry_line r) ≡ (r.path, r.alias)
split-entry_line r h = go r.alias refl
  where
    go : (o : Option Bytes) → r.alias ≡ o → split_tab (entry_line r) ≡ (r.path, r.alias)
    go none e = rw e (split_tab-Lacks r.path h)
    go (some alias) e = rw e (split_tab-append r.path alias h)

split-lines_of : (rs : List Recent) → All IsStorable rs → split_lines (lines_of rs) ≡ saved rs
unfolding lines_of
split-lines_of [] h = refl
split-lines_of (r ∷ rs) h = ap₂ ◌∷◌ (split-entry_line r h.0.no_tab) (split-lines_of rs h.1)

-- The text that `saveRecents` writes is read back by the line loop and the split at the tab of
-- `hasRecents` as the same paths and aliases in the same order, if the lines are storable.
pub save_recents_roundtrip :
    (recents : Array Recent) (rs : List Recent)
    → Lists recents rs
    → All IsStorable rs
    → split_lines (text_lines (save_recents recents)) ≡ saved rs
unfolding save_recents
save_recents_roundtrip recents rs h ok =
    ap (λ t. split_lines (text_lines t))
      (ap (λ n. saved_from n 0 recents.items) (Lists-count recents rs h)
        ∙ saved_from-joined rs 0 recents.items (λ j lt.
          ap (λ k. get_or recents.items k none) {y = j} (omega arith)
          ∙ Lists-get recents rs h j lt))
    ∙ ap split_lines (text_lines-joined (lines_of rs) (All-lines rs ok))
    ∙ split-lines_of rs ok
