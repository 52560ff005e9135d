-- ===== src/Launcher/Entries/Discs.antt =====
-- The discs of a playlist: getDiscs and getFirstDisc read the same file.
use darkui.Base.{
  ℕ, ◌+◌, ◌≡◌, inl, inr, Bool, true, false, Bool-cases, List, [], ◌∷◌, ◌++◌, none, some,
  if◌then◌else◌, refl, sym, ap, ◌∙◌, Option-cases,
}
use darkui.CString.{Bytes}
use darkui.Names.{Platform}
use darkui.Launcher.Files.{Files, text_lines, parent_path}
use darkui.Launcher.Entries.{
  Entry, entry_rom, entry_new, disc_name, disc_lines, get_discs, first_disc, get_first_disc,
}

-- The lines that name files, below the folder of the playlist.
pub existing : Files → Bytes → List Bytes → List Bytes
existing files base [] = []
existing files base (line ∷ lines) =
    let later = existing files base lines in
    if files.exists (base ++ line) then (base ++ line) ∷ later else later

-- The entries name these paths, and are numbered from `disc` on.
abbrev pub Numbered : ℕ → List Bytes → List Entry → Type 0
Numbered disc [] [] = Unit
Numbered disc [] (e ∷ entries) = ⊥
Numbered disc (path ∷ paths) [] = ⊥
Numbered disc (path ∷ paths) (e ∷ entries) =
    (e.path ≡ path)
    × (e.name ≡ disc_name disc)
    × (e.kind ≡ entry_rom)
    × Numbered (disc + 1) paths entries

disc_lines-Numbered :
    (p : Platform) (files : Files) (base : Bytes) (disc : ℕ) (lines : List Bytes)
    → Numbered (disc + 1) (existing files base lines) (disc_lines p files base disc lines)
unfolding disc_lines existing entry_new
disc_lines-Numbered p files base disc [] = tt
disc_lines-Numbered p files base disc (line ∷ lines) =
    let there = disc_lines-Numbered p files base (disc + 1) lines in
    let missing = disc_lines-Numbered p files base disc lines in
    elim (Bool-cases (files.exists (base ++ line))) [
      | inl t ↦ rw t (refl, refl, refl, there)
      | inr t ↦ rw t missing
    ]

-- `getDiscs` lists exactly the files that the playlist names and that exist, in its order, as
-- games called "Disc 1", "Disc 2" and so on without a gap.
pub get_discs-Numbered :
    (p : Platform) (files : Files) (path text : Bytes)
    → files.read path ≡ some text
    → Numbered 1 (existing files (parent_path path) (text_lines text)) (get_discs p files path)
unfolding get_discs
get_discs-Numbered p files path text h =
    rw (h, get_discs) (disc_lines-Numbered p files (parent_path path) 0 (text_lines text))

first_found :
    (p : Platform) (files : Files) (base old : Bytes) (lines : List Bytes)
    → (out : Bool × Bytes)
    → out ≡ (elim (first_disc files base lines) [ none ↦ (false, old) | some found ↦ found ])
    → out.0 ≡ true
    → (e : Entry) × (rest : List Entry) × (disc_lines p files base 0 lines ≡ e ∷ rest)
      × (e.path ≡ out.1)
unfolding first_disc disc_lines entry_new
first_found p files base old [] out o h = absurd cc
first_found p files base old (line ∷ lines) out o h =
    let there : files.exists (base ++ line) ≡ true = sym (ap (λ x. x.0) o) ∙ h in
    rw (there, o) (_, _, refl, refl)

-- A disc that `getFirstDisc` finds is the first entry of `getDiscs`.
pub get_first_disc-get_discs :
    (p : Platform) (files : Files) (path old : Bytes)
    → (get_first_disc files path old).0 ≡ true
    → (e : Entry) × (rest : List Entry) × (get_discs p files path ≡ e ∷ rest)
      × (e.path ≡ (get_first_disc files path old).1)
unfolding get_first_disc get_discs
get_first_disc-get_discs p files path old h = elim (Option-cases (files.read path)) [
  | inl e ↦ absurd (let never = rw (e, get_first_disc) at h in cc)
  | inr (text, e) ↦
      let found = rw (e, get_first_disc) at h in
      rw (e, get_first_disc, get_discs)
        (first_found p files (parent_path path) old (text_lines text) _ refl found)
]
