-- ===== src/Names/Emu.antt =====
-- `getEmuName`: the tag in the last parentheses of the console folder, and `getEmuPath`.
use darkui.Base.{
  ℕ, suc, ◌+◌, ◌≡◌, ◌↔◌, refl, ap, ◌∙◌, ◌⊎◌, inl, inr, Bool, true, ◌||◌, [], ◌∷◌, ◌++◌, arith,
  length, drop, append-nil,
}
use darkui.CString.{Bytes, before_first}
use darkui.CString.Search.{
  Lacks, Lacks-append, before_first-append, strrchr-append, strrchr-Lacks, strchr-Lacks,
  drop-append_cons,
}
use darkui.Names.{
  Platform, prefix_match, roms_folder, paren_tag, get_emu_name, get_emu_path, extra_pak, system_pak,
}
use darkui.Names.Match.{prefix_match_iff}

-- What may stand behind a folder's name in a path: nothing, or a slash and more.
abbrev pub EndsName : Bytes → Type 0
EndsName rest = (rest ≡ []) ⊎ ((more : Bytes) × (rest ≡ b'/' ∷ more))

before_first-Lacks : (c : ℕ) (s : Bytes) → Lacks c s → before_first s c ≡ s
unfolding before_first
before_first-Lacks c s h = rw (strchr-Lacks c s h, before_first)

before_first-EndsName :
    (s rest : Bytes) → Lacks b'/' s → EndsName rest → before_first (s ++ rest) b'/' ≡ s
before_first-EndsName s rest h (inl e) = rw (e, append-nil) (before_first-Lacks b'/' s h)
before_first-EndsName s rest h (inr (more, e)) = rw e (before_first-append b'/' s more h)

prefix_match-append : (pre rest : Bytes) → prefix_match pre (pre ++ rest) ≡ true
prefix_match-append pre rest =
    (prefix_match_iff pre (pre ++ rest)).1
      (record { front = pre; rest = rest; splits = refl; same = refl })

drop-roms : (roms rest : Bytes) → drop (length roms + 1) (roms ++ b'/' ∷ rest) ≡ rest
drop-roms roms rest =
    ap (λ k. drop k (roms ++ b'/' ∷ rest)) {x = length roms + 1} {y = suc (length roms)}
      (omega arith)
    ∙ drop-append_cons b'/' roms rest

-- A path below Roms is in the folder that its first component names.
pub roms_folder-append :
    (roms folder rest : Bytes)
    → Lacks b'/' folder
    → EndsName rest
    → roms_folder roms (roms ++ b'/' ∷ (folder ++ rest)) ≡ folder
unfolding roms_folder
roms_folder-append roms folder rest h e =
    rw (prefix_match-append roms (b'/' ∷ (folder ++ rest)), drop-roms roms (folder ++ rest))
      (before_first-EndsName folder rest h e)

paren_tag-append :
    (name tag tail : Bytes)
    → Lacks b'(' (tag ++ b')' ∷ tail)
    → Lacks b')' tag
    → paren_tag (name ++ b'(' ∷ (tag ++ b')' ∷ tail)) ≡ tag
unfolding paren_tag
paren_tag-append name tag tail o c =
    rw (strrchr-append b'(' name (tag ++ b')' ∷ tail) o, paren_tag)
      (rw (drop-append_cons b'(' name (tag ++ b')' ∷ tail)) (before_first-append b')' tag tail c))

paren_tag-Lacks : (name : Bytes) → Lacks b'(' name → paren_tag name ≡ name
unfolding paren_tag
paren_tag-Lacks name h = rw (strrchr-Lacks b'(' name h, paren_tag)

-- The emulator of a file below Roms is the tag in the last parentheses of its console folder,
-- however deep the file lies and whatever stands behind the tag.
pub get_emu_name-tagged :
    (roms name tag tail rest : Bytes)
    → Lacks b'/' name
    → Lacks b'/' tag
    → Lacks b'/' tail
    → Lacks b'(' tag
    → Lacks b')' tag
    → Lacks b'(' tail
    → EndsName rest
    → get_emu_name roms (roms ++ b'/' ∷ ((name ++ b'(' ∷ (tag ++ b')' ∷ tail)) ++ rest)) ≡ tag
unfolding get_emu_name
get_emu_name-tagged roms name tag tail rest n t l o c lo e =
    let folder : Bytes = name ++ b'(' ∷ (tag ++ b')' ∷ tail) in
    let behind : Bytes = tag ++ b')' ∷ tail in
    let slashes : Lacks b'/' folder =
      Lacks-append b'/' name (b'(' ∷ behind) n
        ((λ x. omega arith, Lacks-append b'/' tag (b')' ∷ tail) t ((λ x. omega arith), l))) in
    let opens : Lacks b'(' behind =
      Lacks-append b'(' tag (b')' ∷ tail) o ((λ x. omega arith), lo) in
    ap paren_tag (roms_folder-append roms folder rest slashes e)
    ∙ paren_tag-append name tag tail opens c

-- A console folder without a parenthesis is its own tag.
pub get_emu_name-bare :
    (roms folder rest : Bytes)
    → Lacks b'/' folder
    → Lacks b'(' folder
    → EndsName rest
    → get_emu_name roms (roms ++ b'/' ∷ (folder ++ rest)) ≡ folder
unfolding get_emu_name
get_emu_name-bare roms folder rest h o e =
    ap paren_tag (roms_folder-append roms folder rest h e) ∙ paren_tag-Lacks folder o

-- The pak of the SD card wins over the system's where both exist; whenever one of them exists,
-- the path that is returned exists.
pub get_emu_path_exists :
    (p : Platform) (exists : Bytes → Bool) (emu : Bytes)
    → (exists (get_emu_path p exists emu) ≡ true)
      ↔ ((exists (extra_pak p emu) || exists (system_pak p emu)) ≡ true)
unfolding get_emu_path
get_emu_path_exists p exists emu = ground arith
