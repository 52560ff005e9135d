-- ===== src/Launcher/Index/Complete.antt =====
-- The index of first letters that `Directory_index` leaves in a directory that is alphabetized.
use darkui.Base.{
  ℕ, zero, suc, ◌+◌, ◌≡◌, inl, false, List, [], ◌∷◌, none, refl, ap, ◌∙◌, fun_ext, arith, length,
}
use darkui.CString.{Bytes}
use darkui.Names.{Platform, collections_path, faux_recent_path, prefix_match, exact_match}
use darkui.Collections.{int_array_new}
use darkui.Collections.Maps.{int_array_new-IsSized}
use darkui.Launcher.Files.{Files}
use darkui.Launcher.Entries.{Entry}
use darkui.Launcher.Index.{Letters, get_index_char, letter_step, index_letters, directory_index}
use darkui.Launcher.Index.Alphas.{Grouped, IsIndexed, AllFrom, Spelled, index_letters-Indexed}
use darkui.Launcher.Selection.InView.{PointsInto}

-- the letter of the entry at place `k`
pub letter_of : List Entry → ℕ → ℕ
letter_of [] k = 0
letter_of (e ∷ entries) zero = get_index_char e.name
letter_of (e ∷ entries) (suc k) = letter_of entries k

letter_of-Spelled :
    (letter : ℕ → ℕ) (i : ℕ) (entries : List Entry)
    → ((k : ℕ) → letter (i + k) ≡ letter_of entries k)
    → Spelled letter i entries
unfolding letter_of
letter_of-Spelled letter i [] h = tt
letter_of-Spelled letter i (e ∷ entries) h = (
  ap letter {x = i} {y = i + 0} (omega arith) ∙ h 0,
  letter_of-Spelled letter (i + 1) entries
      (λ k. ap letter {x = i + 1 + k} {y = i + suc k} (omega arith) ∙ h (suc k)),
)

index_letters-same :
    (i : ℕ) (l : Letters) (entries : List Entry)
    → (length (index_letters i l entries).0 ≡ length entries)
      × ((k : ℕ) → letter_of (index_letters i l entries).0 k ≡ letter_of entries k)
unfolding index_letters letter_of
index_letters-same i l [] = (refl, λ k. refl)
index_letters-same i l (e ∷ entries) =
    let (long, letters) = index_letters-same (i + 1) (letter_step i e l) entries in
    (ap suc long, same_cons (index_letters (i + 1) (letter_step i e l) entries).0 letters)
  where
    same_cons :
        (out : List Entry)
        → ((k : ℕ) → letter_of out k ≡ letter_of entries k)
        → (k : ℕ)
        → letter_of (record e { alpha = (letter_step i e l).index } ∷ out) k
          ≡ letter_of (e ∷ entries) k
    same_cons out h zero = refl
    same_cons out h (suc k) = h k

abbrev fresh : Letters
fresh = record { alphas = int_array_new; index = 0; alpha = none }

index_letters-fresh :
    (entries : List Entry)
    → let (out, alphas) = index_letters 0 fresh entries in
      PointsInto (length out) alphas × AllFrom (IsIndexed (letter_of out) alphas) 0 out
unfolding int_array_new
index_letters-fresh entries =
    let (long, letters) = index_letters-same 0 fresh entries in
    let same : letter_of (index_letters 0 fresh entries).0 ≡ letter_of entries = fun_ext letters in
    let start : Grouped (letter_of entries) 0 fresh = record {
      pinned = inl refl;
      start = λ h. absurd (omega arith);
      same = λ h. absurd (omega arith);
      last = λ j e. absurd (omega (arith, e));
      first = λ h. absurd (omega arith);
    } in
    let spelled =
      letter_of-Spelled (letter_of entries) 0 entries
        (λ k. ap (letter_of entries) {x = 0 + k} {y = k} (omega arith)) in
    let done =
      index_letters-Indexed (letter_of entries) 0 fresh entries int_array_new-IsSized.0
        (λ k h. absurd (omega arith)) (omega arith) start spelled in
    rw same (λ k h. omega (arith, done.points k h, long), done.entries)

-- In a directory that is neither the recently played games nor a collection, the index points to
-- entries of the list, and for each entry its `alpha` points to the first of a run of entries of
-- the same first letter that reaches up to it, behind an entry of another letter or none; or the
-- index, which holds 27 places, is full.
pub directory_index-Indexed :
    (p : Platform) (files : Files) (path : Bytes) (entries : List Entry)
    → exact_match (faux_recent_path p) path ≡ false
    → prefix_match (collections_path p) path ≡ false
    → let (out, alphas) = directory_index p files path entries int_array_new in
      PointsInto (length out) alphas × AllFrom (IsIndexed (letter_of out) alphas) 0 out
unfolding directory_index
directory_index-Indexed p files path entries faux games = rw (faux, games) (index_letters-fresh _)
