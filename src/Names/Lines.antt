-- ===== src/Names/Lines.antt =====
-- Lines of a file: line endings are taken off, and sorting numbers are skipped.
use darkui.Base.{
  ℕ, zero, suc, ◌+◌, ◌-◌, ◌<◌, ◌≡◌, ◌≢◌, refl, sym, ap, ◌∙◌, ◌⊎◌, inl, inr, Bool, true, false, [],
  ◌∷◌, ◌++◌, arith, ◌==◌, length, take, get_or, take-append_left, Bool-cases, length-append, All,
}
use darkui.CString.{Bytes, isdigit, isblank}
use darkui.Names.{
  normalize_newline, trim_newlines, trim_trailing_newlines, skip_while, meta_tail,
  trim_sorting_meta,
}

-- The text is empty or its last byte is not `c`.
abbrev pub EndsNot : ℕ → Bytes → Type 0
EndsNot c s = (s ≡ []) ⊎ (get_or s (length s - 1) 0 ≢ c)

-- `normalizeNewline`, then `trimTrailingNewlines`, as every reader of lines calls them.
abbrev pub clean : Bytes → Bytes
clean line = trim_trailing_newlines (normalize_newline line)

get_or-append : (a b : Bytes) (i j : ℕ) → j ≡ length a + i → get_or (a ++ b) j 0 ≡ get_or b i 0
get_or-append [] b i j e = ap (λ k. get_or b k 0) (omega arith)
get_or-append (x ∷ a) b i zero e = absurd (omega arith)
get_or-append (x ∷ a) b i (suc j) e = get_or-append a b i j (omega arith)

get_or-append_left : (a b : Bytes) (i : ℕ) → i < length a → get_or (a ++ b) i 0 ≡ get_or a i 0
get_or-append_left [] b i h = absurd (omega arith)
get_or-append_left (x ∷ a) b zero h = refl
get_or-append_left (x ∷ a) b (suc i) h = get_or-append_left a b i (omega arith)

trim_newlines-bare : (s : Bytes) → EndsNot b'\n' s → trim_newlines (length s) s ≡ s
unfolding trim_newlines
trim_newlines-bare [] h = refl
trim_newlines-bare (x ∷ s) h =
    let last : get_or (x ∷ s) (suc (length s) - 1) 0 ≡ get_or (x ∷ s) (length s) 0 =
      ap (λ k. get_or (x ∷ s) k 0) (omega arith) in
    ground (arith, last)

trim-bare : (s : Bytes) → EndsNot b'\n' s → trim_trailing_newlines s ≡ s
unfolding trim_trailing_newlines
trim-bare s h = trim_newlines-bare s h

trim-newline : (s : Bytes) → EndsNot b'\n' s → trim_trailing_newlines (s ++ b'\n' ∷ []) ≡ s
unfolding trim_trailing_newlines
trim-newline s h =
    let size : length (s ++ b'\n' ∷ []) ≡ suc (length s) =
      omega (arith, length-append s (b'\n' ∷ [])) in
    rw size (
      rw (get_or-append s (b'\n' ∷ []) 0 (length s) (omega arith), trim_newlines)
        (rw (take-append_left s (b'\n' ∷ [])) (trim_newlines-bare s h)))

normalize-bare : (s : Bytes) → EndsNot b'\n' s → normalize_newline s ≡ s
unfolding normalize_newline
normalize-bare s h = ground arith

normalize-newline :
    (s : Bytes) → EndsNot b'\r' s → normalize_newline (s ++ b'\n' ∷ []) ≡ s ++ b'\n' ∷ []
unfolding normalize_newline
normalize-newline [] h = refl
normalize-newline (x ∷ s) h =
    let size : length (s ++ b'\n' ∷ []) ≡ suc (length s) =
      omega (arith, length-append s (b'\n' ∷ [])) in
    let index : suc (length (s ++ b'\n' ∷ [])) - 2 ≡ suc (length s) - 1 = omega arith in
    let last = get_or-append_left (x ∷ s) (b'\n' ∷ []) (suc (length s) - 1) (omega arith) in
    ground (arith, last, ap (λ k. get_or (x ∷ s ++ b'\n' ∷ []) k 0) index)

normalize-return : (s : Bytes) → normalize_newline (s ++ b'\r' ∷ b'\n' ∷ []) ≡ s ++ b'\n' ∷ []
unfolding normalize_newline
normalize-return s =
    let line : Bytes = s ++ b'\r' ∷ b'\n' ∷ [] in
    let size : length line ≡ length s + 2 = omega (arith, length-append s (b'\r' ∷ b'\n' ∷ [])) in
    let at_r = get_or-append s (b'\r' ∷ b'\n' ∷ []) 0 (length line - 2) (omega arith) in
    let at_n = get_or-append s (b'\r' ∷ b'\n' ∷ []) 1 (length line - 1) (omega arith) in
    let front : take (length line - 2) line ≡ s =
      ap (λ k. take k line) {y = length s} (omega arith)
      ∙ take-append_left s (b'\r' ∷ b'\n' ∷ []) in
    ground (arith, at_r, at_n, front)

-- A line that does not itself end in a carriage return or a newline is read back from either
-- kind of line ending, and from none.
pub clean_endings :
    (s : Bytes)
    → EndsNot b'\n' s
    → EndsNot b'\r' s
    → (clean s ≡ s) × (clean (s ++ b'\n' ∷ []) ≡ s) × (clean (s ++ b'\r' ∷ b'\n' ∷ []) ≡ s)
clean_endings s n r = (
  ap trim_trailing_newlines (normalize-bare s n) ∙ trim-bare s n,
  ap trim_trailing_newlines (normalize-newline s r) ∙ trim-newline s n,
  ap trim_trailing_newlines (normalize-return s) ∙ trim-newline s n,
)

-- What `trimSortingMeta` may take off: digits, a closing parenthesis and blanks.
skip-All :
    (f : ℕ → Bool) (a b : Bytes) → All (λ c. f c ≡ true) a → skip_while f (a ++ b) ≡ skip_while f b
unfolding skip_while
skip-All f [] b h = refl
skip-All f (x ∷ a) b h = rw h.0 (skip-All f a b h.1)

skip-split :
    (f : ℕ → Bool) (s : Bytes)
    → (taken : Bytes) × (s ≡ taken ++ skip_while f s) × All (λ c. f c ≡ true) taken
unfolding skip_while
skip-split f [] = ([], refl, tt)
skip-split f (x ∷ s) = elim (Bool-cases (f x)) [
  | inl t ↦ let (taken, e, h) = skip-split f s in rw t (x ∷ taken, ap (◌∷◌ x) e, (t, h))
  | inr t ↦ rw t ([], refl, tt)
]

pub record SortingMeta (str : Bytes) : Type 0 where
  pub digits : Bytes
  pub blanks : Bytes
  pub are_digits : All (λ c. isdigit c ≡ true) digits
  pub are_blanks : All (λ c. isblank c ≡ true) blanks
  pub splits : str ≡ digits ++ b')' ∷ (blanks ++ trim_sorting_meta str)

meta_tail-cases :
    (safe rest : Bytes)
    → (meta_tail safe rest ≡ safe)
      ⊎ ((s : Bytes) × (rest ≡ b')' ∷ s) × (meta_tail safe rest ≡ skip_while isblank s))
unfolding meta_tail
meta_tail-cases safe [] = inl refl
meta_tail-cases safe (c ∷ s) = elim (Bool-cases (c == b')')) [
  | inl t ↦ rw t (inr (s, ground arith, refl))
  | inr t ↦ rw t (inl refl)
]

-- A name keeps its text, or loses exactly leading digits, one `)` and the blanks behind it.
pub trim_sorting_meta_cases : (str : Bytes) → (trim_sorting_meta str ≡ str) ⊎ SortingMeta str
unfolding trim_sorting_meta
trim_sorting_meta_cases str = elim (meta_tail-cases str (skip_while isdigit str)) [
  | inl e ↦ inl e
  | inr (s, e, out) ↦
      let (digits, front, are_digits) = skip-split isdigit str in
      let (blanks, back, are_blanks) = skip-split isblank s in
      inr (record {
        digits = digits;
        blanks = blanks;
        are_digits = are_digits;
        are_blanks = are_blanks;
        splits = front ∙ ap (◌++◌ digits) (e ∙ ap (◌∷◌ b')') (back ∙ ap (◌++◌ blanks) (sym out)));
      })
]

-- A name behind a number such as `001) ` is shown without it, where it begins with no blank.
pub trim_sorting_meta-append :
    (digits blanks : Bytes) (c : ℕ) (name : Bytes)
    → All (λ c. isdigit c ≡ true) digits
    → All (λ c. isblank c ≡ true) blanks
    → isblank c ≡ false
    → trim_sorting_meta (digits ++ b')' ∷ (blanks ++ c ∷ name)) ≡ c ∷ name
unfolding trim_sorting_meta
trim_sorting_meta-append digits blanks c name d b n =
    let at = skip-All isdigit digits (b')' ∷ (blanks ++ c ∷ name)) d in
    let behind = skip-All isblank blanks (c ∷ name) b in
    rw (at, trim_sorting_meta) (unfold skip_while meta_tail in behind ∙ rw n)
