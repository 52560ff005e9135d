-- ===== src/Names/Display/Loops.antt =====
-- The loops of `getDisplayName`: each ends by its own test, and what it leaves.
use darkui.Base.{
  ℕ, zero, suc, ◌+◌, ◌-◌, ◌≤◌, ◌<◌, ◌≡◌, ◌≢◌, refl, sym, ap, ◌∙◌, ◌⊎◌, inl, inr, false, ◌&&◌, [],
  ◌∷◌, Option, none, some, arith, ltb, leb, length, take, drop, get_or, Bool-cases, Option-cases,
  length-take, length-drop, take-append-drop, List, ◌++◌, append-nil, append_assoc, subst, All,
  true,
}
use darkui.CString.{Bytes, isspace, strrchr}
use darkui.CString.Search.{Lacks, strrchr-split, strrchr-eq-none, strrchr-Lacks}
use darkui.Names.{strip_extensions, last_bracket, strip_brackets, trim_spaces}

-- the texts one behind the other
pub joined : List Bytes → Bytes
joined [] = []
joined (s ∷ rest) = s ++ joined rest

joined-append : (rest : List Bytes) (s : Bytes) → joined (rest ++ s ∷ []) ≡ joined rest ++ s
unfolding joined
joined-append [] s = append-nil s
joined-append (r ∷ rest) s =
    ap (λ t. r ++ t) (joined-append rest s) ∙ sym (append_assoc r (joined rest) s)

-- A dot and two to four bytes.
abbrev pub IsExtension : Bytes → Type 0
IsExtension e =
    (letters : Bytes) × (e ≡ b'.' ∷ letters)
    × (2 ≤ length letters)
    × (length letters ≤ 4)
    × Lacks b'.' letters

-- The text ends in no such extension.
abbrev pub NoExtension : Bytes → Type 0
NoExtension s = (i : ℕ) → strrchr s b'.' ≡ some i → (length s ≤ i + 2) ⊎ (i + 5 < length s)

-- Only extensions are cut from the end of `s`, and `out` ends in none.
pub record Stripped (s out : Bytes) : Type 0 where
  pub extensions : List Bytes
  pub split : s ≡ out ++ joined extensions
  pub each : All IsExtension extensions
  pub bare : NoExtension out

Stripped-refl : (s : Bytes) → NoExtension s → Stripped s s
unfolding joined
Stripped-refl s bare = record {
  extensions = [];
  split = sym (append-nil s);
  each = tt;
  bare = bare;
}

All-append :
    (P : Bytes → Type 0) (xs : List Bytes) (x : Bytes) → All P xs → P x → All P (xs ++ x ∷ [])
All-append P [] x h k = (k, tt)
All-append P (y ∷ xs) x (a, h) k = (a, All-append P xs x h k)

Stripped-cut :
    (front e out : Bytes) → IsExtension e → Stripped front out → Stripped (front ++ e) out
Stripped-cut front e out ext h = record {
  extensions = h.extensions ++ e ∷ [];
  split =
      ap (λ f. f ++ e) h.split
      ∙ append_assoc out (joined h.extensions) e
      ∙ ap (λ t. out ++ t) (sym (joined-append h.extensions e));
  each = All-append IsExtension h.extensions e h.each ext;
  bare = h.bare;
}

module _ (n : ℕ) (s : Bytes) where
  strip_extensions-none : strrchr s b'.' ≡ none → Stripped s (strip_extensions (suc n) s)
  unfolding strip_extensions
  strip_extensions-none e = rw (e, strip_extensions) (Stripped-refl s (λ i f. cc))

  strip_extensions-some :
      (i : ℕ)
      → strrchr s b'.' ≡ some i
      → Stripped (take i s) (strip_extensions n (take i s))
      → Stripped s (strip_extensions (suc n) s)
  unfolding strip_extensions
  strip_extensions-some i e h = elim (Bool-cases (ltb 2 (length s - i) && leb (length s - i) 5)) [
    | inl t ↦
        let (whole, below, lacks) = strrchr-split b'.' s i e in
        let letters = drop (suc i) s in
        let long : suc (length letters) ≡ length s - i = omega (arith, length-drop (suc i) s) in
        let ext : IsExtension (b'.' ∷ letters) = (
          letters,
          refl,
          ground (arith, t, long),
          ground (arith, t, long),
          subst (λ k. Lacks b'.' (drop k s)) {x = i + 1} {y = suc i} (omega arith) lacks,
        ) in
        let cut = Stripped-cut (take i s) (b'.' ∷ letters) (strip_extensions n (take i s)) ext h in
        rw (e, t, strip_extensions)
          (subst (λ w. Stripped w (strip_extensions n (take i s))) (sym whole) cut)
    | inr t ↦
        rw (e, t, strip_extensions)
          (Stripped-refl s (λ j f. ground (arith, strrchr-split b'.' s i e)))
  ]

-- The loop ends by its test, not by its fuel.
pub strip_extensions-Stripped :
    (n : ℕ) (s : Bytes) → length s ≤ n → Stripped s (strip_extensions n s)
strip_extensions-Stripped zero [] h =
    unfold strip_extensions strrchr in Stripped-refl [] (λ i f. cc)
strip_extensions-Stripped zero (x ∷ s) h = absurd (omega arith)
strip_extensions-Stripped (suc n) s h = elim (Option-cases (strrchr s b'.')) [
  | inl e ↦ strip_extensions-none n s e
  | inr (i, e) ↦ strip_extensions-some n s i e (
      strip_extensions-Stripped n (take i s)
        (omega (arith, length-take i s, (strrchr-split b'.' s i e).1)))
]

-- What the bracket loop leaves: `(` only at the front, and `[` too, unless a `(` stands there.
pub record FewBrackets (out : Bytes) : Type 0 where
  pub round : Lacks b'(' (drop 1 out)
  pub square : Lacks b'(' out → Lacks b'[' (drop 1 out)

-- What is cut: nothing, or all from a `(` on, or all from a `[` on with no `(` before it.
abbrev pub IsTail : Bytes → Bytes → Type 0
IsTail out tail =
    (tail ≡ [])
    ⊎ (((rest : Bytes) × (tail ≡ b'(' ∷ rest))
        ⊎ (((rest : Bytes) × (tail ≡ b'[' ∷ rest)) × Lacks b'(' out))

pub record Unbracketed (s out : Bytes) : Type 0 where
  pub tail : Bytes
  pub split : s ≡ out ++ tail
  pub ends : IsTail out tail
  pub few : FewBrackets out
  pub kept : s ≢ [] → out ≢ []

Lacks-drop : (c : ℕ) (s : Bytes) → Lacks c s → Lacks c (drop 1 s)
Lacks-drop c [] h = h
Lacks-drop c (x ∷ s) h = h.1

last_at_front :
    (c : ℕ) (s : Bytes) → (strrchr s c ≡ none) ⊎ (strrchr s c ≡ some 0) → Lacks c (drop 1 s)
last_at_front c s (inl e) = Lacks-drop c s (strrchr-eq-none c s e)
last_at_front c s (inr e) = (strrchr-split c s 0 e).2

last_bracket-FewBrackets :
    (s : Bytes) → (last_bracket s ≡ none) ⊎ (last_bracket s ≡ some 0) → FewBrackets s
unfolding last_bracket
last_bracket-FewBrackets s h = elim (Option-cases (strrchr s b'(')) [
  | inl e ↦ record {
    round = last_at_front b'(' s (inl e);
    square = λ _. last_at_front b'[' s (ground arith);
  }
  | inr (i, e) ↦ record {
    round = last_at_front b'(' s (ground arith);
    square = λ lacks. absurd (ground (arith, strrchr-Lacks b'(' s lacks));
  }
]

last_bracket-lt : (s : Bytes) (i : ℕ) → last_bracket s ≡ some i → i < length s
unfolding last_bracket
last_bracket-lt s i h = elim (Option-cases (strrchr s b'(')) [
  | inl e ↦ ground (arith, strrchr-split b'[' s i)
  | inr (j, e) ↦ ground (arith, strrchr-split b'(' s i)
]

Lacks-take : (c k : ℕ) (s : Bytes) → Lacks c s → Lacks c (take k s)
Lacks-take c zero s h = tt
Lacks-take c (suc k) [] h = tt
Lacks-take c (suc k) (x ∷ s) h = (h.0, Lacks-take c k s h.1)

Lacks-parts : (c : ℕ) (a b : Bytes) → Lacks c (a ++ b) → Lacks c a
Lacks-parts c [] b h = tt
Lacks-parts c (x ∷ a) b h = (h.0, Lacks-parts c a b h.1)

last_bracket-split :
    (s : Bytes) (i : ℕ)
    → last_bracket s ≡ some i
    → (c : ℕ) × (s ≡ take i s ++ c ∷ drop (suc i) s) × ((c ≡ b'(') ⊎ ((c ≡ b'[') × Lacks b'(' s))
unfolding last_bracket
last_bracket-split s i h = elim (Option-cases (strrchr s b'(')) [
  | inl e ↦
      let last : strrchr s b'[' ≡ some i = rw (e, last_bracket) at h in
      (b'[', (strrchr-split b'[' s i last).0, inr (refl, strrchr-eq-none b'(' s e))
  | inr (j, e) ↦
      let same : some j ≡ some i = rw (e, last_bracket) at h in
      let last : strrchr s b'(' ≡ some i = e ∙ same in
      (b'(', (strrchr-split b'(' s i last).0, inl refl)
]

IsTail-append :
    (out tail : Bytes) (c : ℕ) (rest : Bytes)
    → IsTail out tail
    → (c ≡ b'(') ⊎ ((c ≡ b'[') × Lacks b'(' out)
    → IsTail out (tail ++ c ∷ rest)
IsTail-append out tail c rest (inl e) (inl round) =
    inr (inl (rest, ap (λ t. t ++ c ∷ rest) e ∙ ap (λ d. d ∷ rest) round))
IsTail-append out tail c rest (inl e) (inr (square, lacks)) =
    inr (inr ((rest, ap (λ t. t ++ c ∷ rest) e ∙ ap (λ d. d ∷ rest) square), lacks))
IsTail-append out tail c rest (inr (inl (t, e))) bracket =
    inr (inl (t ++ c ∷ rest, ap (λ t. t ++ c ∷ rest) e))
IsTail-append out tail c rest (inr (inr ((t, e), lacks))) bracket =
    inr (inr ((t ++ c ∷ rest, ap (λ t. t ++ c ∷ rest) e), lacks))

take-ne-nil : (i : ℕ) (s : Bytes) → suc i < length s → take (suc i) s ≢ []
take-ne-nil i [] h = absurd (omega arith)
take-ne-nil i (x ∷ s) h = λ e. cc

module _ (n : ℕ) (s : Bytes) where
  strip_brackets-stop :
      (last_bracket s ≡ none) ⊎ (last_bracket s ≡ some 0) → Unbracketed s (strip_brackets (suc n) s)
  unfolding strip_brackets
  strip_brackets-stop e =
      let same : strip_brackets (suc n) s ≡ s = ground arith in
      rw same (record {
        tail = [];
        split = sym (append-nil s);
        ends = inl refl;
        few = last_bracket-FewBrackets s e;
        kept = λ h. h;
      })

  strip_brackets-next :
      (i : ℕ)
      → last_bracket s ≡ some (suc i)
      → Unbracketed (take (suc i) s) (strip_brackets n (take (suc i) s))
      → Unbracketed s (strip_brackets (suc n) s)
  unfolding strip_brackets
  strip_brackets-next i e h =
      let same : strip_brackets (suc n) s ≡ strip_brackets n (take (suc i) s) = ground arith in
      let (c, whole, bracket) = last_bracket-split s (suc i) e in
      let more = c ∷ drop (suc (suc i)) s in
      rw same (record {
        tail = h.tail ++ more;
        split =
            whole
            ∙ ap (λ f. f ++ more) h.split
            ∙ append_assoc (strip_brackets n (take (suc i) s)) h.tail more;
        ends =
            IsTail-append (strip_brackets n (take (suc i) s)) h.tail c (drop (suc (suc i)) s) h.ends
              (elim bracket [
                | inl round ↦ inl round
                | inr (square, lacks) ↦ inr (
                  square,
                  (Lacks-parts b'(' (strip_brackets n (take (suc i) s)) h.tail
                      (subst (Lacks b'(') h.split (Lacks-take b'(' (suc i) s lacks))),
                )
              ]);
        few = h.few;
        kept = λ ne. h.kept (take-ne-nil i s (last_bracket-lt s (suc i) e));
      })

strip_brackets-step :
    (n : ℕ) (s : Bytes) (o : Option ℕ)
    → last_bracket s ≡ o
    → ((i : ℕ) → i < length s → Unbracketed (take i s) (strip_brackets n (take i s)))
    → Unbracketed s (strip_brackets (suc n) s)
strip_brackets-step n s none e next = strip_brackets-stop n s (inl e)
strip_brackets-step n s (some zero) e next = strip_brackets-stop n s (inr e)
strip_brackets-step n s (some (suc i)) e next =
    strip_brackets-next n s i e (next (suc i) (last_bracket-lt s (suc i) e))

-- This loop too ends by its test.
pub strip_brackets-Unbracketed :
    (n : ℕ) (s : Bytes) → length s ≤ n → Unbracketed s (strip_brackets n s)
strip_brackets-Unbracketed zero [] h =
    unfold strip_brackets in
    record {
      tail = [];
      split = refl;
      ends = inl refl;
      few = record { round = tt; square = λ _. tt };
      kept = λ ne. ne;
    }
strip_brackets-Unbracketed zero (x ∷ s) h = absurd (omega arith)
strip_brackets-Unbracketed (suc n) s h =
    strip_brackets-step n s (last_bracket s) refl
      (λ i lt. strip_brackets-Unbracketed n (take i s) (omega (arith, length-take i s)))

-- The text has one byte at most, or does not end in white space.
abbrev pub Trimmed : Bytes → Type 0
Trimmed s = (length s ≤ 1) ⊎ (isspace (get_or s (length s - 1) 0) ≡ false)

get_or-take : (k i : ℕ) (s : Bytes) → i < k → get_or (take k s) i 0 ≡ get_or s i 0
get_or-take zero i s h = absurd (omega arith)
get_or-take (suc k) i [] h = refl
get_or-take (suc k) zero (x ∷ s) h = refl
get_or-take (suc k) (suc i) (x ∷ s) h = get_or-take k i s (omega arith)

pub trim_spaces-Trimmed : (i : ℕ) (s : Bytes) → i < length s → Trimmed (trim_spaces i s)
unfolding trim_spaces
trim_spaces-Trimmed zero s h = inl (omega (arith, length-take 1 s))
trim_spaces-Trimmed (suc i) s h = elim (Bool-cases (isspace (get_or s (suc i) 0))) [
  | inl t ↦ rw t (trim_spaces-Trimmed i s (omega arith))
  | inr t ↦
      let last : length (take (suc (suc i)) s) - 1 ≡ suc i =
        omega (arith, length-take (suc (suc i)) s) in
      rw t (inr (rw (last, get_or-take (suc (suc i)) (suc i) s (omega arith)) t))
]

drop_cons : (i : ℕ) (s : Bytes) → i < length s → drop i s ≡ get_or s i 0 ∷ drop (suc i) s
drop_cons i [] h = absurd (omega arith)
drop_cons zero (x ∷ s) h = refl
drop_cons (suc i) (x ∷ s) h = drop_cons i s (omega arith)

-- What is trimmed is white space.
abbrev pub Spaces : Bytes → Type 0
Spaces [] = Unit
Spaces (c ∷ s) = (isspace c ≡ true) × Spaces s

pub trim_spaces-Spaces :
    (i : ℕ) (s : Bytes)
    → i < length s
    → Spaces (drop (suc i) s)
    → (spaces : Bytes) × (s ≡ trim_spaces i s ++ spaces) × Spaces spaces
unfolding trim_spaces
trim_spaces-Spaces zero s h sp = (drop 1 s, sym (take-append-drop 1 s), sp)
trim_spaces-Spaces (suc i) s h sp = elim (Bool-cases (isspace (get_or s (suc i) 0))) [
  | inl t ↦
      rw t
        (trim_spaces-Spaces i s (omega arith) (subst Spaces (sym (drop_cons (suc i) s h)) (t, sp)))
  | inr t ↦ rw t (drop (suc (suc i)) s, sym (take-append-drop (suc (suc i)) s), sp)
]

pub trim_spaces-ne : (i x : ℕ) (s : Bytes) → trim_spaces i (x ∷ s) ≢ []
unfolding trim_spaces
trim_spaces-ne zero x s = λ e. cc
trim_spaces-ne (suc i) x s = elim (Bool-cases (isspace (get_or (x ∷ s) (suc i) 0))) [
  | inl t ↦ rw t (trim_spaces-ne i x s)
  | inr t ↦ rw t (λ e. cc)
]
