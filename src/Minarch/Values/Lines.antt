-- ===== src/Minarch/Values/Lines.antt =====
-- A configuration of lines `key = value`: the first line that holds the key gives its value.
use darkui.Base.{
  ℕ, zero, suc, ◌+◌, ◌-◌, ◌≤◌, ◌≡◌, ◌≢◌, refl, ap, ◌∙◌, inl, inr, true, false, [], ◌∷◌, ◌++◌,
  Option, none, some, arith, length, drop, take, Bool-cases, take-append_left, drop-append_left,
}
use darkui.CString.{Bytes, bytes}
use darkui.CString.Search.{Lacks, strchr-append}
use darkui.Minarch.Values.{starts, scan, cut_line, value_line}

-- A key of one line is found within a line or not at all.
starts-line : (key s rest : Bytes) → Lacks b'\n' key → starts key (s ++ b'\n' ∷ rest) ≡ starts key s
unfolding starts
starts-line [] s rest h = ground arith
starts-line (k ∷ key) [] rest h = ground arith
starts-line (k ∷ key) (c ∷ s) rest h = ground (arith, starts-line key s rest h.1)

pub starts-length : (key s : Bytes) → starts key s ≡ true → length key ≤ length s
unfolding starts
starts-length [] s h = omega arith
starts-length (k ∷ key) [] h = absurd cc
starts-length (k ∷ key) (c ∷ s) h = ground (arith, starts-length key s)

drop-line : (n : ℕ) (s rest : Bytes) → n ≤ length s → drop n (s ++ rest) ≡ drop n s ++ rest
drop-line zero s rest h = refl
drop-line (suc n) [] rest h = absurd (omega arith)
drop-line (suc n) (c ∷ s) rest h = drop-line n s rest (omega arith)

starts-append : (key rest : Bytes) → starts key (key ++ rest) ≡ true
unfolding starts
starts-append [] rest = refl
starts-append (k ∷ key) rest = ground (arith, starts-append key rest)

-- What is found does not depend on the byte before the text.
scan-prev : (key : Bytes) (p q n : ℕ) (s : Bytes) → (scan key p n s).0 ≡ (scan key q n s).0
unfolding scan
scan-prev key p q n [] = refl
scan-prev key p q (suc n) (c ∷ s) = refl
scan-prev key p q zero (c ∷ s) = elim (Bool-cases (starts key (c ∷ s))) [
  | inr f ↦ rw f
  | inl t ↦ rw t (elim (Bool-cases (starts (bytes " = ") (drop (length key) (c ∷ s)))) [
    | inl e ↦ rw e
    | inr f ↦ rw f
  ])
]

-- What a line and the lines behind it give.
abbrev pub or_later : Option Bytes → Bytes → Option Bytes → Option Bytes
or_later none rest later = later
or_later (some v) rest later = some (v ++ b'\n' ∷ rest)

starts-newline : (key s : Bytes) → key ≢ [] → Lacks b'\n' key → starts key (b'\n' ∷ s) ≡ false
unfolding starts
starts-newline [] s e h = absurd (e refl)
starts-newline (k ∷ key) s e h = ground (arith, h.0)

sign-Lacks : Lacks b'\n' (bytes " = ")
sign-Lacks = ground arith

-- The search passes from a line that does not hold the key into the next.
pub scan-line :
    (key : Bytes) (prev n : ℕ) (s rest : Bytes)
    → key ≢ []
    → Lacks b'\n' key
    → n ≤ length s
    → (scan key prev n (s ++ b'\n' ∷ rest)).0
      ≡ or_later (scan key prev n s).0 rest (scan key 0 0 rest).0
unfolding scan
scan-line key prev zero [] rest e h le =
    rw (starts-newline key rest e h) (scan-prev key b'\n' 0 0 rest)
scan-line key prev (suc n) [] rest e h le = absurd (omega arith)
scan-line key prev (suc n) (c ∷ s) rest e h le = scan-line key c n s rest e h (omega arith)
scan-line key prev zero (c ∷ s) rest e h le = elim (Bool-cases (starts key (c ∷ s))) [
  | inr f ↦ rw (starts-line key (c ∷ s) rest h, f) (scan-line key c 0 s rest e h (omega arith))
  | inl t ↦
      let fits = starts-length key (c ∷ s) t in
      let skips : length key - 1 ≤ length s = omega (arith, fits) in
      let later = scan-line key c (length key - 1) s rest e h skips in
      let behind : Bytes = drop (length key) (c ∷ s) in
      rw (starts-line key (c ∷ s) rest h, t, drop-line (length key) (c ∷ s) (b'\n' ∷ rest) fits)
        (rw (starts-line (bytes " = ") behind rest sign-Lacks)
          (elim (Bool-cases (starts (bytes " = ") behind)) [
            | inr f ↦ rw f later
            | inl g ↦
                rw (g, drop-line 3 behind (b'\n' ∷ rest) (starts-length (bytes " = ") behind g))
          ]))
]

-- The key at the start of a line gives the text behind " = ".
pub scan-key :
    (key v : Bytes) (p : ℕ) → key ≢ [] → (scan key p 0 (key ++ (bytes " = " ++ v))).0 ≡ some v
unfolding scan
scan-key [] v p e = absurd (e refl)
scan-key (k ∷ key) v p e =
    rw (starts-append (k ∷ key) (bytes " = " ++ v), drop-append_left key (bytes " = " ++ v)) refl

take-append_cons :
    (n m : ℕ) (v rest : Bytes) (c : ℕ)
    → n ≡ length v + m
    → take (suc n) (v ++ c ∷ rest) ≡ v ++ c ∷ take m rest
take-append_cons n m [] rest c h = ap (λ k. c ∷ take k rest) {x = n} {y = m} (omega arith)
take-append_cons zero m (x ∷ v) rest c h = absurd (omega arith)
take-append_cons (suc n) m (x ∷ v) rest c h =
    ap (◌∷◌ x) (take-append_cons n m v rest c (omega arith))

cut_line-append : (v rest : Bytes) → Lacks b'\n' v → cut_line (v ++ b'\n' ∷ rest) ≡ v
unfolding cut_line
cut_line-append v rest h =
    rw (strchr-append b'\n' v rest h, cut_line) (take-append_left v (b'\n' ∷ rest))

-- A value of one line that is not too long is cut at the end of its line.
pub value_line-append :
    (v rest : Bytes) → Lacks b'\n' v → length v ≤ 254 → value_line (v ++ b'\n' ∷ rest) ≡ v
value_line-append v rest h le =
    let room : ℕ = 254 - length v in
    ap cut_line (take-append_cons 254 room v rest b'\n' (omega arith))
    ∙ cut_line-append v (take room rest) h
