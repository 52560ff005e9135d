-- ===== src/Minarch/Options/Parts.antt =====
-- The texts of a variable of a core: its name and its values.
use darkui.Base.{
  ℕ, zero, suc, false, ◌+◌, length, drop, get_or, take-append_left, ◌≡◌, ◌≢◌, refl, sym, ap, ◌∙◌,
  Bool-cases, inl, inr, List, [], ◌∷◌, ◌++◌, some, arith, ◌==◌, ==_iff, All,
}
use darkui.CString.{Bytes}
use darkui.CString.Search.{Lacks, strchr-append}
use darkui.Minarch.Options.{cons_part, split_bars, var_parts, vars_item}

-- The parts with a bar between each two.
abbrev pub join_bars : List Bytes → Bytes
join_bars [] = []
join_bars (part ∷ []) = part
join_bars (part ∷ next ∷ parts) = part ++ b'|' ∷ join_bars (next ∷ parts)

cons_part-All :
    (c : ℕ) (parts : List Bytes)
    → c ≢ b'|'
    → All (Lacks b'|') parts
    → (join_bars (cons_part c parts) ≡ c ∷ join_bars parts) × All (Lacks b'|') (cons_part c parts)
unfolding cons_part
cons_part-All c [] n h = (refl, ((n, tt), tt))
cons_part-All c (part ∷ []) n h = (refl, ((n, h.0), tt))
cons_part-All c (part ∷ next ∷ parts) n h = (refl, ((n, h.0), h.1))

split_bars-some :
    (s : Bytes) → (part : Bytes) × (parts : List Bytes) × (split_bars s ≡ part ∷ parts)
unfolding split_bars cons_part
split_bars-some [] = ([], [], refl)
split_bars-some (c ∷ s) = elim (Bool-cases (c == b'|')) [
  | inl t ↦ rw t ([], split_bars s, refl)
  | inr f ↦ let (part, parts, e) = split_bars-some s in rw f (rw e (c ∷ part, parts, refl))
]

-- The values of a variable are the texts between the bars: with the bars between them they are
-- the text again, and no value holds a bar.
pub split_bars-All : (s : Bytes) → (join_bars (split_bars s) ≡ s) × All (Lacks b'|') (split_bars s)
unfolding split_bars
split_bars-All [] = (refl, (tt, tt))
split_bars-All (c ∷ s) =
    let later = split_bars-All s in
    elim (Bool-cases (c == b'|')) [
      | inl t ↦
          let (part, parts, e) = split_bars-some s in
          let bar : c ≡ b'|' = (==_iff c b'|').0 t in
          rw t (
            rw e (ap (λ l. b'|' ∷ l) (ap join_bars (sym e) ∙ later.0) ∙ rw bar refl),
            (tt, later.1),
          )
      | inr f ↦
          let put = cons_part-All c (split_bars s) (λ e. absurd cc) later.1 in
          rw f (put.0 ∙ ap (◌∷◌ c) later.0, put.1)
    ]

-- Parts without bars are the values that a core's variable with these parts gets.
pub split_bars-join_bars :
    (part : Bytes) (parts : List Bytes)
    → All (Lacks b'|') (part ∷ parts)
    → split_bars (join_bars (part ∷ parts)) ≡ part ∷ parts
unfolding split_bars
split_bars-join_bars [] [] h = refl
split_bars-join_bars (c ∷ part) [] h =
    let later = split_bars-join_bars part [] (h.0.1, tt) in ground (arith, later, h.0.0)
split_bars-join_bars [] (next ∷ parts) h =
    let later = split_bars-join_bars next parts h.1 in ground (arith, later)
split_bars-join_bars (c ∷ part) (next ∷ parts) h =
    let later = split_bars-join_bars part (next ∷ parts) (h.0.1, h.1) in
    ground (arith, later, h.0.0)

drop-append_at : (m n : ℕ) (s rest : Bytes) → m ≡ length s + n → drop m (s ++ rest) ≡ drop n rest
drop-append_at m n [] rest e = ap (λ k. drop k rest) {x = m} {y = n} (omega arith)
drop-append_at zero n (c ∷ s) rest e = absurd (omega arith)
drop-append_at (suc m) n (c ∷ s) rest e = drop-append_at m n s rest (omega arith)

get_or-append_at :
    (m n : ℕ) (s rest : Bytes) → m ≡ length s + n → get_or (s ++ rest) m 0 ≡ get_or rest n 0
get_or-append_at m n [] rest e = ap (λ k. get_or rest k 0) {x = m} {y = n} (omega arith)
get_or-append_at zero n (c ∷ s) rest e = absurd (omega arith)
get_or-append_at (suc m) n (c ∷ s) rest e = get_or-append_at m n s rest (omega arith)

-- What a core says of an option, "Name; first|second", becomes the name and the values.
pub var_parts-append :
    (name opt : Bytes)
    → Lacks b';' name
    → var_parts (name ++ b';' ∷ b' ' ∷ opt) ≡ some (some name, opt)
unfolding var_parts
var_parts-append name opt h =
    rw
      (
        strchr-append b';' name (b' ' ∷ opt) h,
        var_parts,
        get_or-append_at (length name + 1) 1 name (b';' ∷ b' ' ∷ opt) refl,
        drop-append_at (length name + 2) 2 name (b';' ∷ b' ' ∷ opt) refl,
        take-append_left name (b';' ∷ b' ' ∷ opt),
      )
      refl

-- A variable of a core, written "Name; first|second", makes an option with this name and these
-- values, of which the first is chosen.
pub vars_item-join_bars :
    (key name part : Bytes) (parts : List Bytes)
    → Lacks b';' name
    → All (Lacks b'|') (part ∷ parts)
    → vars_item (key, name ++ b';' ∷ b' ' ∷ join_bars (part ∷ parts))
      ≡ some (record {
        key = key;
        name = some name;
        default_value = 0;
        value = 0;
        lock = false;
        values = part ∷ parts;
        labels = part ∷ parts;
      })
unfolding vars_item
vars_item-join_bars key name part parts n h =
    rw
      (
        var_parts-append name (join_bars (part ∷ parts)) n,
        split_bars-join_bars part parts h,
        vars_item,
      )
      refl
