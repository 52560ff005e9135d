-- ===== src/Launcher/Index/Alphas.antt =====
-- The index of first letters points to entries, and to the right ones.
use darkui.Base.{
  ℕ, ◌+◌, ◌≤◌, ◌<◌, ◌≡◌, ◌≢◌, suc, ◌⊎◌, inl, inr, true, false, Bool-cases, List, [], ◌∷◌, Option,
  none, some, leb, ltb, refl, sym, ap, ◌∙◌, arith, length, get_or, set, get_or-set, length-set,
}
use darkui.Collections.{IntArray, int_array_push, int_array_max}
use darkui.Collections.Maps.{IsSized}
use darkui.Launcher.Entries.{Entry}
use darkui.Launcher.Index.{Letters, get_index_char, same_letter, letter_step, index_letters}
use darkui.Launcher.Selection.InView.{PointsInto}

-- What one step does to the index.
record Stepped (i : ℕ) (l l' : Letters) : Type 0 where
  sized : IsSized l'.alphas
  points : PointsInto (i + 1) l'.alphas
  grows : l.alphas.count ≤ l'.alphas.count
  bounded : l'.index ≤ l'.alphas.count
  keeps : (k : ℕ) → k < l.alphas.count → get_or l'.alphas.items k 0 ≡ get_or l.alphas.items k 0

letter_step-Stepped :
    (i : ℕ) (entry : Entry) (l : Letters)
    → IsSized l.alphas
    → PointsInto i l.alphas
    → l.index ≤ l.alphas.count
    → Stepped i l (letter_step i entry l)
unfolding letter_step int_array_push
letter_step-Stepped i entry l s p b =
    elim (Bool-cases (same_letter l.alpha (get_index_char entry.name))) [
      | inl t ↦ rw t (record {
        sized = s;
        points = λ k h. omega (arith, p k h);
        grows = omega arith;
        bounded = b;
        keeps = λ k h. refl;
      })
      | inr t ↦ elim (Bool-cases (leb int_array_max l.alphas.count)) [
        | inl full ↦
            rw (t, full)
              (record {
                sized = s;
                points = λ k h. omega (arith, p k h);
                grows = omega arith;
                bounded = omega arith;
                keeps = λ k h. refl;
              })
        | inr room ↦
            rw (t, room)
              (record {
                sized = record {
                  block = length-set l.alphas.items l.alphas.count i ∙ s.block;
                  within = ground (arith, s.within);
                };
                points = λ k h.
                    ground (arith, p k, get_or-set l.alphas.items l.alphas.count k i 0, s.block);
                grows = omega arith;
                bounded = omega arith;
                keeps = λ k h. ground (arith, get_or-set l.alphas.items l.alphas.count k i 0);
              })
      ]
    ]

-- The current group, whose letter is `alpha`, reaches from the place that `index` points to up to
-- the place `i`, behind an entry of another letter if any; `letter j` is the letter of the entry at
-- place `j`.
pub record Grouped (letter : ℕ → ℕ) (i : ℕ) (l : Letters) : Type 0 where
  pub pinned : (l.alpha ≡ none) ⊎ ((l.index < l.alphas.count) ⊎ (l.alphas.count ≡ int_array_max))
  pub start : l.index < l.alphas.count → get_or l.alphas.items l.index 0 < i
  pub same :
      l.index < l.alphas.count
      → (j : ℕ) → get_or l.alphas.items l.index 0 ≤ j
      → j < i
      → l.alpha ≡ some (letter j)
  pub last : (j : ℕ) → suc j ≡ i → l.alpha ≡ some (letter j)
  pub first :
      l.index < l.alphas.count
      → (j : ℕ) → suc j ≡ get_or l.alphas.items l.index 0
      → letter j ≢ letter (suc j)

same_letter-some : (o : Option ℕ) (a : ℕ) → same_letter o a ≡ true → o ≡ some a
unfolding same_letter
same_letter-some none a h = cc
same_letter-some (some b) a h = ap some (ground arith)

same_letter-other : (o : Option ℕ) (a b : ℕ) → same_letter o a ≡ false → o ≡ some b → b ≢ a
unfolding same_letter
same_letter-other none a b h e = absurd cc
same_letter-other (some c) a b h e = let same : c ≡ b = cc in ground (arith, same)

letter_at : (letter : ℕ → ℕ) (a i j : ℕ) → letter i ≡ a → i ≡ j → some a ≡ some (letter j)
letter_at letter a i j h e = ap some (sym h ∙ ap letter e)

letter_step-Grouped :
    (letter : ℕ → ℕ) (i : ℕ) (entry : Entry) (l : Letters)
    → IsSized l.alphas
    → letter i ≡ get_index_char entry.name
    → Grouped letter i l
    → Grouped letter (i + 1) (letter_step i entry l)
unfolding letter_step int_array_push
letter_step-Grouped letter i entry l s at g =
    let a = get_index_char entry.name in
    elim (Bool-cases (same_letter l.alpha a)) [
      | inl t ↦
          let known = same_letter-some l.alpha a t in
          rw t (record {
            pinned = elim g.pinned [ inl e ↦ absurd cc | inr p ↦ inr p ];
            start = λ h. omega (arith, g.start h);
            same = λ h j k b. elim (Bool-cases (ltb j i)) [
              | inl before ↦ g.same h j k (ground arith)
              | inr now ↦ known ∙ letter_at letter a i j at (ground arith)
            ];
            last = λ j e. known ∙ letter_at letter a i j at (omega (arith, e));
            first = g.first;
          })
      | inr t ↦ elim (Bool-cases (leb int_array_max l.alphas.count)) [
        | inl full ↦
            rw (t, full)
              (record {
                pinned = inr (inr (ground (arith, s.within)));
                start = λ h. absurd (omega arith);
                same = λ h j k b. absurd (omega arith);
                last = λ j e. letter_at letter a i j at (omega (arith, e));
                first = λ h j k. absurd (omega arith);
              })
        | inr room ↦
            let put : get_or (set l.alphas.items l.alphas.count i) l.alphas.count 0 ≡ i =
              ground
                (arith, get_or-set l.alphas.items l.alphas.count l.alphas.count i 0, s.block) in
            rw (t, room)
              (record {
                pinned = inr (inl (omega arith));
                start = λ h. omega (arith, put);
                same = λ h j k b. letter_at letter a i j at (omega (arith, put));
                last = λ j e. letter_at letter a i j at (omega (arith, e));
                first = λ h j k e.
                    let next : suc j ≡ i = k ∙ put in
                    same_letter-other l.alpha a (letter j) t (g.last j next)
                      (e ∙ ap letter next ∙ at);
              })
      ]
    ]

-- The entry at place `k`: its `alpha` is in the index, or the index is full; where the index has
-- it, it points to the first of a run of entries of the same letter that reaches up to this one.
pub record IsIndexed (letter : ℕ → ℕ) (alphas : IntArray) (k : ℕ) (e : Entry) : Type 0 where
  pub bounded : (e.alpha < alphas.count) ⊎ (e.alpha ≡ int_array_max)
  pub start : e.alpha < alphas.count → get_or alphas.items e.alpha 0 ≤ k
  pub same :
      e.alpha < alphas.count
      → (j : ℕ) → get_or alphas.items e.alpha 0 ≤ j
      → j ≤ k
      → letter j ≡ letter k
  pub first :
      e.alpha < alphas.count
      → (j : ℕ) → suc j ≡ get_or alphas.items e.alpha 0
      → letter j ≢ letter (suc j)

abbrev pub AllFrom : (ℕ → Entry → Type 0) → ℕ → List Entry → Type 0
AllFrom P i [] = Unit
AllFrom P i (e ∷ entries) = P i e × AllFrom P (i + 1) entries

-- The entries from place `i` on have the letters that `letter` says.
abbrev pub Spelled : (ℕ → ℕ) → ℕ → List Entry → Type 0
Spelled letter i entries = AllFrom (λ k e. letter k ≡ get_index_char e.name) i entries

pub record Indexed (letter : ℕ → ℕ) (i n : ℕ) (l : Letters) (out : List Entry × IntArray)
    : Type 0 where
  pub sized : IsSized out.1
  pub points : PointsInto (i + n) out.1
  pub grows : l.alphas.count ≤ out.1.count
  pub keeps : (k : ℕ) → k < l.alphas.count → get_or out.1.items k 0 ≡ get_or l.alphas.items k 0
  pub entries : AllFrom (IsIndexed letter out.1) i out.0

letter_step-alpha :
    (i : ℕ) (e : Entry) (l : Letters) → (letter_step i e l).alpha ≡ some (get_index_char e.name)
unfolding letter_step
letter_step-alpha i e l = elim (Bool-cases (same_letter l.alpha (get_index_char e.name))) [
  | inl t ↦ rw t (same_letter-some l.alpha (get_index_char e.name) t)
  | inr t ↦ rw t refl
]

some_injective : (a b : ℕ) → some a ≡ some b → a ≡ b
some_injective a b h = cc

index-IsIndexed :
    (letter : ℕ → ℕ) (i n a : ℕ) (l' : Letters) (out : List Entry × IntArray) (e : Entry)
    → l'.alpha ≡ some a
    → letter i ≡ a
    → l'.index ≤ l'.alphas.count
    → Grouped letter (i + 1) l'
    → Indexed letter (i + 1) n l' out
    → IsIndexed letter out.1 i (record e { alpha = l'.index })
index-IsIndexed letter i n a l' out e known at b g rest =
    let place : (l'.index < l'.alphas.count) ⊎ (l'.alphas.count ≡ int_array_max) = elim g.pinned [
      | inl none_yet ↦ absurd cc
      | inr p ↦ p
    ] in
    let early : l'.index < out.1.count → l'.index < l'.alphas.count =
      λ h. elim place [ inl lt ↦ lt | inr full ↦ omega (arith, h, full, rest.sized.within) ] in
    record {
      bounded = ground (arith, place, b, rest.grows, rest.sized.within);
      start = λ h. omega (arith, rest.keeps l'.index (early h), g.start (early h));
      same = λ h j k m. some_injective (letter j) (letter i) (
          sym (g.same (early h) j (omega (arith, rest.keeps l'.index (early h))) (omega arith))
          ∙ known
          ∙ ap some (sym at));
      first = λ h j k. g.first (early h) j (k ∙ rest.keeps l'.index (early h));
    }

pub index_letters-Indexed :
    (letter : ℕ → ℕ) (i : ℕ) (l : Letters) (entries : List Entry)
    → IsSized l.alphas
    → PointsInto i l.alphas
    → l.index ≤ l.alphas.count
    → Grouped letter i l
    → Spelled letter i entries
    → Indexed letter i (length entries) l (index_letters i l entries)
unfolding index_letters
index_letters-Indexed letter i l [] s p b g at = record {
  sized = s;
  points = λ k h. omega (arith, p k h);
  grows = omega arith;
  keeps = λ k h. refl;
  entries = tt;
}
index_letters-Indexed letter i l (e ∷ entries) s p b g at =
    let l' = letter_step i e l in
    let step = letter_step-Stepped i e l s p b in
    let group = letter_step-Grouped letter i e l s at.0 g in
    let rest =
      index_letters-Indexed letter (i + 1) l' entries step.sized step.points step.bounded group
        at.1 in
    record {
      sized = rest.sized;
      points = λ k h. omega (arith, rest.points k h);
      grows = omega (arith, rest.grows, step.grows);
      keeps = λ k h. rest.keeps k (omega (arith, h, step.grows)) ∙ step.keeps k h;
      entries = (
        index-IsIndexed letter i (length entries) (get_index_char e.name) l'
            (index_letters (i + 1) l' entries) e (letter_step-alpha i e l) at.0 step.bounded group
            rest,
        rest.entries,
      );
    }
