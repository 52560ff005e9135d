-- ===== src/Launcher/Index/Unique.antt =====
-- The labels: which entries get one.
use darkui.Base.{
  ◌≡◌, Bool, true, false, Bool-cases, inl, inr, List, [], ◌∷◌, none, some, refl, sym, ap, subst,
  ◌||◌, arith, All,
}
use darkui.CString.{Bytes}
use darkui.Names.{Platform, exact_match}
use darkui.Launcher.Entries.{Entry}
use darkui.Launcher.Index.{label_first, label_second, label_from, label}

-- whether the list begins with an entry of this name
abbrev pub begins : Bytes → List Entry → Bool
begins name [] = false
begins name (entry ∷ entries) = exact_match name entry.name

-- `labelled before entries out`: the entries of `out` are those of `entries`, with a label exactly
-- on those whose name a neighbour shares; `before` says that the first shares the one before it.
abbrev pub Labelled : Bool → List Entry → List Entry → Type 0
Labelled before [] [] = Unit
Labelled before [] (o ∷ out) = ⊥
Labelled before (e ∷ entries) [] = ⊥
Labelled before (e ∷ entries) (o ∷ out) =
    (o.path ≡ e.path)
    × (o.name ≡ e.name)
    × ((before || begins e.name entries ≡ false) → o.unique ≡ none)
    × ((before || begins e.name entries ≡ true) → (l : Bytes) × (o.unique ≡ some l))
    × Labelled (begins e.name entries) entries out

label_from-Labelled :
    (p : Platform) (before : Bool) (e prior : Entry) (entries : List Entry)
    → prior.path ≡ e.path
    → prior.name ≡ e.name
    → (before ≡ false → prior.unique ≡ none)
    → (before ≡ true → (l : Bytes) × (prior.unique ≡ some l))
    → All (λ (x : Entry). x.unique ≡ none) entries
    → Labelled before (e ∷ entries) (label_from p prior entries)
unfolding label_from label_first label_second
label_from-Labelled p before e prior [] path name plain shared rest =
    (path, name, λ h. plain (ground arith), λ h. shared (ground arith), tt)
label_from-Labelled p before e prior (f ∷ entries) path name plain shared rest =
    let same : exact_match prior.name f.name ≡ exact_match e.name f.name =
      ap (λ n. exact_match n f.name) name in
    let on =
      label_from-Labelled p true f (label_second p prior f) entries refl refl (λ h. cc)
        (λ h. (_, refl)) rest.1 in
    let off = label_from-Labelled p false f f entries refl refl (λ h. rest.0) (λ h. cc) rest.1 in
    elim (Bool-cases (exact_match e.name f.name)) [
      | inl t ↦
          rw (same, t)
            (
              path,
              name,
              λ h. absurd (ground arith),
              λ h. (_, refl),
              subst (λ b. Labelled b (f ∷ entries) (label_from p (label_second p prior f) entries))
                  (sym t) on,
            )
      | inr t ↦
          rw (same, t)
            (
              path,
              name,
              λ h. plain (ground arith),
              λ h. shared (ground arith),
              subst (λ b. Labelled b (f ∷ entries) (label_from p f entries)) (sym t) off,
            )
    ]

-- After the labelling the same entries stand in the same order under the same names, and exactly
-- those have a label whose name is also the name of a neighbour, if there was no label before.
pub label-Labelled :
    (p : Platform) (entries : List Entry)
    → All (λ (x : Entry). x.unique ≡ none) entries
    → Labelled false entries (label p entries)
unfolding label
label-Labelled p [] rest = tt
label-Labelled p (e ∷ entries) rest =
    label_from-Labelled p false e e entries refl refl (λ h. rest.0) (λ h. cc) rest.1
