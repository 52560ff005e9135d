-- ===== src/Launcher/Entries/Sorting.antt =====
-- `EntryArray_sort` orders the entries by their names, without case, and loses none.
use mathlib.Core.List.{Perm}
use mathlib.Core.List.Perm
use darkui.Base.{
  ◌≢◌, ◌<◌, ◌⊎◌, ◌≡◌, inl, inr, true, false, Bool-cases, List, [], ◌∷◌, Ordering, arith, All, refl,
}
use darkui.CString.{Bytes, tolower, strcasecmp, qsort, qsort_insert}
use darkui.Launcher.Entries.{Entry, in_order, sort_entries}

-- Of any two texts one is not behind the other.
strcasecmp-total : (a b : Bytes) → strcasecmp a b ≡ Ordering.gt → strcasecmp b a ≡ Ordering.lt
unfolding strcasecmp
strcasecmp-total [] [] h = cc
strcasecmp-total [] (y ∷ b) h = cc
strcasecmp-total (x ∷ a) [] h = refl
strcasecmp-total (x ∷ a) (y ∷ b) h = ground (arith, strcasecmp-total a b)

-- The order of names in a dictionary that disregards case: the first byte that differs in lower
-- case decides, and a name that ends before is first.
unfoldable pub IsBefore : Bytes → Bytes → Type 0
IsBefore [] b = Unit
IsBefore (x ∷ a) [] = ⊥
IsBefore (x ∷ a) (y ∷ b) = (tolower x < tolower y) ⊎ ((tolower x ≡ tolower y) × IsBefore a b)

strcasecmp-IsBefore : (a b : Bytes) → (strcasecmp a b ≢ Ordering.gt) → IsBefore a b
unfolding strcasecmp IsBefore
strcasecmp-IsBefore [] b h = tt
strcasecmp-IsBefore (x ∷ a) [] h = h refl
strcasecmp-IsBefore (x ∷ a) (y ∷ b) h = ground (arith, strcasecmp-IsBefore a b)

in_order-IsBefore : (e f : Entry) → in_order e f ≡ true → IsBefore e.name f.name
unfolding in_order
in_order-IsBefore e f h = strcasecmp-IsBefore e.name f.name (λ g. ground (arith, g, h))

in_order-total : (e f : Entry) → in_order e f ≡ false → in_order f e ≡ true
unfolding in_order
in_order-total e f h = ground (arith, strcasecmp-total e.name f.name)

-- The entry may stand in front of the list.
abbrev pub Front : Entry → List Entry → Type 0
Front e [] = Unit
Front e (f ∷ entries) = IsBefore e.name f.name

abbrev pub Sorted : List Entry → Type 0
Sorted [] = Unit
Sorted (e ∷ entries) = Front e entries × Sorted entries

qsort_insert-Front :
    (e f : Entry) (entries : List Entry)
    → IsBefore f.name e.name
    → Front f entries
    → Front f (qsort_insert in_order e entries)
unfolding qsort_insert
qsort_insert-Front e f [] h k = h
qsort_insert-Front e f (g ∷ entries) h k = elim (Bool-cases (in_order e g)) [
  | inl t ↦ rw t h
  | inr t ↦ rw t k
]

qsort_insert-Sorted :
    (e : Entry) (entries : List Entry) → Sorted entries → Sorted (qsort_insert in_order e entries)
unfolding qsort_insert
qsort_insert-Sorted e [] s = (tt, tt)
qsort_insert-Sorted e (f ∷ entries) s =
    let rest = qsort_insert-Sorted e entries s.1 in
    elim (Bool-cases (in_order e f)) [
      | inl t ↦ rw t (in_order-IsBefore e f t, s)
      | inr t ↦
          rw t (
            qsort_insert-Front e f entries (in_order-IsBefore f e (in_order-total e f t)) s.0,
            rest,
          )
    ]

qsort_insert-Perm :
    (e : Entry) (entries : List Entry) → Perm (qsort_insert in_order e entries) (e ∷ entries)
unfolding qsort_insert
qsort_insert-Perm e [] = Perm.refl (e ∷ [])
qsort_insert-Perm e (f ∷ entries) =
    let rest = qsort_insert-Perm e entries in
    elim (Bool-cases (in_order e f)) [
      | inl t ↦ rw t (Perm.refl (e ∷ f ∷ entries))
      | inr t ↦ rw t (Perm.trans (Perm.cons f rest) (Perm.swap e f entries))
    ]

-- Sorting leaves the same entries, each as often as before, and no entry behind one whose name
-- comes later in the order that disregards case.
pub sort_entries-Sorted :
    (entries : List Entry) → Sorted (sort_entries entries) × Perm (sort_entries entries) entries
unfolding sort_entries qsort
sort_entries-Sorted [] = (tt, Perm.refl [])
sort_entries-Sorted (e ∷ entries) =
    let (sorted, same) = sort_entries-Sorted entries in
    (
      qsort_insert-Sorted e (sort_entries entries) sorted,
      Perm.trans (qsort_insert-Perm e (sort_entries entries)) (Perm.cons e same),
    )

qsort_insert-All :
    (P : Entry → Type 0) (e : Entry) (entries : List Entry)
    → P e
    → All P entries
    → All P (qsort_insert in_order e entries)
unfolding qsort_insert
qsort_insert-All P e [] h a = (h, tt)
qsort_insert-All P e (f ∷ entries) h a =
    let rest = qsort_insert-All P e entries h a.1 in
    elim (Bool-cases (in_order e f)) [ inl t ↦ rw t (h, a) | inr t ↦ rw t (a.0, rest) ]

pub sort_entries-All :
    (P : Entry → Type 0) (entries : List Entry) → All P entries → All P (sort_entries entries)
unfolding sort_entries qsort
sort_entries-All P [] a = tt
sort_entries-All P (e ∷ entries) a =
    qsort_insert-All P e (sort_entries entries) a.0 (sort_entries-All P entries a.1)
