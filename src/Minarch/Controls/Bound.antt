-- ===== src/Minarch/Controls/Bound.antt =====
-- `button_labels`: what is written for a binding is read as the same binding.
use darkui.Base.{
  ℕ, zero, suc, ◌+◌, ◌<◌, ◌≡◌, refl, ap, subst, ◌∙◌, inl, inr, Bool, true, false, not, ◌&&◌, List,
  [], ◌∷◌, none, some, arith, length, get_elem?, Bool-cases, Option-cases, leb, All,
}
use darkui.CString.{Bytes, equal, before_last}
use darkui.CString.Compare.{equal_refl}
use darkui.CString.Search.{Lacks, strrchr-Lacks}
use darkui.Minarch.Values.{get_value}
use darkui.Minarch.Controls.{
  ButtonMapping, label_from, label_of, label_number, bind_value, with_id, id_of, button_labels,
  bind_key, read_control, read_shortcut,
}

-- No text of the list is equal to a later one, and none holds a `:`.
abbrev differs : Bytes → List Bytes → Bool
differs v [] = true
differs v (w ∷ values) = not (equal v w) && differs v values

abbrev pub distinct : List Bytes → Bool
distinct [] = true
distinct (v ∷ values) = differs v values && distinct values

pub differs-get_elem? :
    (v w : Bytes) (values : List Bytes) (k : ℕ)
    → differs v values ≡ true
    → get_elem? values k ≡ some w
    → equal v w ≡ false
differs-get_elem? v w [] k d g = absurd cc
differs-get_elem? v w (x ∷ values) zero d g = ground (arith, d, g)
differs-get_elem? v w (x ∷ values) (suc k) d g =
    differs-get_elem? v w values k (ground (arith, d)) g

-- In a list without doubles, a text is found at its place.
pub label_from-get_elem? :
    (j k : ℕ) (values : List Bytes) (v : Bytes)
    → distinct values ≡ true
    → get_elem? values k ≡ some v
    → label_from j values v ≡ some (j + k)
unfolding label_from
label_from-get_elem? j k [] v d g = absurd cc
label_from-get_elem? j zero (x ∷ values) v d g =
    let same : x ≡ v = ground (arith, g) in
    rw (ap (λ y. equal y v) same ∙ equal_refl v) (ap some {x = j} {y = j + 0} (omega arith))
label_from-get_elem? j (suc k) (x ∷ values) v d g =
    rw (differs-get_elem? x v values k (ground (arith, d)) g) (
      label_from-get_elem? (suc j) k values v (ground (arith, d)) g
      ∙ ap some {x = suc j + k} {y = j + suc k} (omega arith))

-- The binding is none, or that of one of the sixteen buttons, with MENU or without.
pub record IsBound (mapping : ButtonMapping) : Type 0 where
  pub none_plain : mapping.local ≡ none → mapping.mod_ ≡ false
  pub some_within : (id : ℕ) → mapping.local ≡ some id → id < 16

labels_distinct : distinct button_labels ≡ true
unfolding equal
labels_distinct = refl

get_elem?-lt :
    (values : List Bytes) (k : ℕ) → k < length values → (v : Bytes) × (get_elem? values k ≡ some v)
get_elem?-lt [] k h = absurd (omega arith)
get_elem?-lt (x ∷ values) zero h = (x, refl)
get_elem?-lt (x ∷ values) (suc k) h = get_elem?-lt values k (omega arith)

bind_value-label :
    (mapping : ButtonMapping) (k : ℕ) (v : Bytes)
    → get_elem? button_labels k ≡ some v
    → bind_value mapping v ≡ with_id mapping (id_of (some k))
unfolding bind_value
bind_value-label mapping k v g =
    ap (λ o. with_id mapping (id_of o))
      (label_from-get_elem? 0 k button_labels v labels_distinct g ∙ ap some {y = k} (omega arith))

-- the second mapping with the binding of the first
abbrev pub bound_as : ButtonMapping → ButtonMapping → ButtonMapping
bound_as mapping other = record other { local = mapping.local; mod_ = mapping.mod_ }

with_id-label_number :
    (mapping other : ButtonMapping)
    → IsBound mapping
    → with_id other (id_of (some (label_number mapping))) ≡ bound_as mapping other
with_id-label_number mapping other h = elim (Option-cases mapping.local) [
  | inl n ↦ rw (n, h.none_plain n) refl
  | inr (id, g) ↦
      let within = h.some_within id g in
      elim (Bool-cases mapping.mod_) [
        | inl t ↦
            rw (g, t)
              (ap (λ k. with_id other (id_of (some k))) {x = id + 1 + 16} {y = suc (id + 16)}
                  (omega arith)
                ∙ plus id)
        | inr f ↦
            rw (g, f)
              (ap (λ k. with_id other (id_of (some k))) {x = id + 1 + 0} {y = suc id} (omega arith)
                ∙ rw (lt→leb id within) refl)
      ]
]
  where
    lt→leb : (id : ℕ) → id < 16 → leb 16 id ≡ false
    lt→leb id h = ground arith

    plus : (id : ℕ) → with_id other (some (id + 16)) ≡ record other { local = some id; mod_ = true }
    plus id =
        let over : leb 16 (id + 16) ≡ true = ground arith in
        rw over (ap (λ k. record other { local = some k; mod_ = true }) {y = id} (omega arith))

label_number-lt : (mapping : ButtonMapping) → IsBound mapping → label_number mapping < 33
label_number-lt mapping h = elim (Option-cases mapping.local) [
  | inl n ↦ rw (n, h.none_plain n) (omega arith)
  | inr (id, g) ↦
      let within = h.some_within id g in
      elim (Bool-cases mapping.mod_) [
        | inl t ↦ rw (g, t) (omega arith)
        | inr f ↦ rw (g, f) (omega arith)
      ]
]

-- A binding is written by a label that is read as the same binding.
pub bind_value-label_of :
    (mapping other : ButtonMapping)
    → IsBound mapping
    → bind_value other (label_of mapping) ≡ bound_as mapping other
unfolding label_of
bind_value-label_of mapping other h =
    let (v, g) = get_elem?-lt button_labels (label_number mapping) (label_number-lt mapping h) in
    rw (g, label_of)
      (bind_value-label other (label_number mapping) v g ∙ with_id-label_number mapping other h)

labels_lack_colon : (k : ℕ) (v : Bytes) → get_elem? button_labels k ≡ some v → Lacks b':' v
labels_lack_colon k v g = All-get_elem? k button_labels v all_lack g
  where
    all_lack : All (Lacks b':') button_labels
    all_lack = ground arith

    All-get_elem? :
        (k : ℕ) (values : List Bytes) (v : Bytes)
        → All (Lacks b':') values
        → get_elem? values k ≡ some v
        → Lacks b':' v
    All-get_elem? k [] v h g = absurd cc
    All-get_elem? zero (x ∷ values) v h g =
        let same : x ≡ v = ground (arith, g) in subst (Lacks b':') same h.0
    All-get_elem? (suc k) (x ∷ values) v h g = All-get_elem? k values v h.1 g

label_of-Lacks : (mapping : ButtonMapping) → IsBound mapping → Lacks b':' (label_of mapping)
unfolding label_of
label_of-Lacks mapping h =
    let (v, g) = get_elem?-lt button_labels (label_number mapping) (label_number-lt mapping h) in
    rw (g, label_of) (labels_lack_colon (label_number mapping) v g)

-- A configuration that gives the label of a binding to its button binds another button of this
-- name the same way, among the controls and among the shortcuts.
pub read_control-label_of :
    (cfg : Bytes) (mapping other : ButtonMapping)
    → IsBound mapping
    → (get_value cfg (bind_key other)).0 ≡ some (label_of mapping)
    → (read_control cfg other ≡ bound_as mapping other)
      × (read_shortcut cfg other ≡ bound_as mapping other)
unfolding read_control read_shortcut
read_control-label_of cfg mapping other h g =
    let kept : before_last (label_of mapping) b':' ≡ label_of mapping =
      unfold before_last in
      rw (strrchr-Lacks b':' (label_of mapping) (label_of-Lacks mapping h), before_last) refl in
    (
      rw (g, read_control) (ap (bind_value other) kept ∙ bind_value-label_of mapping other h),
      rw (g, read_shortcut) (bind_value-label_of mapping other h),
    )
