-- ===== src/Minarch/Options/Chosen.antt =====
-- The value of an option, set by its text and read again.
use darkui.Base.{
  ℕ, suc, ◌+◌, ◌<◌, ◌≡◌, refl, sym, ap, ◌∙◌, ◌⊎◌, inl, inr, Bool, true, false, ◌||◌, List, [], ◌∷◌,
  Option, none, some, arith, if◌then◌else◌, length, get_elem?, Bool-cases, Option-cases,
}
use darkui.CString.{Bytes, equal}
use darkui.CString.Compare.{equal_iff}
use darkui.Minarch.Options.{
  OptionItem, OptionList, index_from, get_value_index, set_value, get_option, get_option_value,
  current, change_at, update_option, set_option_value,
}

-- The value is one of the list.
abbrev pub listed : Bytes → List Bytes → Bool
listed value [] = false
listed value (v ∷ values) = equal v value || listed value values

-- What a text chooses among the values: itself, and the first value where it is none of them.
abbrev pub chosen : List Bytes → Bytes → Option Bytes
chosen values value = if listed value values then some value else get_elem? values 0

-- The first item with the key.
abbrev pub found : List OptionItem → Bytes → Option OptionItem
found [] key = none
found (item ∷ options) key = if equal item.key key then some item else found options key

index_from-listed :
    (i : ℕ) (values : List Bytes) (value : Bytes)
    → listed value values ≡ true
    → (k : ℕ) × (index_from i values value ≡ i + k) × (get_elem? values k ≡ some value)
unfolding index_from
index_from-listed i [] value h = absurd cc
index_from-listed i (v ∷ values) value h = elim (Bool-cases (equal v value)) [
  | inl t ↦ rw t (0, omega arith, ap some ((equal_iff v value).0 t))
  | inr f ↦
      let (k, e, g) = index_from-listed (suc i) values value (rw f at h) in
      rw f (suc k, omega (arith, e), g)
]

index_from-unlisted :
    (i : ℕ) (values : List Bytes) (value : Bytes)
    → listed value values ≡ false
    → index_from i values value ≡ 0
unfolding index_from
index_from-unlisted i [] value h = refl
index_from-unlisted i (v ∷ values) value h =
    ground (arith, index_from-unlisted (suc i) values value)

current-set_value :
    (item : OptionItem) (value : Bytes) → current (set_value item value) ≡ chosen item.values value
unfolding current set_value get_value_index
current-set_value item value = elim (Bool-cases (listed value item.values)) [
  | inl t ↦
      let (k, e, g) = index_from-listed 0 item.values value t in
      rw (t, current, set_value, get_value_index)
        (ap (get_elem? item.values) {y = k} (e ∙ omega arith) ∙ g)
  | inr f ↦
      rw (f, current, set_value, get_value_index)
        (ap (get_elem? item.values) (index_from-unlisted 0 item.values value f))
]

index_from-length :
    (i : ℕ) (values : List Bytes) (value : Bytes)
    → (index_from i values value ≡ 0) ⊎ (index_from i values value < i + length values)
unfolding index_from
index_from-length i [] value = inl refl
index_from-length i (v ∷ values) value = ground (arith, index_from-length (suc i) values value)

-- An option that has values gets one of them, whatever the text says.
pub set_value-length :
    (item : OptionItem) (value : Bytes)
    → 0 < length item.values
    → (set_value item value).value < length item.values
unfolding set_value get_value_index
set_value-length item value h = ground (arith, index_from-length 0 item.values value)

abbrev map_option : (OptionItem → OptionItem) → Option OptionItem → Option OptionItem
map_option f none = none
map_option f (some item) = some (f item)

abbrev at_option : List OptionItem → Option ℕ → Option OptionItem
at_option options none = none
at_option options (some i) = get_elem? options i

-- `OptionList_getOption` points to the first item with the key.
get_option-found :
    (options : List OptionItem) (key : Bytes)
    → at_option options (get_option options key) ≡ found options key
unfolding get_option
get_option-found [] key = refl
get_option-found (item ∷ options) key =
    let later = get_option-found options key in
    elim (Bool-cases (equal item.key key)) [
      | inl t ↦ rw t
      | inr f ↦ rw f (elim (Option-cases (get_option options key)) [
        | inl n ↦ rw n (rw n at later)
        | inr (i, g) ↦ rw g (rw g at later)
      ])
    ]

abbrev changed_at : Option ℕ → (OptionItem → OptionItem) → List OptionItem → List OptionItem
changed_at none f options = options
changed_at (some i) f options = change_at i f options

pub equal_apart : (a b c : Bytes) → equal a b ≡ false → equal a c ≡ true → equal b c ≡ false
equal_apart a b c n t = elim (Bool-cases (equal b c)) [
  | inr f ↦ f
  | inl u ↦
      let same : a ≡ b = (equal_iff a c).0 t ∙ sym ((equal_iff b c).0 u) in
      absurd (ground (arith, n, (equal_iff a b).1 same))
]

found-changed_at :
    (options : List OptionItem) (key key' : Bytes) (f : OptionItem → OptionItem)
    → ((item : OptionItem) → (f item).key ≡ item.key)
    → found (changed_at (get_option options key) f options) key'
      ≡ (if equal key key' then map_option f (found options key) else found options key')
unfolding get_option
found-changed_at [] key key' f k = ground arith
found-changed_at (item ∷ options) key key' f k =
    let later = found-changed_at options key key' f k in
    let kept : equal (f item).key key' ≡ equal item.key key' = ap (λ a. equal a key') (k item) in
    elim (Bool-cases (equal item.key key)) [
      | inl t ↦
          let same : equal item.key key' ≡ equal key key' =
            ap (λ a. equal a key') ((equal_iff item.key key).0 t) in
          elim (Bool-cases (equal key key')) [
            | inl u ↦ rw (t, kept ∙ same ∙ u, u)
            | inr u ↦ rw (t, kept ∙ same ∙ u, same ∙ u, u)
          ]
      | inr n ↦ elim (Option-cases (get_option options key)) [
        | inl g ↦ elim (Bool-cases (equal item.key key')) [
          | inl t ↦ rw (n, g, t, equal_apart item.key key key' n t)
          | inr u ↦ rw (n, g, u) (rw g at later)
        ]
        | inr (i, g) ↦ elim (Bool-cases (equal item.key key')) [
          | inl t ↦ rw (n, g, t, equal_apart item.key key key' n t)
          | inr u ↦ rw (n, g, u) (rw g at later)
        ]
      ]
    ]

found-update_option :
    (tag : Bytes) (list : OptionList) (key key' : Bytes) (f : OptionItem → OptionItem)
    (frames palette_updated : ℕ)
    → ((item : OptionItem) → (f item).key ≡ item.key)
    → found (update_option tag list key f frames palette_updated).0.options key'
      ≡ (if equal key key' then map_option f (found list.options key) else found list.options key')
unfolding update_option
found-update_option tag list key key' f frames palette_updated k =
    let whole = found-changed_at list.options key key' f k in
    elim (Option-cases (get_option list.options key)) [
      | inl g ↦ rw (g, update_option) (rw g at whole)
      | inr (i, g) ↦ rw (g, update_option) (rw g at whole)
    ]

current_of : Option OptionItem → Option Bytes
current_of none = none
current_of (some item) = current item

get_option_value-found :
    (list : OptionList) (key : Bytes)
    → get_option_value list key ≡ current_of (found list.options key)
unfolding get_option_value current_of
get_option_value-found list key =
    let at = get_option-found list.options key in
    elim (Option-cases (get_option list.options key)) [
      | inl g ↦ rw (g, get_option_value) (ap current_of (rw g at at))
      | inr (i, g) ↦ rw (g, get_option_value) (ap current_of (rw g at at))
    ]

abbrev pub chosen_of : Option OptionItem → Bytes → Option Bytes
chosen_of none value = none
chosen_of (some item) value = chosen item.values value

-- Setting an option by its key gives it the text where this is one of its values, and its first
-- value where it is none; no other key's value changes, and an unknown key changes nothing.
pub get_option_value-set_option_value :
    (tag : Bytes) (list : OptionList) (key value key' : Bytes) (palette_updated : ℕ)
    → get_option_value (set_option_value tag list key value palette_updated).0 key' ≡ (
        if equal key key'
        then chosen_of (found list.options key) value
        else get_option_value list key')
unfolding set_option_value
get_option_value-set_option_value tag list key value key' palette_updated =
    let made = (set_option_value tag list key value palette_updated).0 in
    let f : OptionItem → OptionItem = λ item. set_value item value in
    get_option_value-found made key'
    ∙ ap current_of (
        found-update_option tag list key key' f 2 palette_updated
          (λ item. unfold set_value in refl))
    ∙ (elim (Bool-cases (equal key key')) [
      | inr u ↦ rw u (sym (get_option_value-found list key'))
      | inl u ↦ rw u (elim (Option-cases (found list.options key)) [
        | inl g ↦ rw g (unfold current_of in refl)
        | inr (item, g) ↦ rw g (unfold current_of in current-set_value item value)
      ])
    ])

pub set_option_value-some :
    (tag : Bytes) (list : OptionList) (key value : Bytes) (palette_updated i : ℕ)
    → get_option list.options key ≡ some i
    → (set_option_value tag list key value palette_updated).0.options
      ≡ change_at i (λ item. set_value item value) list.options
unfolding set_option_value update_option
set_option_value-some tag list key value palette_updated i g =
    rw (g, set_option_value, update_option)
