-- ===== src/Minarch/Config/Written.antt =====
-- The options of a core: read one after the other, and read again as they were written.
use darkui.Base.{
  ℕ, suc, ◌≡◌, refl, sym, ap, ◌∙◌, inl, inr, Bool, true, false, List, [], ◌∷◌, ◌++◌, map,
  append_assoc, none, some, arith, length, length-append, get_elem?, All, Option-cases,
}
use darkui.CString.{Bytes, equal}
use darkui.CString.Compare.{equal_iff}
use darkui.Minarch.Values.{get_value}
use darkui.Minarch.Options.{OptionItem, change_at, get_option, set_option_value, set_value}
use darkui.Minarch.Options.Chosen.{set_option_value-some}
use darkui.Minarch.Config.{Config, Place, for_each, locked, read_core_option}

-- What a configuration makes of an option: the value it gives to its key, or the value that it
-- has.
abbrev pub read_item : Bytes → OptionItem → OptionItem
read_item cfg item = elim (get_value cfg item.key).0 [
  | none ↦ locked (get_value cfg item.key).1 item
  | some value ↦ set_value (locked (get_value cfg item.key).1 item) value
]

-- No item has the key.
abbrev pub HasNone : Bytes → List OptionItem → Type 0
HasNone key options = All (λ o. equal o.key key ≡ false) options

-- Every two items have different keys.
abbrev pub AreKeyed : List OptionItem → Type 0
AreKeyed [] = Unit
AreKeyed (item ∷ options) = All (λ o. equal item.key o.key ≡ false) options × AreKeyed options

get_elem?-middle :
    (done rest : List OptionItem) (item : OptionItem)
    → get_elem? (done ++ item ∷ rest) (length done) ≡ some item
get_elem?-middle [] rest item = refl
get_elem?-middle (d ∷ done) rest item = get_elem?-middle done rest item

change_at-middle :
    (done rest : List OptionItem) (item : OptionItem) (f : OptionItem → OptionItem)
    → change_at (length done) f (done ++ item ∷ rest) ≡ done ++ f item ∷ rest
change_at-middle [] rest item f = refl
change_at-middle (d ∷ done) rest item f = ap (◌∷◌ d) (change_at-middle done rest item f)

get_option-middle :
    (done rest : List OptionItem) (item : OptionItem) (key : Bytes)
    → HasNone key done
    → item.key ≡ key
    → get_option (done ++ item ∷ rest) key ≡ some (length done)
unfolding get_option
get_option-middle [] rest item key h e = ground (arith, (equal_iff item.key key).1 e)
get_option-middle (d ∷ done) rest item key h e =
    ground (arith, h.0, get_option-middle done rest item key h.1 e)

locked_key : (lock : Bool) (item : OptionItem) → (locked lock item).key ≡ item.key
locked_key true item = refl
locked_key false item = refl

-- One round of the loop changes the one item.
read_core_option-middle :
    (place : Place) (cfg : Bytes) (config : Config) (done rest : List OptionItem)
    (item : OptionItem)
    → config.core.options ≡ done ++ item ∷ rest
    → HasNone item.key done
    → (read_core_option place cfg (length done) config).core.options
      ≡ done ++ read_item cfg item ∷ rest
unfolding read_core_option
read_core_option-middle place cfg config done rest item e h =
    let item' : OptionItem = locked (get_value cfg item.key).1 item in
    let at : get_option (done ++ item' ∷ rest) item.key ≡ some (length done) =
      get_option-middle done rest item' item.key h (locked_key (get_value cfg item.key).1 item) in
    let lock : OptionItem → OptionItem = locked (get_value cfg item.key).1 in
    let marked : change_at (length done) lock config.core.options ≡ done ++ item' ∷ rest =
      ap (change_at (length done) lock) e ∙ change_at-middle done rest item lock in
    elim (Option-cases (get_value cfg item.key).0) [
      | inl n ↦
          rw (e, read_core_option) (rw (get_elem?-middle done rest item) (rw (n, read_item) marked))
      | inr (value, g) ↦
          let list = record config.core { options = done ++ item' ∷ rest } in
          rw (e, read_core_option)
            (rw (get_elem?-middle done rest item) (
              rw (g, read_item)
                (ap
                    (λ l.
                      (set_option_value place.tag (record config.core { options = l }) item.key
                        value config.palette_updated).0.options)
                    marked
                  ∙ set_option_value-some place.tag list item.key value config.palette_updated
                      (length done) at
                  ∙ change_at-middle done rest item' (λ o. set_value o value))))
    ]

HasNone-snoc :
    (key : Bytes) (done : List OptionItem) (item : OptionItem)
    → HasNone key done
    → equal item.key key ≡ false
    → HasNone key (done ++ item ∷ [])
HasNone-snoc key [] item h e = (e, tt)
HasNone-snoc key (d ∷ done) item h e = (h.0, HasNone-snoc key done item h.1 e)

read_item_key : (cfg : Bytes) (item : OptionItem) → (read_item cfg item).key ≡ item.key
unfolding set_value
read_item_key cfg item = elim (Option-cases (get_value cfg item.key).0) [
  | inl n ↦ rw (n, read_item) (locked_key (get_value cfg item.key).1 item)
  | inr (value, g) ↦ rw (g, read_item) (locked_key (get_value cfg item.key).1 item)
]

-- No item of the second list has the key of one of the first.
abbrev pub Fresh : List OptionItem → List OptionItem → Type 0
Fresh done rest = All (λ o. HasNone o.key done) rest

Fresh-snoc :
    (cfg : Bytes) (done rest : List OptionItem) (item : OptionItem)
    → Fresh done rest
    → All (λ o. equal item.key o.key ≡ false) rest
    → Fresh (done ++ read_item cfg item ∷ []) rest
Fresh-snoc cfg done [] item h k = tt
Fresh-snoc cfg done (o ∷ rest) item h k = (
  HasNone-snoc o.key done (read_item cfg item) h.0
      (ap (λ key. equal key o.key) (read_item_key cfg item) ∙ k.0),
  Fresh-snoc cfg done rest item h.1 k.1,
)

pub read_core_options :
    (place : Place) (cfg : Bytes) (config : Config) (i : ℕ) (done rest : List OptionItem)
    → config.core.options ≡ done ++ rest
    → i ≡ length done
    → Fresh done rest
    → AreKeyed rest
    → (for_each (length rest) i (read_core_option place cfg) config).core.options
      ≡ done ++ map (read_item cfg) rest
unfolding for_each
read_core_options place cfg config i done [] e n f k = e
read_core_options place cfg config i done (item ∷ rest) e n f k =
    let next = read_core_option place cfg i config in
    let read : OptionItem = read_item cfg item in
    let once : next.core.options ≡ done ++ read ∷ rest =
      ap (λ j. (read_core_option place cfg j config).core.options) n
      ∙ read_core_option-middle place cfg config done rest item e f.0 in
    read_core_options place cfg next (suc i) (done ++ read ∷ []) rest
      (once ∙ sym (append_assoc done (read ∷ []) rest))
      (omega (arith, length-append done (read ∷ []), n)) (Fresh-snoc cfg done rest item f.1 k.0) k.1
    ∙ append_assoc done (read ∷ []) (map (read_item cfg) rest)
