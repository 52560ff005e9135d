-- ===== src/Collections.antt =====
-- workspace/all/minui/collections.c: the growable `Array`, the `Hash` kept in two of them, and
-- the fixed `IntArray`. A slot of a block is an option: `none` is NULL or a slot never written.
-- An `int` is a number here: the counts stay far below 2 ^ 31.
pub mod Order
pub mod Growth
pub mod Reverse
pub mod Maps
mod Tests
use darkui.Base.{
  ℕ, zero, suc, ◌+◌, ◌-◌, ◌*◌, ◌/◌, Bool, true, false, List, [], ◌∷◌, ◌++◌, Option, none, some, leb,
  ◌==◌, if◌then◌else◌, get_or, set, replicate,
}
use darkui.CString.{Bytes}
use darkui.Names.{exact_match}

-- `items` is the block that `malloc` or `realloc` gave, all `capacity` slots of it.
pub record Array {ℓ} (A : Type ℓ) : Type ℓ where
  pub count : ℕ
  pub capacity : ℕ
  pub items : List (Option A)

unfoldable pub array_new {ℓ} : {A : Type ℓ} → Array A
array_new = record { count = 0; capacity = 8; items = replicate 8 none }

module _ {ℓ} {A : Type ℓ} where
  -- `self->items[self->count++] = item`
  pub write : Array A → Option A → Array A
  write self item = record self { count = self.count + 1; items = set self.items self.count item }

  -- `realloc` keeps the old slots; `granted` says whether it finds the memory. The capacity is
  -- doubled before the call, and stays so when it fails.
  unfoldable pub push : Bool → Array A → Option A → Array A
  unfolding write
  push granted self item =
      if leb self.capacity self.count
      then (if granted
          then write
              (record self {
                capacity = self.capacity * 2;
                items = self.items ++ replicate self.capacity none;
              })
              item
          else record self { capacity = self.capacity * 2 })
      else write self item

  -- `for (int i = self->count - 2; i >= 0; i--) self->items[i + 1] = self->items[i];`, for the
  -- `n` rounds that are left
  pub shift_up : ℕ → List (Option A) → List (Option A)
  shift_up zero items = items
  shift_up (suc i) items = shift_up i (set items (suc i) (get_or items i none))

  unfoldable pub unshift : Bool → Array A → Option A → Array A
  unfolding push shift_up
  unshift granted self item =
      if self.count == 0
      then push granted self item
      else (let grown = push granted self none in
          record grown { items = set (shift_up (grown.count - 1) grown.items) 0 item })

  unfoldable pub pop : Array A → Option A × Array A
  pop self =
      if self.count == 0
      then (none, self)
      else (get_or self.items (self.count - 1) none, record self { count = self.count - 1 })

  -- the loop of `Array_reverse` from round `i` on, with `n` rounds left
  pub reverse_from : ℕ → ℕ → ℕ → List (Option A) → List (Option A)
  reverse_from zero i end items = items
  reverse_from (suc n) i end items =
      let item = get_or items i none in
      reverse_from n (suc i) end (set (set items i (get_or items (end - i) none)) (end - i) item)

  unfoldable pub array_reverse : Array A → Array A
  unfolding reverse_from
  array_reverse self = record self {
    items = reverse_from (self.count / 2) 0 (self.count - 1) self.items;
  }

-- `exactMatch` on a slot is false for NULL.
pub match_slot : Option Bytes → Bytes → Bool
unfolding exact_match
match_slot none str = false
match_slot (some key) str = exact_match key str

-- `StringArray_indexOf` from index `i` on, with `n` rounds left; `none` is -1
pub index_from : ℕ → ℕ → List (Option Bytes) → Bytes → Option ℕ
index_from zero i items str = none
index_from (suc n) i items str =
    let later = index_from n (suc i) items str in
    if match_slot (get_or items i none) str then some i else later

unfoldable pub string_index_of : Array Bytes → Bytes → Option ℕ
unfolding index_from match_slot
string_index_of self str = index_from self.count 0 self.items str

pub record Hash : Type 0 where
  pub keys : Array Bytes
  pub values : Array Bytes

unfoldable pub hash_new : Hash
unfolding array_new
hash_new = record { keys = array_new; values = array_new }

-- `strdup` copies a text; the two options say whether `realloc` is granted.
unfoldable pub hash_set : Bool → Bool → Hash → Bytes → Bytes → Hash
unfolding push
hash_set granted_key granted_value self key value = record {
  keys = push granted_key self.keys (some key);
  values = push granted_value self.values (some value);
}

unfoldable pub hash_get : Hash → Bytes → Option Bytes
unfolding string_index_of
hash_get self key = elim (string_index_of self.keys key) [
  | none ↦ none
  | some i ↦ get_or self.values.items i none
]

abbrev pub int_array_max : ℕ
int_array_max = 27

pub record IntArray : Type 0 where
  pub count : ℕ
  pub items : List ℕ

unfoldable pub int_array_new : IntArray
int_array_new = record { count = 0; items = replicate int_array_max 0 }

unfoldable pub int_array_push : IntArray → ℕ → IntArray
int_array_push self i =
    if leb int_array_max self.count
    then self
    else record { count = self.count + 1; items = set self.items self.count i }
