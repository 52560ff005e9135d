-- ===== src/Collections/Maps.antt =====
-- `Hash_set` and `Hash_get` against a list of pairs, and `IntArray_push`.
use darkui.Base.{
  ℕ, zero, suc, ◌+◌, ◌≤◌, ◌<◌, ◌≡◌, refl, sym, ap, ◌∙◌, inl, inr, true, List, [], ◌∷◌, ◌++◌, Option,
  none, some, if◌then◌else◌, get_or, set, take, length, length-append, length-set, arith,
  length-take, get_or-take, get_or-append, append-nil, append_assoc, take_all, take-append_left,
  Bool-cases,
}
use native.Mathlib.Decide.{ℕ_discrete}
use darkui.CString.{Bytes}
use darkui.Names.{exact_match}
use darkui.Collections.{
  Array, push, match_slot, index_from, string_index_of, Hash, hash_new, hash_set, hash_get,
  array_new, IntArray, int_array_max, int_array_new, int_array_push,
}
use darkui.Collections.Growth.{IsValid, contents, length-contents, push-contents, array_new-IsValid}
use darkui.Collections.Order.{push-count, pushed_last}

-- The value of the first pair with the key.
pub first_match : Bytes → List (Bytes × Bytes) → Option Bytes
first_match key [] = none
first_match key ((k, v) ∷ pairs) = if exact_match k key then some v else first_match key pairs

-- The pairs stand in the two blocks, from index `i` on.
abbrev Stored : List (Bytes × Bytes) → ℕ → List (Option Bytes) → List (Option Bytes) → Type 0
Stored [] i keys values = Unit
Stored ((k, v) ∷ pairs) i keys values =
    (get_or keys i none ≡ some k)
    × (get_or values i none ≡ some v)
    × Stored pairs (suc i) keys values

-- The hash holds these pairs, in the order in which they were set.
pub record Holds (self : Hash) (pairs : List (Bytes × Bytes)) : Type 0 where
  keys_valid : IsValid self.keys
  values_valid : IsValid self.values
  keys_count : self.keys.count ≡ length pairs
  values_count : self.values.count ≡ length pairs
  stored : Stored pairs 0 self.keys.items self.values.items

index_from-Stored :
    (key : Bytes) (pairs : List (Bytes × Bytes)) (i : ℕ) (keys values : List (Option Bytes))
    → Stored pairs i keys values
    → (elim (index_from (length pairs) i keys key) [ none ↦ none | some m ↦ get_or values m none ])
      ≡ first_match key pairs
unfolding index_from match_slot first_match
index_from-Stored key [] i keys values s = refl
index_from-Stored key ((k, v) ∷ pairs) i keys values s =
    rw (s.0, index_from)
      (elim (Bool-cases (exact_match k key)) [
        | inl t ↦ rw t (s.1)
        | inr t ↦ rw t (index_from-Stored key pairs (suc i) keys values s.2)
      ])

-- `Hash_get` finds the value that was set first for the key, and NULL for a key never set.
pub hash_get-first_match :
    (self : Hash) (pairs : List (Bytes × Bytes)) (key : Bytes)
    → Holds self pairs
    → hash_get self key ≡ first_match key pairs
unfolding hash_get string_index_of
hash_get-first_match self pairs key h =
    rw (h.keys_count, hash_get, string_index_of)
      (index_from-Stored key pairs 0 self.keys.items self.values.items h.stored)

pushed_front :
    (self : Array Bytes) (x : Option Bytes)
    → IsValid self
    → (j : ℕ) → j < self.count
    → get_or (push true self x).items j none ≡ get_or self.items j none
pushed_front self x v j h =
    let made = (push true self x).items in
    ground (
      arith,
      get_or-take (push true self x).count j made none,
      push-count self x,
      ap (λ l. get_or l j none) (push-contents self x v).1,
      get_or-append (contents self) (x ∷ []) j none,
      length-contents self v,
      get_or-take self.count j self.items none,
    )

Stored-append :
    (pairs : List (Bytes × Bytes)) (i n : ℕ) (keys values keys' values' : List (Option Bytes))
    (k v : Bytes)
    → i + length pairs ≡ n
    → ((j : ℕ) → j < n → get_or keys' j none ≡ get_or keys j none)
    → ((j : ℕ) → j < n → get_or values' j none ≡ get_or values j none)
    → get_or keys' n none ≡ some k
    → get_or values' n none ≡ some v
    → Stored pairs i keys values
    → Stored (pairs ++ (k, v) ∷ []) i keys' values'
Stored-append [] i n keys values keys' values' k v e fk fv lk lv s =
    let at : i ≡ n = omega arith in rw at (lk, lv, tt)
Stored-append ((p, q) ∷ pairs) i n keys values keys' values' k v e fk fv lk lv s = (
  fk i (omega arith) ∙ s.0,
  fv i (omega arith) ∙ s.1,
  Stored-append pairs (suc i) n keys values keys' values' k v (omega arith) fk fv lk lv s.2,
)

-- A new hash holds nothing, and `Hash_set`, for which memory is granted, adds its pair behind all
-- others.
pub hash_new-Holds : Holds hash_new []
unfolding hash_new
hash_new-Holds = record {
  keys_valid = array_new-IsValid.0;
  values_valid = array_new-IsValid.0;
  keys_count = unfold array_new in refl;
  values_count = unfold array_new in refl;
  stored = tt;
}

pub hash_set-Holds :
    (self : Hash) (pairs : List (Bytes × Bytes)) (k v : Bytes)
    → Holds self pairs
    → Holds (hash_set true true self k v) (pairs ++ (k, v) ∷ [])
unfolding hash_set
hash_set-Holds self pairs k v h = record {
  keys_valid = (push-contents self.keys (some k) h.keys_valid).0;
  values_valid = (push-contents self.values (some v) h.values_valid).0;
  keys_count =
      omega (arith, push-count self.keys (some k), h.keys_count, length-append pairs ((k, v) ∷ []));
  values_count =
      omega
        (arith, push-count self.values (some v), h.values_count, length-append pairs ((k, v) ∷ []));
  stored =
      Stored-append pairs 0 (length pairs) self.keys.items self.values.items _ _ k v (omega arith)
        (λ j lt. pushed_front self.keys (some k) h.keys_valid j (omega (arith, h.keys_count)))
        (λ j lt. pushed_front self.values (some v) h.values_valid j (omega (arith, h.values_count)))
        (rw (← h.keys_count) (pushed_last self.keys (some k) h.keys_valid))
        (rw (← h.values_count) (pushed_last self.values (some v) h.values_valid)) h.stored;
}

first_match-append :
    (key : Bytes) (pairs : List (Bytes × Bytes)) (k v : Bytes)
    → first_match key (pairs ++ (k, v) ∷ []) ≡ (elim (first_match key pairs) [
      | some w ↦ some w
      | none ↦ if exact_match k key then some v else none
    ])
unfolding first_match
first_match-append key [] k v = refl
first_match-append key ((p, q) ∷ pairs) k v = elim (Bool-cases (exact_match p key)) [
  | inl t ↦ rw t
  | inr t ↦ rw t (first_match-append key pairs k v)
]

-- `Hash_set` is no overwriting: a key that has a value keeps it, a new key gets the new value,
-- and all other keys are as they were.
pub hash_get-hash_set :
    (self : Hash) (pairs : List (Bytes × Bytes)) (k v key : Bytes)
    → Holds self pairs
    → hash_get (hash_set true true self k v) key ≡ (elim (hash_get self key) [
      | some w ↦ some w
      | none ↦ if exact_match k key then some v else none
    ])
hash_get-hash_set self pairs k v key h =
    hash_get-first_match (hash_set true true self k v) (pairs ++ (k, v) ∷ []) key
      (hash_set-Holds self pairs k v h)
    ∙ first_match-append key pairs k v
    ∙ rw (hash_get-first_match self pairs key h)

-- The numbers that an `IntArray` holds.
pub record IsSized (self : IntArray) : Type 0 where
  pub block : length self.items ≡ int_array_max
  pub within : self.count ≤ int_array_max

abbrev pub numbers : IntArray → List ℕ
numbers self = take self.count self.items

abbrev pub push_all : IntArray → List ℕ → IntArray
push_all self [] = self
push_all self (x ∷ xs) = push_all (int_array_push self x) xs

pub int_array_new-IsSized : IsSized int_array_new × (numbers int_array_new ≡ [])
unfolding int_array_new
int_array_new-IsSized = (record { block = refl; within = omega arith }, refl)

take-set_at :
    (xs : List ℕ) (n x : ℕ) → n < length xs → take (n + 1) (set xs n x) ≡ take n xs ++ x ∷ []
take-set_at [] n x h = absurd (omega arith)
take-set_at (y ∷ xs) zero x h = refl
take-set_at (y ∷ xs) (suc n) x h =
    ap (λ k. take k (y ∷ set xs n x)) {x = suc n + 1} {y = suc (n + 1)} (omega arith)
    ∙ ap (◌∷◌ y) (take-set_at xs n x (omega arith))

int_array_push-IsSized : (self : IntArray) (x : ℕ) → IsSized self → IsSized (int_array_push self x)
unfolding int_array_push
int_array_push-IsSized self x v = ground (arith, length-set self.items self.count x)

push_all-full :
    (self : IntArray) (xs : List ℕ) → self.count ≡ int_array_max → push_all self xs ≡ self
unfolding int_array_push
push_all-full self [] e = refl
push_all-full self (x ∷ xs) e =
    let kept : int_array_push self x ≡ self = ground arith in
    ap (λ a. push_all a xs) kept ∙ push_all-full self xs e

int_array_push-numbers :
    (self : IntArray) (x : ℕ)
    → IsSized self
    → self.count < int_array_max
    → numbers (int_array_push self x) ≡ numbers self ++ x ∷ []
unfolding int_array_push
int_array_push-numbers self x v lt = ground (arith, take-set_at self.items self.count x, v.block)

push_all-numbers :
    (xs : List ℕ) (self : IntArray)
    → IsSized self
    → numbers (push_all self xs) ≡ take int_array_max (numbers self ++ xs)
push_all-numbers [] self v =
    sym (append-nil (numbers self))
    ∙ sym (
        take_all int_array_max (numbers self ++ []) (
          omega
            (arith, length-append (numbers self) [], length-take self.count self.items, v.within)))
push_all-numbers (x ∷ xs) self v = elim (ℕ_discrete self.count int_array_max) [
  | yes full ↦
      let size : length (numbers self) ≡ int_array_max =
        omega (arith, length-take self.count self.items, v.block) in
      ap numbers (push_all-full self (x ∷ xs) full)
      ∙ sym (take-append_left (numbers self) (x ∷ xs))
      ∙ ap (λ k. take k (numbers self ++ x ∷ xs)) size
  | no open_slot ↦
      let more = int_array_push-numbers self x v (omega (arith, v.within)) in
      push_all-numbers xs (int_array_push self x) (int_array_push-IsSized self x v)
      ∙ ap (λ l. take int_array_max (l ++ xs)) more
      ∙ ap (take int_array_max) (append_assoc (numbers self) (x ∷ []) xs)
]

-- However many numbers are pushed into a new `IntArray`, it holds the first 27 of them, in order.
pub push_all-take : (xs : List ℕ) → numbers (push_all int_array_new xs) ≡ take int_array_max xs
push_all-take xs =
    push_all-numbers xs int_array_new int_array_new-IsSized.0
    ∙ ap (λ l. take int_array_max (l ++ xs)) int_array_new-IsSized.1
