-- ===== src/Collections/Growth.antt =====
-- What an `Array` holds, that its block is large enough, and what a refused `realloc` does.
use darkui.Base.{
  ℕ, zero, suc, ◌+◌, ◌*◌, ◌≤◌, ◌<◌, ◌≡◌, refl, ap, ◌∙◌, ◌⊎◌, inl, inr, true, false, List, [], ◌∷◌,
  ◌++◌, Option, none, leb, set, replicate, take, length, length-append, length-replicate,
  length-set, arith, length-take, Bool-cases,
}
use darkui.Collections.{Array, array_new, write, push}

module _ {ℓ} {A : Type ℓ} where
  -- The block has as many slots as the capacity says, and the count stays inside.
  pub record IsValid (self : Array A) : Type 0 where
    pub block : length self.items ≡ self.capacity
    pub within : self.count ≤ self.capacity
    pub room : 8 ≤ self.capacity

  -- The items, in order.
  abbrev pub contents : Array A → List (Option A)
  contents self = take self.count self.items

  pub length-contents : (self : Array A) → IsValid self → length (contents self) ≡ self.count
  length-contents self v = omega (arith, length-take self.count self.items, v.block, v.within)

  take-set :
      (items : List (Option A)) (n : ℕ) (x : Option A)
      → n < length items
      → take (n + 1) (set items n x) ≡ take n items ++ x ∷ []
  take-set [] n x h = absurd (omega arith)
  take-set (y ∷ items) zero x h = refl
  take-set (y ∷ items) (suc n) x h =
      ap (λ k. take k (y ∷ set items n x)) {x = suc n + 1} {y = suc (n + 1)} (omega arith)
      ∙ ap (◌∷◌ y) (take-set items n x (omega arith))

  take-append_short :
      (n : ℕ) (xs ys : List (Option A)) → n ≤ length xs → take n (xs ++ ys) ≡ take n xs
  take-append_short zero xs ys h = refl
  take-append_short (suc n) [] ys h = absurd (omega arith)
  take-append_short (suc n) (x ∷ xs) ys h = ap (◌∷◌ x) (take-append_short n xs ys (omega arith))

  write-contents :
      (self : Array A) (x : Option A)
      → self.count < length self.items
      → contents (write self x) ≡ contents self ++ x ∷ []
  unfolding write
  write-contents self x h = take-set self.items self.count x h

  grown : Array A → Array A
  grown self = record self {
    capacity = self.capacity * 2;
    items = self.items ++ replicate self.capacity none;
  }

  write-IsValid :
      (self : Array A) (x : Option A)
      → IsValid self
      → self.count < self.capacity
      → IsValid (write self x) × (contents (write self x) ≡ contents self ++ x ∷ [])
  write-IsValid self x v h = (
    unfold write in
        record {
          block = length-set self.items self.count x ∙ v.block;
          within = omega arith;
          room = v.room;
        },
    write-contents self x (omega (arith, v.block)),
  )

  grown-IsValid : (self : Array A) → IsValid self → IsValid (grown self)
  unfolding grown
  grown-IsValid self v = record {
    block = omega (
      arith,
      v.block,
      length-append self.items (replicate self.capacity none),
      length-replicate {A = Option A} self.capacity none,
    );
    within = omega (arith, v.within);
    room = omega (arith, v.room);
  }

  -- A push for which memory is granted appends the item and keeps the array valid.
  pub push-contents :
      (self : Array A) (x : Option A)
      → IsValid self
      → IsValid (push true self x) × (contents (push true self x) ≡ contents self ++ x ∷ [])
  unfolding push
  push-contents self x v = elim (Bool-cases (leb self.capacity self.count)) [
    | inl t ↦
        let made =
          write-IsValid (grown self) x (grown-IsValid self v)
            (unfold grown in ground (arith, v.room, v.within)) in
        rw t (
          unfold grown in
          (
            made.0,
            made.1
                ∙ ap (λ l. l ++ x ∷ [])
                    (take-append_short self.count self.items _ (omega (arith, v.block, v.within))),
          ))
    | inr t ↦ rw t (write-IsValid self x v (ground arith))
  ]

  -- The capacity at most doubles what is asked for: it stays under twice the new count, or is
  -- what it was.
  pub push-capacity :
      (self : Array A) (x : Option A)
      → IsValid self
      → ((push true self x).capacity ≡ self.capacity)
        ⊎ ((push true self x).capacity ≤ 2 * (push true self x).count)
  unfolding push write
  push-capacity self x v = ground (arith, v.within)

  -- When `realloc` is refused at a full array, the item is lost, and the capacity that is left
  -- behind is larger than the block: the array is valid no more, and the very next push writes
  -- behind the block's end.
  pub push_refused :
      (self : Array A) (x y : Option A)
      → IsValid self
      → self.count ≡ self.capacity
      → let self' = push false self x in
        (contents self' ≡ contents self)
        × (¬ IsValid self')
        × (push true self' y ≡ write self' y)
        × (length self'.items ≤ self'.count)
  unfolding push
  push_refused self x y v full = (
    ground arith,
    λ v'. ground (arith, v'.block, v.block, v.room),
    ground (arith, v.room),
    ground (arith, v.block),
  )

pub array_new-IsValid {ℓ} :
    {A : Type ℓ} → IsValid (array_new {A = A}) × (contents (array_new {A = A}) ≡ [])
unfolding array_new
array_new-IsValid = (record { block = refl; within = omega arith; room = omega arith }, refl)
