-- ===== src/Collections/Order.antt =====
-- `Array_unshift` and `Array_pop` move the items as the list operations do.
use native.Mathlib.Decide.{ℕ_discrete}
use darkui.Base.{
  ℕ, zero, suc, ◌+◌, ◌-◌, ◌<◌, ◌≡◌, ◌≢◌, ◌⊎◌, refl, sym, ap, ap₂, ◌∙◌, inl, inr, true, List, [],
  ◌∷◌, ◌++◌, Option, none, leb, ◌==◌, if◌then◌else◌, get_or, set, take, length, length-set, arith,
  length-take, get_or-set, get_or-take, get_or-append, list_ext, min, take-append_left, take-take,
}
use darkui.Collections.{Array, write, push, shift_up, unshift, pop}
use darkui.Collections.Growth.{IsValid, contents, length-contents, push-contents}

module _ {A : Type 0} where
  length-shift_up : (n : ℕ) (items : List (Option A)) → length (shift_up n items) ≡ length items
  unfolding shift_up
  length-shift_up zero items = refl
  length-shift_up (suc i) items =
      length-shift_up i _ ∙ length-set items (suc i) (get_or items i none)

  get_or-shift_up :
      (n : ℕ) (items : List (Option A)) (j : ℕ)
      → n < length items
      → get_or (shift_up n items) j none ≡ (
          if j == 0
          then get_or items 0 none
          else if leb j n
          then get_or items (j - 1) none
          else get_or items j none)
  unfolding shift_up
  get_or-shift_up zero items j h = ground arith
  get_or-shift_up (suc i) items j h =
      let moved = set items (suc i) (get_or items i none) in
      get_or-shift_up i moved j (omega (arith, length-set items (suc i) (get_or items i none)))
      ∙ ground (
        arith,
        get_or-set items (suc i) 0 (get_or items i none) none,
        get_or-set items (suc i) (j - 1) (get_or items i none) none,
        get_or-set items (suc i) j (get_or items i none) none,
        ap (λ k. get_or items k none) {x = j - 1} {y = i},
      )

  get_or-cons :
      (x : Option A) (xs : List (Option A)) (j : ℕ)
      → get_or (x ∷ xs) j none ≡ (if j == 0 then x else get_or xs (j - 1) none)
  get_or-cons x xs zero = refl
  get_or-cons x xs (suc j) =
      ground (arith, ap (λ k. get_or xs k none) {x = suc j - 1} {y = j} (omega arith))

  shifted :
      (n : ℕ) (items : List (Option A)) (x : Option A)
      → n < length items
      → take (suc n) (set (shift_up n items) 0 x) ≡ x ∷ take n items
  shifted n items x h =
      list_ext _ _ none
        (omega (
          arith,
          length-take (suc n) (set (shift_up n items) 0 x),
          length-take n items,
          length-set (shift_up n items) 0 x,
          length-shift_up n items,
        ))
        (λ j lt. ground (
          arith,
          get_or-take (suc n) j (set (shift_up n items) 0 x) none,
          get_or-set (shift_up n items) 0 j x none,
          get_or-shift_up n items j h,
          get_or-cons x (take n items) j,
          get_or-take n (j - 1) items none,
          length-take (suc n) (set (shift_up n items) 0 x),
          length-shift_up n items,
        ))

  unshift_empty :
      (self : Array A) (x : Option A) → self.count ≡ 0 → unshift true self x ≡ push true self x
  unfolding unshift
  unshift_empty self x e = ground arith

  unshift_full :
      (self : Array A) (x : Option A)
      → self.count ≢ 0
      → let grown = push true self none in
        unshift true self x
        ≡ record grown { items = set (shift_up (grown.count - 1) grown.items) 0 x }
  unfolding unshift
  unshift_full self x e = ground arith

  pub push-count : (self : Array A) (x : Option A) → (push true self x).count ≡ self.count + 1
  unfolding push write
  push-count self x = ground arith

  push-front :
      (self : Array A) (x : Option A)
      → IsValid self
      → take self.count (push true self x).items ≡ contents self
  push-front self x v =
      let made = (push true self x).items in
      ap (λ k. take k made) {y = min self.count (push true self x).count}
        (omega (arith, push-count self x))
      ∙ sym (take-take self.count (push true self x).count made)
      ∙ ap (take self.count) (push-contents self x v).1
      ∙ ap (λ k. take k (contents self ++ x ∷ [])) (sym (length-contents self v))
      ∙ take-append_left (contents self) (x ∷ [])

  -- `Array_unshift` puts the item in front of all others and keeps the array valid.
  pub unshift-contents :
      (self : Array A) (x : Option A)
      → IsValid self
      → IsValid (unshift true self x) × (contents (unshift true self x) ≡ x ∷ contents self)
  unshift-contents self x v = elim (ℕ_discrete self.count 0) [
    | yes e ↦
        let made = push-contents self x v in rw (unshift_empty self x e) (made.0, made.1 ∙ rw e)
    | no ne ↦
        let grown = push true self none in
        let ok = push-contents self none v in
        let size : grown.count ≡ suc self.count = omega (arith, push-count self none) in
        let n = grown.count - 1 in
        rw (unshift_full self x ne) (
          record {
            block =
                length-set (shift_up n grown.items) 0 x
                ∙ length-shift_up n grown.items
                ∙ ok.0.block;
            within = ok.0.within;
            room = ok.0.room;
          },
          ap₂ (λ k m. take k (set (shift_up m grown.items) 0 x)) {y = suc self.count}
                {v = self.count} size (omega arith)
              ∙ shifted self.count grown.items x (omega (arith, ok.0.block, ok.0.within))
              ∙ ap (◌∷◌ x) (push-front self none v),
        )
  ]

  pub pop_some :
      (self : Array A)
      → self.count ≢ 0
      → pop self ≡ (get_or self.items (self.count - 1) none, record self { count = self.count - 1 })
  unfolding pop
  pop_some self ne = ground arith

  pub pushed_last :
      (self : Array A) (x : Option A)
      → IsValid self
      → get_or (push true self x).items self.count none ≡ x
  pushed_last self x v =
      let made = (push true self x).items in
      let n = self.count in
      ground (
        arith,
        get_or-take (push true self x).count n made none,
        push-count self x,
        ap (λ l. get_or l n none) (push-contents self x v).1,
        get_or-append (contents self) (x ∷ []) n none,
        length-contents self v,
        ap (λ k. get_or (x ∷ []) k none) {x = n - length (contents self)} {y = 0},
      )

  -- `Array_pop` takes back what `Array_push` put in, and leaves the other items.
  pub pop-push :
      (self : Array A) (x : Option A)
      → IsValid self
      → let (item, self') = pop (push true self x) in
        (item ≡ x) × (contents self' ≡ contents self) × IsValid self'
  pop-push self x v =
      let size = push-count self x in
      let ok = (push-contents self x v).0 in
      let made = (push true self x).items in
      let index : (push true self x).count - 1 ≡ self.count = omega (arith, size) in
      rw (pop_some (push true self x) (omega (arith, size))) (
        ap (λ k. get_or made k none) index ∙ pushed_last self x v,
        ap (λ k. take k made) index ∙ push-front self x v,
        record { block = ok.block; within = omega (arith, ok.within); room = ok.room },
      )

  take_last :
      (items : List (Option A)) (n : ℕ)
      → n < length items
      → take (suc n) items ≡ take n items ++ get_or items n none ∷ []
  take_last [] n h = absurd (omega arith)
  take_last (x ∷ items) zero h = refl
  take_last (x ∷ items) (suc n) h = ap (◌∷◌ x) (take_last items n (omega arith))

  -- What `Array_pop` does to any valid array: NULL from an empty one, which stays as it is; else
  -- the last item, which is taken off the contents.
  pub pop-contents :
      (self : Array A)
      → IsValid self
      → let (item, self') = pop self in
        ((self.count ≡ 0) × (item ≡ none) × (self' ≡ self))
        ⊎ ((contents self ≡ contents self' ++ item ∷ []) × IsValid self')
  pop-contents self v = elim (ℕ_discrete self.count 0) [
    | yes e ↦ inl (e, unfold pop in rw e, unfold pop in rw e)
    | no ne ↦ rw (pop_some self ne) (
        inr (
          ap (λ k. take k self.items) {y = suc (self.count - 1)} (omega arith)
              ∙ take_last self.items (self.count - 1) (omega (arith, v.block, v.within)),
          record { block = v.block; within = omega (arith, v.within); room = v.room },
        ))
  ]
