-- ===== src/Collections/Reverse.antt =====
-- `Array_reverse` of collections.c swaps from both ends.
use mathlib.Core.List.{reverse}
use darkui.Base.{
  ℕ, zero, suc, ◌+◌, ◌-◌, ◌*◌, ◌/◌, ◌≤◌, ◌<◌, ◌≡◌, refl, ap, ◌∙◌, List, Option, none, leb, ltb,
  ◌==◌, if◌then◌else◌, get_or, set, take, length, length-set, arith, length-take, ◌&&◌, ◌||◌,
  get_or-set, get_or-take, list_ext, get_or-reverse, length-reverse,
}
use darkui.Collections.{Array, reverse_from, array_reverse}
use darkui.Collections.Growth.{IsValid, contents, length-contents}

module _ {A : Type 0} where
  length-reverse_from :
      (n i end : ℕ) (items : List (Option A)) → length (reverse_from n i end items) ≡ length items
  unfolding reverse_from
  length-reverse_from zero i end items = refl
  length-reverse_from (suc n) i end items =
      length-reverse_from n (suc i) end _
      ∙ length-set (set items i _) (end - i) (get_or items i none)
      ∙ length-set items i (get_or items (end - i) none)

  get_or-swap :
      (items : List (Option A)) (i end j : ℕ)
      → end < length items
      → get_or
          (set (set items i (get_or items (end - i) none)) (end - i) (get_or items i none))
          j
          none
        ≡ (if end - i == j
            then get_or items i none
            else if i == j && ltb i (length items)
            then get_or items (end - i) none
            else get_or items j none)
  get_or-swap items i end j h =
      let once = set items i (get_or items (end - i) none) in
      ground (
        arith,
        get_or-set once (end - i) j (get_or items i none) none,
        get_or-set items i j (get_or items (end - i) none) none,
        length-set items i (get_or items (end - i) none),
      )

  -- After the rounds from `i` on, the places that they reach are mirrored.
  get_or-reverse_from :
      (n i end : ℕ) (items : List (Option A)) (j : ℕ)
      → end < length items
      → 2 * (i + n) ≤ end + 1
      → get_or (reverse_from n i end items) j none ≡ (
          if (leb i j && ltb j (i + n)) || (leb j (end - i) && ltb (end - (i + n)) j)
          then get_or items (end - j) none
          else get_or items j none)
  unfolding reverse_from
  get_or-reverse_from zero i end items j h k = ground arith
  get_or-reverse_from (suc n) i end items j h k =
      let next = set (set items i (get_or items (end - i) none)) (end - i) (get_or items i none) in
      get_or-reverse_from n (suc i) end next j
        (omega (
          arith,
          length-set (set items i (get_or items (end - i) none)) (end - i) (get_or items i none),
          length-set items i (get_or items (end - i) none),
        ))
        (omega arith)
      ∙ ground (
        arith,
        get_or-swap items i end j h,
        get_or-swap items i end (end - j) h,
        ap (λ m. get_or items m none) {x = end - j} {y = i},
        ap (λ m. get_or items m none) {x = end - j} {y = end - i},
      )

  -- `Array_reverse` leaves the items in the opposite order.
  pub array_reverse-contents :
      (self : Array A)
      → IsValid self
      → IsValid (array_reverse self) × (contents (array_reverse self) ≡ reverse (contents self))
  unfolding array_reverse
  array_reverse-contents self v =
      let n = self.count in
      let done = reverse_from (n / 2) 0 (n - 1) self.items in
      let size = length-reverse_from (n / 2) 0 (n - 1) self.items in
      (
        record { block = size ∙ v.block; within = v.within; room = v.room },
        list_ext (take n done) (reverse (contents self)) none
            (omega (
              arith,
              length-take n done,
              length-reverse (contents self),
              length-contents self v,
              v.block,
              v.within,
              size,
            ))
            (λ j lt. ground (
              arith,
              length-take n done,
              length-contents self v,
              get_or-take n j done none,
              get_or-reverse_from (n / 2) 0 (n - 1) self.items j
                  (omega (arith, length-take n done, v.block, v.within)) (omega arith),
              get_or-reverse (contents self) j none
                  (omega (arith, length-take n done, length-contents self v)),
              get_or-take n (length (contents self) - 1 - j) self.items none,
              ap (λ m. get_or self.items m none) {x = length (contents self) - 1 - j}
                  {y = n - 1 - j},
              ap (λ m. get_or self.items m none) {x = length (contents self) - 1 - j} {y = j},
            )),
      )
