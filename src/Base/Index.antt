-- ===== src/Base/Index.antt =====
-- Reading and writing lists at an index, and equality of lists place by place.
use Prim.Native.Nat.{ℕ, zero, suc, ◌+◌, ◌-◌, ◌<◌}
use mathlib.Core.Path.{◌≡◌, refl, ap, ap₂, ◌∙◌}
use mathlib.Core.Logic.{inl, inr}
use mathlib.Core.Bool.{◌&&◌}
use mathlib.Core.List.{List, [], ◌∷◌, ◌++◌, reverse, reverse-cons}
use native.Mathlib.Omega.{arith}
use darkui.Base.Tests.{ltb, ◌==◌, if◌then◌else◌, Bool-cases}
use darkui.Base.Lists.{length, get_or, set, take, drop, length-append}

module _ {ℓ} {A : Type ℓ} where
  pub get_or-set :
      (xs : List A) (i j : ℕ) (v d : A)
      → get_or (set xs i v) j d ≡ (if i == j && ltb i (length xs) then v else get_or xs j d)
  get_or-set [] i j v d = ground arith
  get_or-set (x ∷ xs) zero zero v d = ground arith
  get_or-set (x ∷ xs) zero (suc j) v d = ground arith
  get_or-set (x ∷ xs) (suc i) zero v d = ground arith
  get_or-set (x ∷ xs) (suc i) (suc j) v d = ground (arith, get_or-set xs i j v d)

  pub get_or-append :
      (a b : List A) (j : ℕ) (d : A)
      → get_or (a ++ b) j d ≡ (if ltb j (length a) then get_or a j d else get_or b (j - length a) d)
  get_or-append [] b j d = ap (λ k. get_or b k d) {y = j - 0} (omega arith) ∙ ground arith
  get_or-append (x ∷ a) b zero d = ground arith
  get_or-append (x ∷ a) b (suc j) d = ground (
    arith,
    get_or-append a b j d,
    ap (λ k. get_or b k d) {x = suc j - suc (length a)} {y = j - length a} (omega arith),
  )

  pub get_or-take :
      (k j : ℕ) (xs : List A) (d : A)
      → get_or (take k xs) j d ≡ (if ltb j k then get_or xs j d else d)
  get_or-take zero j xs d = ground arith
  get_or-take (suc k) j [] d = ground arith
  get_or-take (suc k) zero (x ∷ xs) d = ground arith
  get_or-take (suc k) (suc j) (x ∷ xs) d = ground (arith, get_or-take k j xs d)

  pub get_or-drop : (k j : ℕ) (xs : List A) (d : A) → get_or (drop k xs) j d ≡ get_or xs (k + j) d
  get_or-drop zero j xs d = ap (λ m. get_or xs m d) (omega arith)
  get_or-drop (suc k) j [] d = refl
  get_or-drop (suc k) j (x ∷ xs) d =
      get_or-drop k j xs d ∙ ap (λ m. get_or (x ∷ xs) m d) {x = suc (k + j)} (omega arith)

  pub get_or-cons :
      (x : A) (xs : List A) (j : ℕ) (d : A)
      → get_or (x ∷ xs) j d ≡ (if j == 0 then x else get_or xs (j - 1) d)
  get_or-cons x xs zero d = ground arith
  get_or-cons x xs (suc j) d =
      ground (arith, ap (λ k. get_or xs k d) {x = suc j - 1} {y = j} (omega arith))

  pub list_ext :
      (xs ys : List A) (d : A)
      → length xs ≡ length ys
      → ((j : ℕ) → j < length xs → get_or xs j d ≡ get_or ys j d)
      → xs ≡ ys
  list_ext [] [] d e h = refl
  list_ext [] (y ∷ ys) d e h = absurd (omega arith)
  list_ext (x ∷ xs) [] d e h = absurd (omega arith)
  list_ext (x ∷ xs) (y ∷ ys) d e h =
      ap₂ ◌∷◌ (h 0 (omega arith)) (list_ext xs ys d (omega arith) (λ j lt. h (suc j) (omega arith)))

module _ {ℓ} {A : Type ℓ} where
  pub length-reverse : (xs : List A) → length (reverse xs) ≡ length xs
  length-reverse [] = refl
  length-reverse (x ∷ xs) =
      ap length (reverse-cons x xs)
      ∙ omega (arith, length-append (reverse xs) (x ∷ []), length-reverse xs)

  pub get_or-reverse :
      (xs : List A) (j : ℕ) (d : A)
      → j < length xs
      → get_or (reverse xs) j d ≡ get_or xs (length xs - 1 - j) d
  get_or-reverse [] j d h = absurd (omega arith)
  get_or-reverse (x ∷ xs) j d h =
      ap (λ l. get_or l j d) (reverse-cons x xs)
      ∙ get_or-append (reverse xs) (x ∷ []) j d
      ∙ elim (Bool-cases (ltb j (length (reverse xs)))) [
        | inl t ↦
            let lt : j < length xs = ground (arith, length-reverse xs) in
            rw t (
              get_or-reverse xs j d lt
              ∙ ap (λ k. get_or (x ∷ xs) k d) {x = suc (length xs - 1 - j)} (omega arith))
        | inr t ↦
            let eq : j ≡ length xs = ground (arith, length-reverse xs) in
            rw t (
              ap₂ (λ k m. get_or (x ∷ []) k d) {y = 0} (ground (arith, length-reverse xs)) eq
              ∙ ap (λ k. get_or (x ∷ xs) k d) {x = 0} (omega arith))
      ]
