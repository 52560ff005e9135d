-- ===== src/CString/Search.antt =====
-- `strchr` and `strrchr` find the first and the last place of a byte.
use darkui.Base.{
  ℕ, zero, suc, ◌+◌, ◌<◌, ◌≡◌, ◌≢◌, refl, [], ◌∷◌, ◌++◌, none, some, arith, length, take, drop,
  take-append_left,
}
use darkui.CString.{Bytes, strchr, strrchr, after_last, before_last, before_first}

-- The byte `c` does not stand in the text.
abbrev pub Lacks : ℕ → Bytes → Type 0
Lacks c [] = Unit
Lacks c (x ∷ s) = (x ≢ c) × Lacks c s

pub Lacks-append : (c : ℕ) (a b : Bytes) → Lacks c a → Lacks c b → Lacks c (a ++ b)
Lacks-append c [] b h k = k
Lacks-append c (x ∷ a) b h k = (h.0, Lacks-append c a b h.1 k)

pub strchr-Lacks : (c : ℕ) (s : Bytes) → Lacks c s → strchr s c ≡ none
unfolding strchr
strchr-Lacks c [] h = refl
strchr-Lacks c (x ∷ s) h = ground (arith, strchr-Lacks c s h.1)

pub strrchr-Lacks : (c : ℕ) (s : Bytes) → Lacks c s → strrchr s c ≡ none
unfolding strrchr
strrchr-Lacks c [] h = refl
strrchr-Lacks c (x ∷ s) h = ground (arith, strrchr-Lacks c s h.1)

pub strrchr-eq-none : (c : ℕ) (s : Bytes) → strrchr s c ≡ none → Lacks c s
unfolding strrchr
strrchr-eq-none c [] h = tt
strrchr-eq-none c (x ∷ s) h = ground (arith, strrchr-eq-none c s)

-- The first `c` of `a ++ c ∷ b`, where `a` has none, is behind `a`; the last, where `b` has none.
pub strchr-append : (c : ℕ) (a b : Bytes) → Lacks c a → strchr (a ++ c ∷ b) c ≡ some (length a)
unfolding strchr
strchr-append c [] b h = ground arith
strchr-append c (x ∷ a) b h = ground (arith, strchr-append c a b h.1)

pub strrchr-append : (c : ℕ) (a b : Bytes) → Lacks c b → strrchr (a ++ c ∷ b) c ≡ some (length a)
unfolding strrchr
strrchr-append c [] b h = ground (arith, strrchr-Lacks c b h)
strrchr-append c (x ∷ a) b h = ground (arith, strrchr-append c a b h)

-- What a found index says: the text splits there, and the byte does not come again.
pub strrchr-split :
    (c : ℕ) (s : Bytes) (i : ℕ)
    → strrchr s c ≡ some i
    → (s ≡ take i s ++ c ∷ drop (suc i) s) × (i < length s) × Lacks c (drop (i + 1) s)
unfolding strrchr
strrchr-split c [] i h = cc
strrchr-split c (x ∷ s) zero h = ground (arith, strrchr-eq-none c s)
strrchr-split c (x ∷ s) (suc i) h = ground (arith, strrchr-split c s i)

pub drop-append_cons : (c : ℕ) (a b : Bytes) → drop (suc (length a)) (a ++ c ∷ b) ≡ b
drop-append_cons c [] b = refl
drop-append_cons c (x ∷ a) b = drop-append_cons c a b

pub before_last-append : (c : ℕ) (a b : Bytes) → Lacks c b → before_last (a ++ c ∷ b) c ≡ a
unfolding before_last
before_last-append c a b h = rw (strrchr-append c a b h, before_last) (take-append_left a (c ∷ b))

pub after_last-append : (c : ℕ) (a b : Bytes) → Lacks c b → after_last (a ++ c ∷ b) c ≡ b
unfolding after_last
after_last-append c a b h = rw (strrchr-append c a b h, after_last) (drop-append_cons c a b)

pub before_first-append : (c : ℕ) (a b : Bytes) → Lacks c a → before_first (a ++ c ∷ b) c ≡ a
unfolding before_first
before_first-append c a b h = rw (strchr-append c a b h, before_first) (take-append_left a (c ∷ b))
