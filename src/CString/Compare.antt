-- ===== src/CString/Compare.antt =====
-- Comparison without regard to case, against the lower-case texts.
use darkui.Base.{◌≡◌, ◌↔◌, refl, true, [], ◌∷◌, arith, Ordering, length, take}
use darkui.CString.{Bytes, tolower, strncasecmp, strcasecmp, is_eq, equal}

pub equal_iff : (s t : Bytes) → (equal s t ≡ true) ↔ (s ≡ t)
unfolding equal
equal_iff [] [] = ground arith
equal_iff [] (c ∷ t) = ground arith
equal_iff (c ∷ s) [] = ground arith
equal_iff (c ∷ s) (d ∷ t) = ground (arith, equal_iff s t)

pub equal_refl : (a : Bytes) → equal a a ≡ true
equal_refl a = (equal_iff a a).1 refl

abbrev pub lower : Bytes → Bytes
lower [] = []
lower (c ∷ s) = tolower c ∷ lower s

-- The first `strlen(a)` bytes of the texts are equal, but for case.
pub strncasecmp_iff :
    (a b : Bytes)
    → (is_eq (strncasecmp (length a) a b) ≡ true) ↔ (lower a ≡ lower (take (length a) b))
unfolding strncasecmp
strncasecmp_iff [] b = ground arith
strncasecmp_iff (x ∷ a) [] = ground arith
strncasecmp_iff (x ∷ a) (y ∷ b) = ground (arith, strncasecmp_iff a b)

pub strcasecmp-eq_iff : (a b : Bytes) → (strcasecmp a b ≡ Ordering.eq) ↔ (lower a ≡ lower b)
unfolding strcasecmp
strcasecmp-eq_iff [] [] = ground arith
strcasecmp-eq_iff [] (y ∷ b) = ground arith
strcasecmp-eq_iff (x ∷ a) [] = ground arith
strcasecmp-eq_iff (x ∷ a) (y ∷ b) = ground (arith, strcasecmp-eq_iff a b)
