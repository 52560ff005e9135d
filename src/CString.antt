-- ===== src/CString.antt =====
-- Text of the program: a C string is the list of its bytes before the terminating NUL, and a
-- pointer into one is an index. These are the functions of the C library that the program calls.
pub mod Search
pub mod Compare
use Prim.Native.Char.{code}
use Prim.Native.String.{String}
use darkui.Base.{
  ℕ, zero, suc, ◌+◌, ◌-◌, Bool, true, false, ◌&&◌, ◌||◌, List, [], ◌∷◌, Option, none, some, compare,
  Ordering, ltb, leb, ◌==◌, if◌then◌else◌, length, take, drop,
}

abbrev pub Bytes : Type 0
Bytes = List ℕ

-- The bytes of a literal; every literal of the program is ASCII.
abbrev pub bytes : String → Bytes
bytes String.[] = []
bytes (String.◌∷◌ c s) = code c ∷ bytes s

-- <ctype.h> in the C locale
abbrev pub tolower : ℕ → ℕ
tolower c = if leb b'A' c && leb c b'Z' then c + 32 else c

abbrev pub isdigit : ℕ → Bool
isdigit c = leb b'0' c && leb c b'9'

abbrev pub isblank : ℕ → Bool
isblank c = c == b' ' || c == b'\t'

abbrev pub isspace : ℕ → Bool
isspace c = c == b' ' || leb 9 c && leb c 13

-- `strncasecmp`; the NUL at the end of the shorter text is below every other byte.
unfoldable pub strncasecmp : ℕ → Bytes → Bytes → Ordering
strncasecmp zero a b = Ordering.eq
strncasecmp (suc n) [] [] = Ordering.eq
strncasecmp (suc n) [] (_ ∷ _) = Ordering.lt
strncasecmp (suc n) (_ ∷ _) [] = Ordering.gt
strncasecmp (suc n) (x ∷ a) (y ∷ b) = elim (compare (tolower x) (tolower y)) [
  | Ordering.lt ↦ Ordering.lt
  | Ordering.eq ↦ strncasecmp n a b
  | Ordering.gt ↦ Ordering.gt
]

-- `strcasecmp`
unfoldable pub strcasecmp : Bytes → Bytes → Ordering
strcasecmp [] [] = Ordering.eq
strcasecmp [] (_ ∷ _) = Ordering.lt
strcasecmp (_ ∷ _) [] = Ordering.gt
strcasecmp (x ∷ a) (y ∷ b) = elim (compare (tolower x) (tolower y)) [
  | Ordering.lt ↦ Ordering.lt
  | Ordering.eq ↦ strcasecmp a b
  | Ordering.gt ↦ Ordering.gt
]

-- `qsort`, of a test whether an item may stand in front of another. It may leave items that are
-- equal in any order; here they keep theirs.
unfoldable pub qsort_insert {ℓ} : {A : Type ℓ} → (A → A → Bool) → A → List A → List A
qsort_insert le x [] = x ∷ []
qsort_insert le x (y ∷ ys) =
    let later = y ∷ qsort_insert le x ys in if le x y then x ∷ y ∷ ys else later

unfoldable pub qsort {ℓ} : {A : Type ℓ} → (A → A → Bool) → List A → List A
unfolding qsort_insert
qsort le [] = []
qsort le (x ∷ xs) = qsort_insert le x (qsort le xs)

abbrev pub is_eq : Ordering → Bool
is_eq Ordering.eq = true
is_eq Ordering.lt = false
is_eq Ordering.gt = false

-- `strcmp(a, b) == 0`
unfoldable pub equal : Bytes → Bytes → Bool
equal [] [] = true
equal [] (d ∷ t) = false
equal (c ∷ s) [] = false
equal (c ∷ s) (d ∷ t) = c == d && equal s t

-- `strchr`: the index of the first `c`
unfoldable pub strchr : Bytes → ℕ → Option ℕ
strchr [] c = none
strchr (x ∷ s) c =
    if x == c then some 0 else elim (strchr s c) [ none ↦ none | some i ↦ some (suc i) ]

-- `strrchr`: the index of the last `c`
unfoldable pub strrchr : Bytes → ℕ → Option ℕ
strrchr [] c = none
strrchr (x ∷ s) c = elim (strrchr s c) [
  | some i ↦ some (suc i)
  | none ↦ if x == c then some 0 else none
]

-- the text behind the last `c`, `strrchr(s, c) + 1`; all of `s` where there is none
unfoldable pub after_last : Bytes → ℕ → Bytes
unfolding strrchr
after_last s c = elim (strrchr s c) [ some i ↦ drop (suc i) s | none ↦ s ]

-- `tmp = strrchr(s, c); tmp[0] = '\0'`, with `s` as it is where there is no `c`
unfoldable pub before_last : Bytes → ℕ → Bytes
unfolding strrchr
before_last s c = elim (strrchr s c) [ some i ↦ take i s | none ↦ s ]

-- `tmp = strchr(s, c); if (tmp) tmp[0] = '\0'`
unfoldable pub before_first : Bytes → ℕ → Bytes
unfolding strchr
before_first s c = elim (strchr s c) [ some i ↦ take i s | none ↦ s ]
