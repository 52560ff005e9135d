-- ===== src/Launcher/Recents/Bump.antt =====
-- The loops of `addRecent` on the array: the search, the bump to the top, and the dropping of
-- the oldest games.
use darkui.Base.{
  ℕ, zero, suc, ◌+◌, ◌-◌, ◌≤◌, ◌<◌, ◌≡◌, ◌≢◌, refl, sym, ap, ◌∙◌, inl, inr, List, [], ◌∷◌, ◌++◌,
  Option, none, some, leb, ◌==◌, if◌then◌else◌, take, drop, length, length-append, arith,
  Bool-cases, Option-cases, get_or, set, get_or-set, get_or-take, get_or-drop, get_or-append,
  get_or-cons, length-set, length-take, length-drop, list_ext, take-take, take_all,
}
use darkui.CString.{Bytes}
use darkui.Names.{exact_match}
use darkui.Collections.{Array, pop}
use darkui.Collections.Growth.{IsValid, contents, length-contents}
use darkui.Collections.Order.{pop_some}
use darkui.Launcher.Recents.{
  Recent, match_recent, recent_index_from, max_recents, drop_oldest, bump,
}

-- The games of a list without gaps.
unfoldable pub games : List Recent → List (Option Recent)
games [] = []
games (r ∷ rs) = some r ∷ games rs

-- The array is valid and holds these games, newest first.
pub record Lists (recents : Array Recent) (rs : List Recent) : Type 0 where
  pub valid : IsValid recents
  pub holds : contents recents ≡ games rs

pub length-games : (rs : List Recent) → length (games rs) ≡ length rs
unfolding games
length-games [] = refl
length-games (r ∷ rs) = ap suc (length-games rs)

pub Lists-count :
    (recents : Array Recent) (rs : List Recent) → Lists recents rs → recents.count ≡ length rs
Lists-count recents rs h =
    sym (length-contents recents h.valid) ∙ ap length h.holds ∙ length-games rs

pub length-bump : (n : ℕ) (items : List (Option Recent)) → length (bump n items) ≡ length items
unfolding bump
length-bump zero items = refl
length-bump (suc i) items =
    length-bump i _ ∙ length-set (set items i _) (suc i) _ ∙ length-set items i _

get_or-bump :
    (n : ℕ) (items : List (Option Recent)) (j : ℕ)
    → n < length items
    → get_or (bump n items) j none ≡ (
        if j == 0
        then get_or items n none
        else if leb j n
        then get_or items (j - 1) none
        else get_or items j none)
unfolding bump
get_or-bump zero items j h = ground (arith, ap (λ k. get_or items k none) {x = j} {y = 0})
get_or-bump (suc i) items j h =
    let up = get_or items (suc i) none in
    let once = set items i up in
    get_or-bump i (set once (suc i) (get_or items i none)) j
      (omega (arith, length-set once (suc i) (get_or items i none), length-set items i up))
    ∙ ground (
      arith,
      length-set items i up,
      get_or-set once (suc i) i (get_or items i none) none,
      get_or-set once (suc i) (j - 1) (get_or items i none) none,
      get_or-set once (suc i) j (get_or items i none) none,
      get_or-set items i i up none,
      get_or-set items i (j - 1) up none,
      get_or-set items i j up none,
      ap (λ k. get_or items k none) {x = j - 1} {y = i},
    )

-- The item at `i` in front of the others.
abbrev pub to_front {ℓ} : {A : Type ℓ} → ℕ → A → List A → List A
to_front i x xs = x ∷ (take i xs ++ drop (suc i) xs)

get_or-to_front :
    (i j : ℕ) (x : Option Recent) (xs : List (Option Recent))
    → i < length xs
    → get_or (to_front i x xs) j none
      ≡ (if j == 0 then x else if leb j i then get_or xs (j - 1) none else get_or xs j none)
get_or-to_front i j x xs h =
    get_or-cons x (take i xs ++ drop (suc i) xs) j none
    ∙ ground (
      arith,
      get_or-append (take i xs) (drop (suc i) xs) (j - 1) none,
      length-take i xs,
      get_or-take i (j - 1) xs none,
      get_or-drop (suc i) (j - 1 - length (take i xs)) xs none,
      ap (λ k. get_or xs k none) {x = suc i + (j - 1 - length (take i xs))} {y = j},
    )

pub take-bump :
    (i n : ℕ) (items : List (Option Recent))
    → i < n
    → n ≤ length items
    → take n (bump i items) ≡ to_front i (get_or items i none) (take n items)
take-bump i n items h k =
    let front = take i (take n items) in
    let back = drop (suc i) (take n items) in
    let size = length-take n items in
    let bumped = length-take n (bump i items) in
    list_ext _ _ none
      (omega (
        arith,
        bumped,
        length-bump i items,
        length-append front back,
        length-take i (take n items),
        length-drop (suc i) (take n items),
        size,
      ))
      (λ j lt. ground (
        arith,
        bumped,
        length-bump i items,
        size,
        get_or-take n j (bump i items) none,
        get_or-bump i items j (omega arith),
        get_or-to_front i j (get_or items i none) (take n items) (omega (arith, size)),
        get_or-take n (j - 1) items none,
        get_or-take n j items none,
      ))

-- Popping while there are 24 games or more leaves the first 23 of 24; a shorter list is as it was.
pop-Lists :
    (recents : Array Recent)
    → IsValid recents
    → recents.count ≢ 0
    → IsValid (pop recents).1
      × (contents (pop recents).1 ≡ take (recents.count - 1) (contents recents))
      × ((pop recents).1.count ≡ recents.count - 1)
pop-Lists recents v ne = rw (pop_some recents ne) (
  record { block = v.block; within = omega (arith, v.within); room = v.room },
  ap (λ k. take k recents.items) (omega arith)
      ∙ sym (take-take (recents.count - 1) recents.count recents.items),
  refl,
)

pub record Dropped (recents out : Array Recent) : Type 0 where
  pub valid : IsValid out
  pub holds : contents out ≡ take 23 (contents recents)
  pub few : out.count < max_recents

drop_oldest-Dropped :
    (fuel : ℕ) (recents : Array Recent)
    → IsValid recents
    → recents.count < fuel + max_recents
    → Dropped recents (drop_oldest fuel recents)
unfolding drop_oldest
drop_oldest-Dropped zero recents v h = record {
  valid = v;
  holds = sym (take_all 23 (contents recents) (omega (arith, length-contents recents v)));
  few = omega arith;
}
drop_oldest-Dropped (suc fuel) recents v h = elim (Bool-cases (leb max_recents recents.count)) [
  | inl t ↦
      let (ok, held, size) = pop-Lists recents v (ground arith) in
      let rest = drop_oldest-Dropped fuel (pop recents).1 ok (omega (arith, size)) in
      rw t (record {
        valid = rest.valid;
        holds =
            rest.holds
            ∙ ap (take 23) held
            ∙ take-take 23 (recents.count - 1) (contents recents)
            ∙ ap (λ k. take k (contents recents)) {y = 23} (ground arith);
        few = rest.few;
      })
  | inr t ↦ rw t (record {
    valid = v;
    holds = sym (take_all 23 (contents recents) (ground (arith, length-contents recents v)));
    few = ground arith;
  })
]

-- The fuel that `add_recent` gives, the count, is enough.
pub drop_oldest_lem :
    (recents : Array Recent) → IsValid recents → Dropped recents (drop_oldest recents.count recents)
drop_oldest_lem recents v = drop_oldest-Dropped recents.count recents v (omega arith)

-- The index of the first game with the path.
unfoldable pub find_path : Bytes → List Recent → Option ℕ
find_path str [] = none
find_path str (r ∷ rs) =
    if exact_match r.path str
    then some 0
    else elim (find_path str rs) [ none ↦ none | some i ↦ some (suc i) ]

pub recent_index_from-find_path :
    (rs : List Recent) (i : ℕ) (items : List (Option Recent)) (str : Bytes)
    → ((j : ℕ) → j < length rs → get_or items (i + j) none ≡ get_or (games rs) j none)
    → recent_index_from (length rs) i items str
      ≡ (elim (find_path str rs) [ none ↦ none | some k ↦ some (i + k) ])
unfolding recent_index_from match_recent find_path games
recent_index_from-find_path [] i items str h = refl
recent_index_from-find_path (r ∷ rs) i items str h =
    let at : get_or items i none ≡ some r =
      ap (λ k. get_or items k none) {y = i + 0} (omega arith) ∙ h 0 (omega arith) in
    let later = recent_index_from-find_path rs (suc i) items str (λ j lt.
      ap (λ k. get_or items k none) {y = i + suc j} (omega arith) ∙ h (suc j) (omega arith)) in
    rw (at, recent_index_from)
      (elim (Bool-cases (exact_match r.path str)) [
        | inl t ↦ rw t (ap some (omega arith))
        | inr t ↦ rw t (
            later ∙ elim (Option-cases (find_path str rs)) [
              | inl e ↦ rw e
              | inr (k, e) ↦ rw e (ap some (omega arith))
            ])
      ])

pub find_path-lt :
    (str : Bytes) (rs : List Recent) (i : ℕ) → find_path str rs ≡ some i → i < length rs
unfolding find_path
find_path-lt str [] i e = cc
find_path-lt str (r ∷ rs) zero e = omega arith
find_path-lt str (r ∷ rs) (suc i) e = ground (arith, find_path-lt str rs i)
