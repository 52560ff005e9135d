-- ===== src/Launcher/Recents/Distinct.antt =====
-- No game stands twice on the list, and the one just played is the first.
use darkui.Base.{
  ℕ, zero, suc, ◌≤◌, ◌<◌, ◌≡◌, refl, ap, ◌∙◌, inl, inr, List, [], ◌∷◌, ◌++◌, Option, none, some,
  take, drop, length, length-append, arith, Option-cases, get_or, length-take, length-drop,
}
use darkui.CString.{Bytes}
use darkui.Names.{Platform}
use darkui.Names.Match.{exact_match_iff}
use darkui.Collections.{Array}
use darkui.Launcher.Files.{Files}
use darkui.Launcher.Recents.{Recent, recent_new, max_recents, add_recent}
use darkui.Launcher.Recents.Bump.{Lists, find_path, find_path-lt}
use darkui.Launcher.Recents.Order.{
  use_recent, add_recent-use_recent, path-recent_new, use_recent_new, use_recent_old,
}

abbrev pub Distinct : List Recent → Type 0
Distinct [] = Unit
Distinct (r ∷ rs) = (find_path r.path rs ≡ none) × Distinct rs

find_path-take :
    (str : Bytes) (n : ℕ) (rs : List Recent)
    → find_path str rs ≡ none
    → find_path str (take n rs) ≡ none
unfolding find_path
find_path-take str zero rs e = refl
find_path-take str (suc n) [] e = refl
find_path-take str (suc n) (r ∷ rs) e = ground (arith, find_path-take str n rs)

Distinct-take : (n : ℕ) (rs : List Recent) → Distinct rs → Distinct (take n rs)
Distinct-take zero rs d = tt
Distinct-take (suc n) [] d = tt
Distinct-take (suc n) (r ∷ rs) d = (find_path-take r.path n rs d.0, Distinct-take n rs d.1)

abbrev without : ℕ → List Recent → List Recent
without i rs = take i rs ++ drop (suc i) rs

find_path-without :
    (str : Bytes) (i : ℕ) (rs : List Recent)
    → find_path str rs ≡ none
    → find_path str (without i rs) ≡ none
unfolding find_path
find_path-without str zero [] e = refl
find_path-without str (suc i) [] e = refl
find_path-without str zero (r ∷ rs) e = ground arith
find_path-without str (suc i) (r ∷ rs) e = ground (arith, find_path-without str i rs)

Distinct-without : (i : ℕ) (rs : List Recent) → Distinct rs → Distinct (without i rs)
Distinct-without zero [] d = tt
Distinct-without (suc i) [] d = tt
Distinct-without zero (r ∷ rs) d = d.1
Distinct-without (suc i) (r ∷ rs) d = (find_path-without r.path i rs d.0, Distinct-without i rs d.1)

-- The game at the index found has the path, and no other game of a distinct list has.
find_path-found :
    (str : Bytes) (rs : List Recent) (i : ℕ) (d : Recent)
    → find_path str rs ≡ some i
    → (get_or rs i d).path ≡ str
unfolding find_path
find_path-found str [] i d e = cc
find_path-found str (r ∷ rs) zero d e = ground (arith, exact_match_iff r.path str)
find_path-found str (r ∷ rs) (suc i) d e = ground (arith, find_path-found str rs i d)

find_path-others :
    (str : Bytes) (rs : List Recent) (i : ℕ)
    → find_path str rs ≡ some i
    → Distinct rs
    → find_path str (without i rs) ≡ none
unfolding find_path
find_path-others str [] i e d = cc
find_path-others str (r ∷ rs) zero e d =
    let same : r.path ≡ str = ground (arith, exact_match_iff r.path str) in rw (← same) d.0
find_path-others str (r ∷ rs) (suc i) e d = ground (arith, find_path-others str rs i, d.1)

length-without :
    (i : ℕ) (rs : List Recent) → i < length rs → suc (length (without i rs)) ≡ length rs
length-without i rs h =
    omega
      (arith, length-append (take i rs) (drop (suc i) rs), length-take i rs, length-drop (suc i) rs)

-- What a list of recent games must be: no path twice, and 24 games at most.
pub record IsRecent (rs : List Recent) : Type 0 where
  pub distinct : Distinct rs
  pub few : length rs ≤ max_recents

-- the path of the first game
abbrev pub first_path : List Recent → Option Bytes
first_path [] = none
first_path (r ∷ rs) = some r.path

use_recent-IsRecent :
    (new : Recent) (rs : List Recent)
    → IsRecent rs
    → IsRecent (use_recent new rs) × (first_path (use_recent new rs) ≡ some new.path)
use_recent-IsRecent new rs v = elim (Option-cases (find_path new.path rs)) [
  | inl e ↦ rw (use_recent_new new rs e) (
    record {
      distinct = (find_path-take new.path 23 rs e, Distinct-take 23 rs v.distinct);
      few = omega (arith, length-take 23 rs);
    },
    refl,
  )
  | inr (i, e) ↦
      let same = find_path-found new.path rs i new e in
      rw (use_recent_old new rs i e) (
        record {
          distinct = (
            ap (λ q. find_path q (without i rs)) same ∙ find_path-others new.path rs i e v.distinct,
            Distinct-without i rs v.distinct,
          );
          few = omega (arith, length-without i rs (find_path-lt new.path rs i e), v.few);
        },
        ap some same,
      )
]

-- After `addRecent` the game is the first of the list, no game stands there twice, and there are
-- at most 24, if that was so before.
pub add_recent-IsRecent :
    (p : Platform) (files : Files) (recents : Array Recent) (rs : List Recent) (sd_path : Bytes)
    (alias : Option Bytes)
    → Lists recents rs
    → IsRecent rs
    → (rs' : List Recent) × Lists (add_recent p files recents sd_path alias) rs'
      × IsRecent rs'
      × (first_path rs' ≡ some (drop (length p.sdcard_path) sd_path))
add_recent-IsRecent p files recents rs sd_path alias h v =
    let path = drop (length p.sdcard_path) sd_path in
    let new = recent_new p files path alias in
    let (ok, first) = use_recent-IsRecent new rs v in
    (
      use_recent new rs,
      add_recent-use_recent p files recents rs sd_path alias h,
      ok,
      first ∙ ap some (path-recent_new p files path alias),
    )
