-- ===== src/Launcher/Recents/Order.antt =====
-- `addRecent` keeps the list of games as a most-recently-used list of at most 24.
use darkui.Base.{
  ℕ, zero, suc, ◌<◌, ◌≡◌, refl, sym, ap, ap₂, ◌∙◌, inl, inr, true, List, [], ◌∷◌, ◌++◌, Option,
  none, some, take, drop, length, arith, Option-cases, get_or, get_or-take,
}
use darkui.CString.{Bytes}
use darkui.Names.{Platform}
use darkui.Collections.{Array, unshift}
use darkui.Collections.Order.{unshift-contents}
use darkui.Launcher.Files.{Files}
use darkui.Launcher.Recents.{Recent, recent_new, recent_index_from, drop_oldest, bump, add_recent}
use darkui.Launcher.Recents.Bump.{
  games, Lists, Lists-count, to_front, take-bump, length-bump, drop_oldest_lem, find_path,
  recent_index_from-find_path, find_path-lt,
}

-- A most-recently-used list: a game that is on it moves to the front; a new one goes in front of
-- the 23 newest others.
pub use_recent : Recent → List Recent → List Recent
use_recent new rs = elim (find_path new.path rs) [
  | none ↦ new ∷ take 23 rs
  | some i ↦ to_front i (get_or rs i new) rs
]

games-take : (n : ℕ) (rs : List Recent) → games (take n rs) ≡ take n (games rs)
unfolding games
games-take zero rs = refl
games-take (suc n) [] = refl
games-take (suc n) (r ∷ rs) = ap (◌∷◌ (some r)) (games-take n rs)

games-drop : (n : ℕ) (rs : List Recent) → games (drop n rs) ≡ drop n (games rs)
unfolding games
games-drop zero rs = refl
games-drop (suc n) [] = refl
games-drop (suc n) (r ∷ rs) = games-drop n rs

games-append : (a b : List Recent) → games (a ++ b) ≡ games a ++ games b
unfolding games
games-append [] b = refl
games-append (r ∷ a) b = ap (◌∷◌ (some r)) (games-append a b)

games-to_front :
    (i : ℕ) (x : Recent) (rs : List Recent)
    → games (to_front i x rs) ≡ to_front i (some x) (games rs)
unfolding games
games-to_front i x rs = ap (◌∷◌ (some x)) (
    games-append (take i rs) (drop (suc i) rs) ∙ ap₂ ◌++◌ (games-take i rs) (games-drop (suc i) rs))

get_or-games :
    (i : ℕ) (rs : List Recent) (d : Recent)
    → i < length rs
    → get_or (games rs) i none ≡ some (get_or rs i d)
unfolding games
get_or-games i [] d h = absurd (omega arith)
get_or-games zero (r ∷ rs) d h = refl
get_or-games (suc i) (r ∷ rs) d h = get_or-games i rs d (omega arith)

pub Lists-get :
    (recents : Array Recent) (rs : List Recent)
    → Lists recents rs
    → (j : ℕ) → j < length rs
    → get_or recents.items j none ≡ get_or (games rs) j none
Lists-get recents rs h j lt = ground (
  arith,
  get_or-take recents.count j recents.items none,
  Lists-count recents rs h,
  ap (λ l. get_or l j none) h.holds,
)

search-Lists :
    (recents : Array Recent) (rs : List Recent) (path : Bytes)
    → Lists recents rs
    → recent_index_from recents.count 0 recents.items path ≡ find_path path rs
search-Lists recents rs path h = rw (Lists-count recents rs h) (
    recent_index_from-find_path rs 0 recents.items path (λ j lt.
      ap (λ k. get_or recents.items k none) {y = j} (omega arith) ∙ Lists-get recents rs h j lt)
    ∙ elim (Option-cases (find_path path rs)) [
      | inl e ↦ rw e
      | inr (k, e) ↦ rw e (ap some (omega arith))
    ])

add_new-Lists :
    (recents : Array Recent) (rs : List Recent) (new : Recent)
    → Lists recents rs
    → Lists (unshift true (drop_oldest recents.count recents) (some new)) (new ∷ take 23 rs)
unfolding games
add_new-Lists recents rs new h =
    let d = drop_oldest_lem recents h.valid in
    let (ok, held) = unshift-contents (drop_oldest recents.count recents) (some new) d.valid in
    record {
      valid = ok;
      holds = held ∙ ap (◌∷◌ (some new)) (d.holds ∙ ap (take 23) h.holds ∙ sym (games-take 23 rs));
    }

bump-Lists :
    (recents : Array Recent) (rs : List Recent) (i : ℕ) (d : Recent)
    → Lists recents rs
    → i < length rs
    → Lists (record recents { items = bump i recents.items }) (to_front i (get_or rs i d) rs)
bump-Lists recents rs i d h lt =
    let size = Lists-count recents rs h in
    record {
      valid = record {
        block = length-bump i recents.items ∙ h.valid.block;
        within = h.valid.within;
        room = h.valid.room;
      };
      holds =
          take-bump i recents.count recents.items (omega (arith, size))
            (omega (arith, h.valid.block, h.valid.within))
          ∙ ap₂ (λ x l. to_front i x l) (Lists-get recents rs h i lt ∙ get_or-games i rs d lt)
              h.holds
          ∙ sym (games-to_front i (get_or rs i d) rs);
    }

pub use_recent_new :
    (new : Recent) (rs : List Recent)
    → find_path new.path rs ≡ none
    → use_recent new rs ≡ new ∷ take 23 rs
unfolding use_recent
use_recent_new new rs e = rw (e, use_recent)

pub use_recent_old :
    (new : Recent) (rs : List Recent) (i : ℕ)
    → find_path new.path rs ≡ some i
    → use_recent new rs ≡ to_front i (get_or rs i new) rs
unfolding use_recent
use_recent_old new rs i e = rw (e, use_recent)

module _ (p : Platform) (files : Files) (recents : Array Recent) (sd_path : Bytes)
    (alias : Option Bytes) where
  add_recent_new :
      recent_index_from recents.count 0 recents.items (drop (length p.sdcard_path) sd_path) ≡ none
      → add_recent p files recents sd_path alias
        ≡ unshift true
            (drop_oldest recents.count recents)
            (some (recent_new p files (drop (length p.sdcard_path) sd_path) alias))
  unfolding add_recent
  add_recent_new e = rw (e, add_recent)

  add_recent_old :
      (id : ℕ)
      → recent_index_from recents.count 0 recents.items (drop (length p.sdcard_path) sd_path)
        ≡ some id
      → add_recent p files recents sd_path alias ≡ record recents { items = bump id recents.items }
  unfolding add_recent
  add_recent_old id e = rw (e, add_recent)

pub path-recent_new :
    (p : Platform) (files : Files) (path : Bytes) (alias : Option Bytes)
    → (recent_new p files path alias).path ≡ path
unfolding recent_new
path-recent_new p files path alias = refl

-- `addRecent` does to the array what a most-recently-used list does: a game that is on the list
-- moves to the front, the others in their order; a new game goes in front, and of a full list the
-- oldest is dropped. The array stays valid.
pub add_recent-use_recent :
    (p : Platform) (files : Files) (recents : Array Recent) (rs : List Recent) (sd_path : Bytes)
    (alias : Option Bytes)
    → Lists recents rs
    → Lists
        (add_recent p files recents sd_path alias)
        (use_recent (recent_new p files (drop (length p.sdcard_path) sd_path) alias) rs)
add_recent-use_recent p files recents rs sd_path alias h =
    let path = drop (length p.sdcard_path) sd_path in
    let new = recent_new p files path alias in
    let at = search-Lists recents rs path h in
    let same = ap (λ q. find_path q rs) (path-recent_new p files path alias) in
    elim (Option-cases (find_path path rs)) [
      | inl e ↦
          rw
            (
              add_recent_new p files recents sd_path alias (at ∙ e),
              use_recent_new new rs (same ∙ e),
            )
            (add_new-Lists recents rs new h)
      | inr (i, e) ↦
          rw
            (
              add_recent_old p files recents sd_path alias i (at ∙ e),
              use_recent_old new rs i (same ∙ e),
            )
            (bump-Lists recents rs i new h (find_path-lt path rs i e))
    ]
