-- ===== src/Launcher/Root/Systems.antt =====
-- The systems of the root list: one entry for each name.
use darkui.Base.{
  ◌≡◌, ◌⊎◌, ◌↔◌, inl, inr, true, false, Bool-cases, List, [], ◌∷◌, Option, none, some, refl, ap,
  ◌∙◌,
}
use darkui.CString.{Bytes}
use darkui.Names.Match.{exact_match_iff}
use darkui.Launcher.Entries.{Entry}
use darkui.Launcher.Root.{same_name, drop_doubles}

-- No entry has the name of the one before it.
abbrev pub Apart : Option Entry → List Entry → Type 0
Apart prev [] = Unit
Apart prev (e ∷ entries) = (same_name prev e ≡ false) × Apart (some e) entries

-- Some entry of the list bears the name.
abbrev pub Bears : Bytes → List Entry → Type 0
Bears name [] = ⊥
Bears name (e ∷ entries) = (e.name ≡ name) ⊎ Bears name entries

drop_doubles-Apart :
    (prev : Option Entry) (entries : List Entry) → Apart prev (drop_doubles prev entries)
unfolding drop_doubles
drop_doubles-Apart prev [] = tt
drop_doubles-Apart prev (e ∷ entries) =
    let kept = drop_doubles-Apart (some e) entries in
    let dropped = drop_doubles-Apart prev entries in
    elim (Bool-cases (same_name prev e)) [ inl t ↦ rw t dropped | inr t ↦ rw t (t, kept) ]

same_name-some :
    (prev : Option Entry) (e : Entry)
    → same_name prev e ≡ true
    → (p : Entry) × (prev ≡ some p) × (p.name ≡ e.name)
unfolding same_name
same_name-some none e h = absurd cc
same_name-some (some p) e h = (p, refl, (exact_match_iff p.name e.name).0 h)

-- What is dropped has the name of the last that was kept.
drop_doubles-Bears :
    (prev : Option Entry) (name : Bytes) (entries : List Entry)
    → Bears name entries
    → ((p : Entry) × (prev ≡ some p) × (p.name ≡ name)) ⊎ Bears name (drop_doubles prev entries)
unfolding drop_doubles
drop_doubles-Bears prev name [] b = elim b [ ]
drop_doubles-Bears prev name (e ∷ entries) (inl b) = elim (Bool-cases (same_name prev e)) [
  | inl t ↦ let (p, at, same) = same_name-some prev e t in inl (p, at, same ∙ b)
  | inr t ↦ rw t (inr (inl b))
]
drop_doubles-Bears prev name (e ∷ entries) (inr b) =
    let dropped = drop_doubles-Bears prev name entries b in
    let kept = drop_doubles-Bears (some e) name entries b in
    elim (Bool-cases (same_name prev e)) [
      | inl t ↦ rw t dropped
      | inr t ↦ rw t (elim kept [
        | inl (p, at, same) ↦ inr (inl (ap Entry.name (some_entry e p at) ∙ same))
        | inr later ↦ inr (inr later)
      ])
    ]
  where
    some_entry : (a c : Entry) → some a ≡ some c → a ≡ c
    some_entry a c h = cc

drop_doubles-old :
    (prev : Option Entry) (name : Bytes) (entries : List Entry)
    → Bears name (drop_doubles prev entries)
    → Bears name entries
unfolding drop_doubles
drop_doubles-old prev name [] b = elim b [ ]
drop_doubles-old prev name (e ∷ entries) b =
    let kept = drop_doubles-old (some e) name entries in
    let dropped = drop_doubles-old prev name entries in
    elim (Bool-cases (same_name prev e)) [
      | inl t ↦ inr (dropped (rw t at b))
      | inr t ↦ elim (rw t at b) as (λ x. Bears name (e ∷ entries)) [
        | inl here ↦ inl here
        | inr later ↦ inr (kept later)
      ]
    ]

-- The loop of `getRoot` over the sorted consoles leaves no two neighbours of one name, and a name
-- is on the list that it leaves exactly if it was there before.
pub drop_doubles-names :
    (entries : List Entry)
    → Apart none (drop_doubles none entries)
      × ((name : Bytes) → Bears name (drop_doubles none entries) ↔ Bears name entries)
drop_doubles-names entries = (
  drop_doubles-Apart none entries,
  λ name. (
    drop_doubles-old none name entries,
    λ b. elim (drop_doubles-Bears none name entries b) [
      | inl (p, at, same) ↦ absurd cc
      | inr there ↦ there
    ],
  ),
)
