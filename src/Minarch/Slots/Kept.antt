-- ===== src/Minarch/Slots/Kept.antt =====
-- A state that the menu saves in a slot is the one that it loads from there.
use darkui.Base.{
  ℕ, ◌≡◌, ◌≢◌, refl, ap, ◌∙◌, ◌⊎◌, inl, inr, Bool, true, false, ◌++◌, Option, none, some, ◌==◌,
  if◌then◌else◌, length, suc, get_or, drop, drop-append_left, Option-cases,
}
use darkui.CString.{Bytes, equal}
use darkui.Names.{exact_match}
use darkui.Names.Match.{exact_match_refl}
use darkui.Launcher.Entries.{digits}
use darkui.Minarch.Config.{Disk, exists, is_file, write_file}
use darkui.Minarch.Menu.{text_at}
use darkui.Minarch.Saves.{Answers, Frontend, state_write}
use darkui.Minarch.Saves.Atomic.{IsGranted, at_end, write_file_same}
use darkui.Minarch.Saves.States.{state_write-Granted, state_read-whole, quietly}
use darkui.Minarch.Slots.{
  Game, Slot, slot_state_path, bmp_path, txt_path, update_state, put_disc, saved_card, save_state,
  slot_disc, other_disc, load_state,
}

-- The files of a slot have names of their own.
pub record IsApart (game : Game) (slot : ℕ) : Type 0 where
  pub state_last : equal (slot_state_path game slot) game.slot_path ≡ false
  pub state_bmp : equal (slot_state_path game slot) (bmp_path game slot) ≡ false
  pub state_txt : equal (slot_state_path game slot) (txt_path game slot) ≡ false
  pub txt_last : equal (txt_path game slot) game.slot_path ≡ false
  pub txt_bmp : equal (txt_path game slot) (bmp_path game slot) ≡ false

-- The current disc is in the folder of the playlist.
abbrev pub IsUnder : Game → Type 0
IsUnder game =
    (game.disc_path ≡ none)
    ⊎ ((name : Bytes) × (game.disc_path ≡ some (game.base_path ++ name))
        × ((get_or name 0 0 == b'/') ≡ false))

other_path :
    (path other text : Bytes) (disk : Disk)
    → equal path other ≡ false
    → write_file other text disk path ≡ disk path
unfolding write_file
other_path path other text disk d = rw d refl

text_at-some : (disk : Disk) (path text : Bytes) → disk path ≡ some text → text_at disk path ≡ text
text_at-some disk path text g = rw (g, text_at) refl

slot_disc_under :
    (game : Game) (name : Bytes)
    → (get_or name 0 0 == b'/') ≡ false
    → slot_disc game name ≡ game.base_path ++ name
slot_disc_under game name r = rw (r, slot_disc) refl

-- The disc is not changed where its name is the one that was put beside the state.
other_disc-same :
    (game : Game) (menu : Slot) (disk : Disk) (name : Bytes)
    → game.disc_path ≡ some (game.base_path ++ name)
    → (get_or name 0 0 == b'/') ≡ false
    → disk (txt_path game menu.slot) ≡ some name
    → other_disc game menu disk ≡ none
unfolding other_disc
other_disc-same game menu disk name d r t =
    let disc = game.base_path ++ name in
    let wanted : slot_disc game (text_at disk (txt_path game menu.slot)) ≡ disc =
      ap (slot_disc game) (text_at-some disk (txt_path game menu.slot) name t)
      ∙ slot_disc_under game name r in
    rw (d, other_disc)
      (ap (λ w. if exact_match w disc then none else some w) wanted
        ∙ ap (λ b. if b then none else some disc) (exact_match_refl disc))

put_disc-other :
    (game : Game) (menu : Slot) (path : Bytes) (disk : Disk)
    → equal path (txt_path game menu.slot) ≡ false
    → put_disc game menu disk path ≡ disk path
unfolding put_disc
put_disc-other game menu path disk d = elim (Option-cases game.disc_path) [
  | inl n ↦ rw (n, put_disc) refl
  | inr (disc, e) ↦
      rw (e, put_disc)
        (other_path path (txt_path game menu.slot) (drop (length game.base_path) disc) disk d)
]

put_disc-same :
    (game : Game) (menu : Slot) (name : Bytes) (disk : Disk)
    → game.disc_path ≡ some (game.base_path ++ name)
    → put_disc game menu disk (txt_path game menu.slot) ≡ some name
unfolding put_disc
put_disc-same game menu name disk e =
    let txt = txt_path game menu.slot in
    let put = drop (length game.base_path) (game.base_path ++ name) in
    rw (e, put_disc) (write_file_same txt put disk ∙ ap some (drop-append_left game.base_path name))

saved_card-state :
    (picture : Bytes) (game : Game) (menu : Slot) (written : Disk)
    → IsApart game menu.slot
    → saved_card picture game menu written (slot_state_path game menu.slot)
      ≡ written (slot_state_path game menu.slot)
unfolding saved_card
saved_card-state picture game menu written p =
    let path = slot_state_path game menu.slot in
    let put = put_disc game menu written in
    let drawn = write_file (bmp_path game menu.slot) picture put in
    other_path path game.slot_path (digits (suc menu.slot) menu.slot) drawn p.state_last
    ∙ other_path path (bmp_path game menu.slot) picture put p.state_bmp
    ∙ put_disc-other game menu path written p.state_txt

saved_card-disc :
    (picture : Bytes) (game : Game) (menu : Slot) (written : Disk) (name : Bytes)
    → IsApart game menu.slot
    → game.disc_path ≡ some (game.base_path ++ name)
    → saved_card picture game menu written (txt_path game menu.slot) ≡ some name
unfolding saved_card
saved_card-disc picture game menu written name p e =
    let path = txt_path game menu.slot in
    let put = put_disc game menu written in
    let drawn = write_file (bmp_path game menu.slot) picture put in
    other_path path game.slot_path (digits (suc menu.slot) menu.slot) drawn p.txt_last
    ∙ other_path path (bmp_path game menu.slot) picture put p.txt_bmp
    ∙ put_disc-same game menu name written e

save_state-Granted :
    (size : ℕ) (serialize : Bool → Option Bytes) (state picture : Bytes) (a : Answers) (game : Game)
    (menu : Slot) (frontend : Frontend) (disk : Disk)
    → serialize false ≡ some state
    → length state ≡ size
    → size ≢ 0
    → IsGranted size a
    → (written : Disk) × (save_state size true serialize a picture game menu frontend disk ≡ (
      (saved_card picture game menu written, true),
      (update_state game disk menu, record frontend { state_slot = menu.slot }),
    ))
      × (written (slot_state_path game menu.slot) ≡ some state)
unfolding save_state update_state
save_state-Granted size serialize state picture a game menu frontend disk s l n g =
    let filename = slot_state_path game menu.slot in
    let there = record frontend { state_slot = menu.slot } in
    let made = state_write size true serialize filename a there disk in
    let written = at_end disk made.0.0 in
    let updated = update_state game disk menu in
    let done = state_write-Granted size serialize state filename a there disk s l n g in
    (
      written,
      ap
            (λ b.
              if b
              then ((saved_card picture game menu written, true), (updated, made.1))
              else ((written, false), (updated, made.1)))
            done.0
          ∙ ap (λ f. ((saved_card picture game menu written, true), (updated, f))) done.2,
      done.1,
    )

load_state-some :
    (size : ℕ) (state : Bytes) (game : Game) (menu : Slot) (frontend : Frontend) (card : Disk)
    → length state ≡ size
    → size ≢ 0
    → IsApart game menu.slot
    → card (slot_state_path game menu.slot) ≡ some state
    → let loaded = load_state size true game menu frontend card in
      (loaded.0.given ≡ some (quietly state))
      × (loaded.0.disc ≡ other_disc game (update_state game card menu) card)
      × (loaded.1.1.state_slot ≡ menu.slot)
unfolding load_state update_state
load_state-some size state game menu frontend card l n p g =
    let path = slot_state_path game menu.slot in
    let text = digits (suc menu.slot) menu.slot in
    let there : exists card path ≡ true = ap is_file g in
    let left = write_file game.slot_path text card in
    let whole =
      state_read-whole size path state (record frontend { state_slot = menu.slot }) left n l
        (other_path path game.slot_path text card p.state_last ∙ g) in
    rw (there, load_state) (ap (λ r. r.0) whole, refl, ap (λ r. r.1.state_slot) whole)

other_disc-saved :
    (picture : Bytes) (game : Game) (menu : Slot) (written : Disk)
    → IsApart game menu.slot
    → IsUnder game
    → other_disc game menu (saved_card picture game menu written) ≡ none
unfolding other_disc
other_disc-saved picture game menu written p (inl n) = rw (n, other_disc) refl
other_disc-saved picture game menu written p (inr (name, e, r)) =
    other_disc-same game menu (saved_card picture game menu written) name e r
      (saved_card-disc picture game menu written name p e)

-- A save of the menu that is granted, memory too, succeeds, and a load from the same slot afterwards gives the
-- core the state that it had, with fast-forward off, changes no disc, and leaves the frontend at the menu's slot. The
-- slot's files must have different names, and the disc be in the folder of the playlist.
pub load_state-save_state :
    (size : ℕ) (serialize : Bool → Option Bytes) (state picture : Bytes) (a : Answers) (game : Game)
    (menu : Slot) (frontend later : Frontend) (disk : Disk)
    → serialize false ≡ some state
    → length state ≡ size
    → size ≢ 0
    → IsGranted size a
    → IsApart game menu.slot
    → IsUnder game
    → let saved = save_state size true serialize a picture game menu frontend disk in
      let loaded = load_state size true game saved.1.0 later saved.0.0 in
      (saved.0.1 ≡ true)
      × (loaded.0.given ≡ some (quietly state))
      × (loaded.0.disc ≡ none)
      × (saved.1.1.state_slot ≡ menu.slot)
      × (loaded.1.1.state_slot ≡ menu.slot)
unfolding update_state other_disc
load_state-save_state size serialize state picture a game menu frontend later disk s l n g p u =
    let (written, made, there) =
      save_state-Granted size serialize state picture a game menu frontend disk s l n g in
    let card = saved_card picture game menu written in
    let updated = update_state game disk menu in
    let found =
      load_state-some size state game updated later card l n p
        (saved_card-state picture game menu written p ∙ there) in
    (
      ap (λ r. r.0.1) made,
      ap (λ r. (load_state size true game r.1.0 later r.0.0).0.given) made ∙ found.0,
      ap (λ r. (load_state size true game r.1.0 later r.0.0).0.disc) made
          ∙ found.1
          ∙ other_disc-saved picture game menu written p u,
      ap (λ r. r.1.1.state_slot) made,
      ap (λ r. (load_state size true game r.1.0 later r.0.0).1.1.state_slot) made ∙ found.2,
    )
