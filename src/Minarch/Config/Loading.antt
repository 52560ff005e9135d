-- ===== src/Minarch/Config/Loading.antt =====
-- Which file a configuration is loaded from, after it was written.
use darkui.Base.{
  ◌≡◌, refl, sym, ap, ap₂, ◌∙◌, inl, inr, Bool, true, false, Option, none, some, arith,
  Option-cases, Bool-cases,
}
use darkui.CString.{Bytes, equal}
use darkui.CString.Compare.{equal_refl}
use darkui.Minarch.Values.{print_lines}
use darkui.Minarch.Config.{
  Config, Disk, Place, exists, is_file, game_path, console_path, get_path, write_file, unlink,
}
use darkui.Minarch.Config.Files.{load, write, config_pairs, is_game, loaded_by}

-- The configuration knows whether the game has a file of its own.
abbrev pub Agrees : Place → Disk → Config → Type 0
Agrees place disk config = exists disk (game_path place) ≡ is_game config.loaded

pub load-some :
    (overscan override : Bool) (place : Place) (disk : Disk) (config : Config) (text : Bytes)
    → exists disk (game_path place) ≡ override
    → disk (get_path place override) ≡ some text
    → ((load overscan place disk config).user_cfg ≡ some text)
      × ((load overscan place disk config).loaded ≡ loaded_by override (some text))
unfolding load
load-some overscan override place disk config text e g =
    let user : disk (get_path place (exists disk (game_path place))) ≡ some text =
      ap (λ b. disk (get_path place b)) e ∙ g in
    (user, ap₂ loaded_by e user)

pub load-Agrees :
    (overscan : Bool) (place : Place) (disk : Disk) (config : Config)
    → Agrees place disk (load overscan place disk config)
unfolding load
load-Agrees overscan place disk config = elim (Option-cases (disk (game_path place))) [
  | inr (text, g) ↦
      let read = load-some overscan true place disk config text (ap is_file g) g in
      ap is_file g ∙ sym (ap is_game read.1)
  | inl n ↦
      let missing : exists disk (game_path place) ≡ false = ap is_file n in
      elim (Option-cases (disk (console_path place))) [
        | inr (text, c) ↦
            let read = load-some overscan false place disk config text missing c in
            missing ∙ sym (ap is_game read.1)
        | inl c ↦
            let user = ap (λ b. disk (get_path place b)) missing ∙ c in
            missing ∙ sym (ap is_game (ap₂ loaded_by missing user))
      ]
]

pub exists-none : (disk : Disk) (path : Bytes) → exists disk path ≡ false → disk path ≡ none
exists-none disk path h = none_of (disk path) h
  where
    none_of : (o : Option Bytes) → is_file o ≡ false → o ≡ none
    none_of none h = refl
    none_of (some text) h = absurd (ground (arith, h))

write-game :
    (place : Place) (config : Config) (disk : Disk)
    → (write true true place config disk).1 (game_path place)
      ≡ some (print_lines (config_pairs config))
unfolding write write_file
write-game place config disk = rw (equal_refl (game_path place))

-- Writing for the console takes the game's own file away.
write-console :
    (place : Place) (config : Config) (disk : Disk)
    → equal (game_path place) (console_path place) ≡ false
    → Agrees place disk config
    → ((write true false place config disk).1 (game_path place) ≡ none)
      × ((write true false place config disk).1 (console_path place)
          ≡ some (print_lines (config_pairs config)))
unfolding write write_file unlink
write-console place config disk d a = (
  rw d (elim (Bool-cases (is_game config.loaded)) [
    | inl t ↦ rw t (rw (equal_refl (game_path place)) refl)
    | inr f ↦ rw f (exists-none disk (game_path place) (a ∙ f))
  ]),
  rw (equal_refl (console_path place)) refl,
)

-- What was written is loaded again, as the game's own or as the console's as it was written, and
-- the configuration that is loaded knows whether the game has a file of its own. The game's file
-- and the console's must not have the same name, and before the write the configuration must know
-- whether the game has a file.
pub load-write :
    (overscan override : Bool) (place : Place) (config fresh : Config) (disk : Disk)
    → equal (game_path place) (console_path place) ≡ false
    → Agrees place disk config
    → let written = write true override place config disk in
      let read = load overscan place written.1 fresh in
      (read.user_cfg ≡ some (print_lines (config_pairs config)))
      × (read.loaded ≡ written.0.loaded)
      × Agrees place written.1 read
load-write overscan true place config fresh disk d a =
    let made = (write true true place config disk).1 in
    let text = print_lines (config_pairs config) in
    let read =
      load-some overscan true place made fresh text (ap is_file (write-game place config disk))
        (write-game place config disk) in
    (read.0, read.1 ∙ unfold write in refl, load-Agrees overscan place made fresh)
load-write overscan false place config fresh disk d a =
    let made = (write true false place config disk).1 in
    let text = print_lines (config_pairs config) in
    let stored = write-console place config disk d a in
    let read = load-some overscan false place made fresh text (ap is_file stored.0) stored.1 in
    (read.0, read.1 ∙ unfold write in refl, load-Agrees overscan place made fresh)
