-- ===== src/Settings/Tests.antt =====
-- A block of three bytes: saved with a full write, and shared by a host and a client.
use darkui.Base.{if◌then◌else◌, ◌≡◌, ◌⊎◌, refl, Bool, true, false, [], ◌∷◌, Option, none, some, All}
use darkui.CString.{Bytes, bytes, equal}
use darkui.Minarch.Config.{Disk}
use darkui.Minarch.Saves.{Answers}
use darkui.Minarch.Saves.Atomic.{at_end}
use darkui.Settings.{
  Shared, Calls, settings_path, ready, populate, init_settings_core, quit_settings_core,
  save_settings_core,
}
use darkui.Settings.Kept.{saves, save_settings_core-Kept}
use darkui.Settings.Shares.{Processes, Step, Reaches, hosts, held, Reaches-hosts}

abbrev defaults : Bytes
defaults = bytes "def"

abbrev old_card : Disk
old_card = λ p. if equal p (bytes "/u/msettings.bin") then some (bytes "old") else none

abbrev unshared : Shared
unshared = record { block = none; card = old_card }

abbrev shared_old : Shared
shared_old = record { block = some (bytes "old"); card = old_card }

abbrev granted : Calls
granted = record {
  opens = true;
  truncates = true;
  maps = true;
  sizes = λ i. some 3;
  opens_file = true;
  read = some 3;
}

abbrev full : Answers
full = record { opens = true; taken = 3; stored = 3; renames = true }

save_settings_core-Kept_example :
    let disks = save_settings_core 3 (settings_path (bytes "/u")) (bytes "new") full old_card in
    let next : Disk → Option Bool × Shared = λ card.
      init_settings_core defaults 3
        (some (bytes "/u"))
        granted
        (quit_settings_core true (record shared_old { card = card })) in
    All
      (λ card.
        ((next card).0 ≡ some true)
        × (((next card).1.block ≡ (next old_card).1.block)
            ⊎ ((next card).1.block ≡ some (bytes "new"))))
      disks
    × ((next (at_end old_card disks)).1.block
        ≡ (if saves 3 full then some (bytes "new") else (next old_card).1.block))
save_settings_core-Kept_example =
    save_settings_core-Kept defaults (bytes "new") (bytes "/u") 3 granted full shared_old refl refl
      (record {
        opened = refl;
        truncated = refl;
        mapped = refl;
        file_opened = refl;
        all_read = refl;
      })

-- the host starts, then a client
abbrev two_processes : Processes
two_processes = false ∷ true ∷ []

two_started :
    Reaches defaults 3
      (some (bytes "/u"))
      unshared
      []
      (init_settings_core defaults 3
        (some (bytes "/u"))
        granted
        (init_settings_core defaults 3 (some (bytes "/u")) granted unshared).1).1
      two_processes
unfolding init_settings_core ready populate
two_started =
    Reaches.then_step
      (Reaches.then_step (Reaches.stays unshared []) (Step.starts granted unshared [] true refl))
      (Step.starts granted (init_settings_core defaults 3 (some (bytes "/u")) granted unshared).1
        (true ∷ []) false refl)

Reaches-hosts_example :
    hosts two_processes
    ≡ held
        (init_settings_core defaults 3
          (some (bytes "/u"))
          granted
          (init_settings_core defaults 3 (some (bytes "/u")) granted unshared).1).1.block
Reaches-hosts_example = Reaches-hosts refl two_started
