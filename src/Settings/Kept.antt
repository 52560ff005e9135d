-- ===== src/Settings/Kept.antt =====
-- However a save of the settings ends, the next host has the old ones or the new ones.
use darkui.Base.{
  ℕ, ◌≡◌, refl, ap, ◌∙◌, ◌⊎◌, inl, inr, Bool, true, false, ◌&&◌, [], Option, some, arith, ◌==◌,
  ==_iff, ltb, if◌then◌else◌, length, take, take_all, All, All-mono, sym, Bool-cases,
}
use darkui.CString.{Bytes}
use darkui.Minarch.Config.{Disk, write_file}
use darkui.Minarch.Saves.{Answers, tmp_path}
use darkui.Minarch.Saves.Atomic.{IsOldOrNew, write_file_same, write_tmp, rename_tmp, at_end}
use darkui.Settings.{
  Shared, Calls, settings_path, populate, init_settings_core, quit_settings_core,
  save_settings_core,
}

save_settings_core-IsOldOrNew :
    (size : ℕ) (path settings : Bytes) (a : Answers) (disk : Disk)
    → length settings ≡ size
    → a.stored ≡ a.taken
    → All (IsOldOrNew path disk (some settings)) (save_settings_core size path settings a disk)
unfolding save_settings_core
save_settings_core-IsOldOrNew size path settings a disk l c =
    let opened = write_file (tmp_path path) [] disk in
    let kept_open : opened path ≡ disk path = write_tmp path [] disk in
    let written = write_file (tmp_path path) (take a.stored settings) opened in
    let kept : written path ≡ disk path =
      write_tmp path (take a.stored settings) opened ∙ kept_open in
    elim (Bool-cases a.opens) [
      | inr u ↦ rw u (inl refl, tt)
      | inl u ↦ rw u (
        inl refl,
        (
          inl kept_open,
          (
            inl kept,
            (
              elim (Bool-cases (a.taken == size)) [
                | inr v ↦ rw v (inl kept)
                | inl v ↦ elim (Bool-cases a.renames) [
                  | inr w ↦ rw (v, w) (inl kept)
                  | inl w ↦
                      let whole =
                        take_all a.stored settings
                          (omega (arith, (==_iff a.taken size).0 v, l, c)) in
                      rw (v, w)
                        (inr (
                          (rename_tmp path (take a.stored settings) written
                            (write_file_same (tmp_path path) (take a.stored settings) opened)).0
                          ∙ ap some whole))
                ]
              ],
              tt,
            ),
          ),
        ),
      )
    ]

-- whether `SaveSettingsCore` comes to its `rename` and this succeeds
abbrev pub saves : ℕ → Answers → Bool
saves size a = a.opens && (a.taken == size && a.renames)

save_settings_core-at_end :
    (size : ℕ) (path settings : Bytes) (a : Answers) (disk : Disk)
    → length settings ≡ size
    → a.stored ≡ a.taken
    → at_end disk (save_settings_core size path settings a disk) path
      ≡ (if saves size a then some settings else disk path)
unfolding save_settings_core
save_settings_core-at_end size path settings a disk l c =
    let opened = write_file (tmp_path path) [] disk in
    let written = write_file (tmp_path path) (take a.stored settings) opened in
    let kept : written path ≡ disk path =
      write_tmp path (take a.stored settings) opened ∙ write_tmp path [] disk in
    elim (Bool-cases a.opens) [
      | inr u ↦ rw u refl
      | inl u ↦ elim (Bool-cases (a.taken == size)) [
        | inr v ↦ rw (u, v) kept
        | inl v ↦ elim (Bool-cases a.renames) [
          | inr w ↦ rw (u, v, w) kept
          | inl w ↦
              rw (u, v, w)
                ((rename_tmp path (take a.stored settings) written
                    (write_file_same (tmp_path path) (take a.stored settings) opened)).0
                  ∙ ap some
                      (take_all a.stored settings (omega (arith, (==_iff a.taken size).0 v, l, c))))
        ]
      ]
    ]

-- The next host's system grants what it needs.
pub record IsHosting (size : ℕ) (calls : Calls) : Type 0 where
  pub opened : calls.opens ≡ true
  pub truncated : calls.truncates ≡ true
  pub mapped : calls.maps ≡ true
  pub file_opened : calls.opens_file ≡ true
  pub all_read : calls.read ≡ some size

populate-some :
    (default_settings settings : Bytes) (size : ℕ) (calls : Calls)
    → IsHosting size calls
    → length settings ≡ size
    → populate default_settings size calls (some settings) ≡ settings
unfolding populate
populate-some default_settings settings size calls g l =
    let whole : take size (take size settings) ≡ settings =
      ap (take size) (take_all size settings (omega (arith, l)))
      ∙ take_all size settings (omega (arith, l)) in
    let full : ltb (length settings) size ≡ false = ground (arith, l) in
    rw (populate, g.file_opened) (rw (g.all_read) (rw (whole) (rw full refl)))

init_settings_core-host :
    (default_settings userdata : Bytes) (size : ℕ) (calls : Calls) (shared : Shared)
    → IsHosting size calls
    → init_settings_core default_settings size
        (some userdata)
        calls
        (quit_settings_core true shared)
      ≡ (
        some true,
        record shared {
          block =
              some (populate default_settings size calls (shared.card (settings_path userdata)));
        },
      )
unfolding init_settings_core quit_settings_core
init_settings_core-host default_settings userdata size calls shared g =
    rw (g.opened, g.truncated, g.mapped) refl

-- At every moment of a save of the settings, were it cut off there, the next process after the
-- host has quit is the host, and its block has what it would have had without the save or the
-- settings that were saved; at the end it has these if the save came to its rename, and else what
-- it would have had. The file must hold all that `write` says that it took, and the next host's
-- calls must be granted.
pub save_settings_core-Kept :
    (default_settings settings userdata : Bytes) (size : ℕ) (calls : Calls) (a : Answers)
    (shared : Shared)
    → length settings ≡ size
    → a.stored ≡ a.taken
    → IsHosting size calls
    → let disks = save_settings_core size (settings_path userdata) settings a shared.card in
      let next : Disk → Option Bool × Shared = λ card.
        init_settings_core default_settings size
          (some userdata)
          calls
          (quit_settings_core true (record shared { card = card })) in
      All
        (λ card.
          ((next card).0 ≡ some true)
          × (((next card).1.block ≡ (next shared.card).1.block)
              ⊎ ((next card).1.block ≡ some settings)))
        disks
      × ((next (at_end shared.card disks)).1.block
          ≡ (if saves size a then some settings else (next shared.card).1.block))
save_settings_core-Kept default_settings settings userdata size calls a shared l c g =
    let path = settings_path userdata in
    let next : Disk → Option Bool × Shared = λ card.
      init_settings_core default_settings size (some userdata) calls
        (quit_settings_core true (record shared { card = card })) in
    let host = λ (card : Disk).
      init_settings_core-host default_settings userdata size calls (record shared { card = card })
        g in
    let from_file = λ (file : Option Bytes). some (populate default_settings size calls file) in
    let block = λ (card : Disk). ap (λ r. r.1.block) (host card) in
    let new = ap some (populate-some default_settings settings size calls g l) in
    (
      All-mono
          (λ card h. (
            ap (λ r. r.0) (host card),
            elim h [
              | inl old ↦ inl (block card ∙ ap from_file old ∙ sym (block shared.card))
              | inr e ↦ inr (block card ∙ ap from_file e ∙ new)
            ],
          ))
          (save_settings_core size path settings a shared.card)
          (save_settings_core-IsOldOrNew size path settings a shared.card l c),
      block (at_end shared.card (save_settings_core size path settings a shared.card))
          ∙ ap from_file (save_settings_core-at_end size path settings a shared.card l c)
          ∙ elim (Bool-cases (saves size a)) [
            | inl t ↦ rw t new
            | inr f ↦ rw f (sym (block shared.card))
          ],
    )
