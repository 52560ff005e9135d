-- ===== src/Minarch/Saves/States.antt =====
-- States of a game, written and read, and the variables of the frontend meanwhile.
use darkui.Base.{
  sym, ℕ, ◌-◌, ◌⊎◌, if◌then◌else◌, ◌≤◌, ◌≡◌, ◌≢◌, refl, ap, ◌∙◌, inl, inr, Bool, true, false, ◌&&◌,
  [], ◌++◌, Option, none, some, arith, ◌==◌, ==_iff, length, length-append, length-take,
  length-replicate, take, replicate, take_all, append-nil, All, Bool-cases, Option-cases,
}
use darkui.CString.{Bytes, equal}
use darkui.CString.Compare.{equal_refl}
use darkui.Minarch.Config.{Disk, write_file, unlink}
use darkui.Minarch.Saves.{
  Answers, Frontend, Given, tmp_path, state_write, state_read, state_path, state_autosave,
  state_resume, auto_resume_slot,
}
use darkui.Minarch.Saves.Atomic.{
  IsGranted, at_end, write_file_same, write_tmp, unlink_tmp, rename_tmp,
}

-- The file has its old text, or the state that the core gave.
abbrev pub IsOldOrGiven : (Bool → Option Bytes) → Bytes → Disk → Disk → Type 0
IsOldOrGiven serialize filename disk d =
    (d filename ≡ disk filename)
    ⊎ ((state : Bytes) × (serialize false ≡ some state) × (d filename ≡ some state))

-- Whatever `calloc`, `fopen`, the core, `fwrite` and `rename` answer: at every moment of
-- `State_write` the state under its name is the one from before or the whole one that the core
-- gave; at the end the latter is there if `State_write` says that it succeeded, and else the one
-- from before; and fast-forward and the slot are as they were. A state of the core must have the
-- size that the core says, and the file must hold at its closing all that `fwrite` took.
pub state_write-IsOldOrNew :
    (size : ℕ) (granted : Bool) (serialize : Bool → Option Bytes) (filename : Bytes) (a : Answers)
    (frontend : Frontend) (disk : Disk)
    → ((state : Bytes) → serialize false ≡ some state → length state ≡ size)
    → a.stored ≡ a.taken
    → let made = state_write size granted serialize filename a frontend disk in
      All (IsOldOrGiven serialize filename disk) made.0.0
      × (at_end disk made.0.0 filename ≡ (if made.0.1 then serialize false else disk filename))
      × (made.1 ≡ frontend)
unfolding state_write
state_write-IsOldOrNew size granted serialize filename a frontend disk l c =
    let tmp = tmp_path filename in
    let opened = write_file tmp [] disk in
    let kept_open : opened filename ≡ disk filename = write_tmp filename [] disk in
    elim (Bool-cases (size == 0)) [
      | inl t ↦ rw t ((inl refl, tt), refl, refl)
      | inr f ↦ elim (Bool-cases granted) [
        | inr n ↦ rw (f, n) ((inl refl, tt), refl, refl)
        | inl y ↦ elim (Bool-cases a.opens) [
          | inr u ↦
              let kept = unlink_tmp filename disk in
              rw (f, y, u) ((inl refl, (inl kept, tt)), kept, refl)
          | inl u ↦ elim (Option-cases (serialize false)) [
            | inl none_given ↦
                let kept = unlink_tmp filename opened ∙ kept_open in
                rw (f, y, u)
                  (rw none_given ((inl refl, (inl kept_open, (inl kept, tt))), kept, refl))
            | inr (state, s) ↦
                let closed = write_file tmp (take a.stored state) opened in
                let kept : closed filename ≡ disk filename =
                  write_tmp filename (take a.stored state) opened ∙ kept_open in
                elim (Bool-cases (size == a.taken && a.renames)) [
                  | inr v ↦
                      let removed = unlink_tmp filename closed ∙ kept in
                      rw (f, y, u)
                        (rw s (
                          rw v (
                            (inl refl, (inl kept_open, (inl kept, (inl kept, (inl removed, tt))))),
                            removed,
                            refl,
                          )))
                  | inl v ↦
                      let whole : length state ≤ a.stored =
                        omega (arith, (==_iff size a.taken).0 (ground (arith, v)), l state s, c) in
                      let new =
                        (rename_tmp filename (take a.stored state) closed
                          (write_file_same tmp (take a.stored state) opened)).0
                        ∙ ap some (take_all a.stored state whole) in
                      let given = inr (state, s, new) in
                      rw (f, y, u)
                        (rw s (
                          rw v (
                            (inl refl, (inl kept_open, (inl kept, (given, (given, tt))))),
                            new,
                            refl,
                          )))
                ]
          ]
        ]
      ]
    ]

-- Whatever the file holds, the core is given as many bytes as it asks for, with fast-forward off.
pub state_read-length :
    (size : ℕ) (granted : Bool) (filename : Bytes) (given : Given) (frontend : Frontend)
    (disk : Disk)
    → (state_read size granted filename frontend disk).0 ≡ some given
    → (length given.state ≡ size) × (given.fast_forward ≡ false)
unfolding state_read
state_read-length size granted filename given frontend disk h = elim (Bool-cases (size == 0)) [
  | inl t ↦ absurd (ground (arith, rw (t, state_read) at h))
  | inr f ↦ elim (Bool-cases granted) [
    | inr n ↦ absurd (ground (arith, rw (f, n, state_read) at h))
    | inl y ↦ elim (Option-cases (disk filename)) [
      | inl n ↦ absurd (ground (arith, rw (f, y, state_read) at (rw (n, state_read) at h)))
      | inr (text, g) ↦
          let read = take size text in
          let state = read ++ replicate (size - length read) 0 in
          let made : record { state = state; fast_forward = false } ≡ given =
            ground (arith, rw (f, y, state_read) at (rw (g, state_read) at h)) in
          (
            omega (
              arith,
              ap (λ r. length r.state) made,
              length-append read (replicate (size - length read) 0),
              length-replicate {A = ℕ} (size - length read) 0,
              length-take size text,
            ),
            sym (ap (λ r. r.fast_forward) made),
          )
    ]
  ]
]

-- the call of `core.unserialize` with fast-forward off
abbrev pub quietly : Bytes → Given
quietly state = record { state = state; fast_forward = false }

pub state_read-whole :
    (size : ℕ) (filename state : Bytes) (frontend : Frontend) (disk : Disk)
    → size ≢ 0
    → length state ≡ size
    → disk filename ≡ some state
    → state_read size true filename frontend disk ≡ (some (quietly state), frontend)
unfolding state_read
state_read-whole size filename state frontend disk n l g =
    let some_size : (size == 0) ≡ false = ground (arith, n) in
    let whole : take size state ≡ state = take_all size state (omega (arith, l)) in
    rw (some_size, g, state_read)
      (ap (λ s. (some (quietly s), frontend))
        (ap (λ read. read ++ replicate (size - length read) 0) whole
          ∙ ap (λ k. state ++ replicate k 0) {x = size - length state} {y = 0} (omega (arith, l))
          ∙ append-nil state))

pub state_write-true :
    (size : ℕ) (serialize : Bool → Option Bytes) (state filename : Bytes) (a : Answers)
    (frontend : Frontend) (disk : Disk)
    → serialize false ≡ some state
    → size ≢ 0
    → IsGranted size a
    → (state_write size true serialize filename a frontend disk).0.1 ≡ true
unfolding state_write
state_write-true size serialize state filename a frontend disk s n g =
    let some_size : (size == 0) ≡ false = ground (arith, n) in
    let granted : (size == a.taken && a.renames) ≡ true = ground (arith, g.all_taken, g.renamed) in
    rw (some_size, g.opened) (rw s granted)

only_size :
    (given : Option Bytes) (state other : Bytes) (size : ℕ)
    → given ≡ some state
    → given ≡ some other
    → length state ≡ size
    → length other ≡ size
only_size given state other size s e l = let same : other ≡ state = cc in ap length same ∙ l

-- A write that meets no refusal.
pub state_write-Granted :
    (size : ℕ) (serialize : Bool → Option Bytes) (state filename : Bytes) (a : Answers)
    (frontend : Frontend) (disk : Disk)
    → serialize false ≡ some state
    → length state ≡ size
    → size ≢ 0
    → IsGranted size a
    → let made = state_write size true serialize filename a frontend disk in
      (made.0.1 ≡ true) × (at_end disk made.0.0 filename ≡ some state) × (made.1 ≡ frontend)
state_write-Granted size serialize state filename a frontend disk s l n g =
    let same : a.stored ≡ a.taken = omega (arith, g.all_taken, g.all_stored) in
    let sized = λ (t : Bytes) (e : serialize false ≡ some t).
      only_size (serialize false) state t size s e l in
    let kept = state_write-IsOldOrNew size true serialize filename a frontend disk sized same in
    let done = state_write-true size serialize state filename a frontend disk s n g in
    (done, kept.1 ∙ ap (λ b. if b then serialize false else disk filename) done ∙ s, kept.2)

state_autosave-Granted :
    (size : ℕ) (serialize : Bool → Option Bytes) (state states_dir name : Bytes) (a : Answers)
    (frontend : Frontend) (disk : Disk)
    → serialize false ≡ some state
    → length state ≡ size
    → size ≢ 0
    → IsGranted size a
    → let (disks, after) = state_autosave size true serialize states_dir name a frontend disk in
      (at_end disk disks (state_path states_dir name auto_resume_slot) ≡ some state)
      × (after ≡ frontend)
unfolding state_autosave
state_autosave-Granted size serialize state states_dir name a frontend disk s l n g =
    let there = record frontend { state_slot = auto_resume_slot } in
    let back : Frontend → Frontend = λ f. record f { state_slot = frontend.state_slot } in
    let filename = state_path states_dir name auto_resume_slot in
    let made = state_write-Granted size serialize state filename a there disk s l n g in
    (made.1, ap back made.2)

state_resume-some :
    (get_int : Bytes → ℕ) (size : ℕ) (text resume_slot_path states_dir name state : Bytes)
    (frontend : Frontend) (disk : Disk)
    → disk resume_slot_path ≡ some text
    → size ≢ 0
    → length state ≡ size
    → let left = unlink resume_slot_path disk in
      left (state_path states_dir name (get_int text)) ≡ some state
      → state_resume get_int size true resume_slot_path states_dir name frontend disk
        ≡ ((some (quietly state), left), frontend)
unfolding state_resume
state_resume-some get_int size text resume_slot_path states_dir name state frontend disk g n l e =
    let left = unlink resume_slot_path disk in
    let there = record frontend { state_slot = get_int text } in
    let back : Option Given × Frontend → (Option Given × Disk) × Frontend =
      λ m. ((m.0, left), record m.1 { state_slot = frontend.state_slot }) in
    let filename = state_path states_dir name (get_int text) in
    rw (g, state_resume) (ap back (state_read-whole size filename state there left n l e))

under_another :
    (path other text : Bytes) (disk : Disk)
    → equal path other ≡ false
    → (unlink other (write_file other text disk) path ≡ disk path)
      × (unlink other (write_file other text disk) other ≡ none)
unfolding unlink write_file
under_another path other text disk d = (rw d refl, rw (equal_refl other))

-- What the frontend saves on its own before sleep, it gives back to the core, with fast-forward
-- off, when the launcher names its slot; after both the slot and fast-forward are what they were.
-- Memory and the calls of the save must be granted.
pub state_resume-state_autosave :
    (get_int : Bytes → ℕ) (size : ℕ) (serialize : Bool → Option Bytes)
    (state text resume_slot_path states_dir name : Bytes) (a : Answers) (frontend later : Frontend)
    (disk : Disk)
    → serialize false ≡ some state
    → length state ≡ size
    → size ≢ 0
    → IsGranted size a
    → get_int text ≡ auto_resume_slot
    → equal (state_path states_dir name auto_resume_slot) resume_slot_path ≡ false
    → let (disks, after) = state_autosave size true serialize states_dir name a frontend disk in
      let resumed =
        state_resume get_int size true resume_slot_path states_dir name later
          (write_file resume_slot_path text (at_end disk disks)) in
      (resumed.0.0 ≡ some (quietly state))
      × (resumed.0.1 resume_slot_path ≡ none)
      × (after ≡ frontend)
      × (resumed.1 ≡ later)
state_resume-state_autosave get_int size serialize state text resume_slot_path states_dir name a
      frontend later disk s l n g e d =
    let filename = state_path states_dir name auto_resume_slot in
    let (disks, after) = state_autosave size true serialize states_dir name a frontend disk in
    let saved =
      state_autosave-Granted size serialize state states_dir name a frontend disk s l n g in
    let marked = write_file resume_slot_path text (at_end disk disks) in
    let left = under_another filename resume_slot_path text (at_end disk disks) d in
    let there : unlink resume_slot_path marked (state_path states_dir name (get_int text))
        ≡ some state =
      ap (λ slot. unlink resume_slot_path marked (state_path states_dir name slot)) e
      ∙ left.0
      ∙ saved.0 in
    let resumed =
      state_resume-some get_int size text resume_slot_path states_dir name state later marked
        (write_file_same resume_slot_path text (at_end disk disks)) n l there in
    (
      ap (λ r. r.0.0) resumed,
      ap (λ r. r.0.1 resume_slot_path) resumed ∙ left.1,
      saved.1,
      ap (λ r. r.1) resumed,
    )
