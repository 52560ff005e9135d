-- ===== src/Minarch/Saves/Atomic.antt =====
-- A save under its name is never half written.
use darkui.Base.{
  ℕ, ◌≡◌, ◌≢◌, refl, ap, ◌∙◌, ◌⊎◌, inl, inr, true, false, List, [], ◌∷◌, ◌++◌, Option, none, some,
  arith, ◌==◌, length, length-append, take, drop, take_all, drop_all, append-nil, Bool-cases,
}
use darkui.CString.{Bytes, bytes, equal}
use darkui.CString.Compare.{equal_iff, equal_refl}
use darkui.Minarch.Options.Chosen.{equal_apart}
use darkui.Minarch.Config.{Disk, write_file, unlink}
use darkui.Minarch.Saves.{Answers, tmp_path, rename, finish, memory_write, memory_read}

-- The file has its old text or the new one.
abbrev pub IsOldOrNew : Bytes → Disk → Option Bytes → Disk → Type 0
IsOldOrNew filename disk new d = (d filename ≡ disk filename) ⊎ (d filename ≡ new)

pub tmp_apart : (filename : Bytes) → equal filename (tmp_path filename) ≡ false
tmp_apart filename = elim (Bool-cases (equal filename (tmp_path filename))) [
  | inr f ↦ f
  | inl t ↦
      let longer = ap length ((equal_iff filename (tmp_path filename)).0 t) in
      absurd (omega (arith, longer, length-append filename (bytes ".tmp")))
]

pub tmp_apart_sym : (filename : Bytes) → equal (tmp_path filename) filename ≡ false
tmp_apart_sym filename =
    equal_apart filename (tmp_path filename) filename (tmp_apart filename) (equal_refl filename)

pub write_file_same : (path text : Bytes) (disk : Disk) → write_file path text disk path ≡ some text
unfolding write_file
write_file_same path text disk = rw (equal_refl path)

pub write_tmp :
    (filename text : Bytes) (disk : Disk)
    → write_file (tmp_path filename) text disk filename ≡ disk filename
unfolding write_file
write_tmp filename text disk = rw (tmp_apart filename)

pub unlink_tmp :
    (filename : Bytes) (disk : Disk) → unlink (tmp_path filename) disk filename ≡ disk filename
unfolding unlink
unlink_tmp filename disk = rw (tmp_apart filename)

pub rename_tmp :
    (filename text : Bytes) (disk : Disk)
    → disk (tmp_path filename) ≡ some text
    → (rename (tmp_path filename) filename disk filename ≡ some text)
      × (rename (tmp_path filename) filename disk (tmp_path filename) ≡ none)
unfolding rename write_file unlink
rename_tmp filename text disk g = (
  rw (g, rename) (rw (equal_refl filename) refl),
  rw (g, rename) (rw (tmp_apart_sym filename, equal_refl (tmp_path filename)) refl),
)

-- the state of the card at the end
abbrev pub at_end : Disk → List Disk → Disk
at_end disk [] = disk
at_end disk (d ∷ disks) = at_end d disks

-- Nothing fails: the file opens, all bytes are taken and stored, and the rename is made.
pub record IsGranted (size : ℕ) (a : Answers) : Type 0 where
  pub opened : a.opens ≡ true
  pub all_taken : a.taken ≡ size
  pub all_stored : a.stored ≡ size
  pub renamed : a.renames ≡ true

memory_write-at_end :
    (size : ℕ) (saved filename : Bytes) (a : Answers) (disk : Disk)
    → length saved ≡ size
    → size ≢ 0
    → IsGranted size a
    → at_end disk (memory_write size (some saved) filename a disk) filename ≡ some saved
unfolding memory_write finish
memory_write-at_end size saved filename a disk l n g =
    let opened = write_file (tmp_path filename) [] disk in
    let closed = write_file (tmp_path filename) (take a.stored saved) opened in
    let some_size : (size == 0) ≡ false = ground (arith, n) in
    let taken : (size == a.taken) ≡ true = ground (arith, g.all_taken) in
    rw (some_size, g.opened)
      (rw (taken, g.renamed)
        ((rename_tmp filename (take a.stored saved) closed
            (write_file_same (tmp_path filename) (take a.stored saved) opened)).0
          ∙ ap some (take_all a.stored saved (omega (arith, g.all_stored, l)))))

-- A save that was written is read back into the memory of the core, whatever this held.
pub memory_read-memory_write :
    (size : ℕ) (saved memory filename : Bytes) (a : Answers) (disk : Disk)
    → length saved ≡ size
    → length memory ≡ size
    → size ≢ 0
    → IsGranted size a
    → memory_read size filename memory
        (at_end disk (memory_write size (some saved) filename a disk))
      ≡ saved
unfolding memory_read
memory_read-memory_write size saved memory filename a disk l m n g =
    let some_size : (size == 0) ≡ false = ground (arith, n) in
    let whole : take size saved ≡ saved = take_all size saved (omega (arith, l)) in
    rw (some_size, memory_write-at_end size saved filename a disk l n g)
      (ap (λ read. read ++ drop (length read) memory) whole
        ∙ ap (λ rest. saved ++ rest) (drop_all (length saved) memory (omega (arith, l, m)))
        ∙ append-nil saved)
