-- ===== src/Launcher/Stack/Restore.antt =====
-- Opening a directory again after it was closed.
use darkui.Base.{
  ℕ, ◌<◌, ◌≡◌, ap, sym, ◌∙◌, Bool, true, false, List, ◌∷◌, ◌==◌, if◌then◌else◌, refl, arith, length,
}
use darkui.CString.{Bytes}
use darkui.Names.{Platform}
use darkui.Launcher.Files.{Files}
use darkui.Collections.{Array}
use darkui.Launcher.Recents.{Recent}
use darkui.Launcher.Selection.{View, page}
use darkui.Launcher.Games.{Directory, Menu}
use darkui.Launcher.Stack.{
  directory_new, same_number, restored_view, first_view, ended, push_directory, closed,
  close_directory,
}

-- The menu after `closeDirectory`, where the selection of the directory below was moved to `v`.
abbrev pub moved : Menu → Directory → List Directory → View → Menu
moved menu below stack v = record (close_directory menu) {
  stack = record below { view = v } ∷ stack;
}

restored :
    (menu : Menu) (top below : Directory) (stack : List Directory) (v : View)
    → menu.stack ≡ top ∷ below ∷ stack
    → 0 < length below.entries
    → restored_view (moved menu below stack v) (record below { view = v } ∷ stack)
      ≡ (if below.view.selected == v.selected then top.view else first_view)
unfolding close_directory closed restored_view same_number
restored menu top below stack v e some_entries = rw (e, close_directory) (ground arith)

-- The directory is what `Directory_new` makes of its path now, with its selection and scroll
-- position: what it lists has not changed since it was opened.
abbrev pub IsCurrent : Platform → Files → Menu → Directory → Type 0
IsCurrent p files menu top =
    top ≡ (directory_new p files menu.simple_mode menu.recents top.path top.view).0

close_directory-kept :
    (menu : Menu) (top below : Directory) (stack : List Directory)
    → menu.stack ≡ top ∷ below ∷ stack
    → ((close_directory menu).simple_mode ≡ menu.simple_mode)
      × ((close_directory menu).recents ≡ menu.recents)
unfolding close_directory closed
close_directory-kept menu top below stack e =
    (rw (e, close_directory) refl, rw (e, close_directory) refl)

-- the directory that `openDirectory` puts on the stack
opened : Platform → Files → ℕ → Bool → Array Recent → Bytes → View → Directory
opened p files rows simple_mode recents path view =
    let new = (directory_new p files simple_mode recents path view).0 in
    record new { view = ended rows (length new.entries) view }

opened-IsCurrent :
    (p : Platform) (files : Files) (rows : ℕ) (menu : Menu) (top : Directory) (view : View)
    → IsCurrent p files menu top
    → opened p files rows menu.simple_mode menu.recents top.path view
      ≡ record top { view = ended rows (length top.entries) view }
unfolding opened directory_new
opened-IsCurrent p files rows menu top view current =
    let shown : Directory → Directory =
      λ d. record d { view = ended rows (length d.entries) view } in
    ap shown (sym current)

push_directory-opened :
    (p : Platform) (files : Files) (rows : ℕ) (path : Bytes) (menu : Menu) (top below : Directory)
    (stack : List Directory) (v : View)
    → menu.stack ≡ top ∷ below ∷ stack
    → 0 < length below.entries
    → (push_directory p files rows path (moved menu below stack v)).stack
      ≡ opened p files rows menu.simple_mode menu.recents path
          (if below.view.selected == v.selected then top.view else first_view)
        ∷ record below { view = v }
        ∷ stack
unfolding push_directory opened
push_directory-opened p files rows path menu top below stack v e some_entries =
    let view = restored menu top below stack v e some_entries in
    let (simple, recents) = close_directory-kept menu top below stack e in
    let back = restored_view (moved menu below stack v) (record below { view = v } ∷ stack) in
    let rest = record below { view = v } ∷ stack in
    ap
      (λ w.
        opened p files rows (close_directory menu).simple_mode (close_directory menu).recents path w
        ∷ rest)
      view
    ∙ ap
        (λ b.
          opened p files rows b (close_directory menu).recents path
            (if below.view.selected == v.selected then top.view else first_view)
          ∷ rest)
        simple
    ∙ ap
        (λ r.
          opened p files rows menu.simple_mode r path
            (if below.view.selected == v.selected then top.view else first_view)
          ∷ rest)
        recents

ended-view :
    (rows total : ℕ) (same : Bool) (shown : View)
    → 0 < shown.end
    → ended rows total (if same then shown else first_view)
      ≡ (if same then shown else record { selected = 0; start = 0; end = page rows total })
unfolding ended
ended-view rows total true shown h =
    let there : (shown.end == 0) ≡ false = ground arith in rw there refl
ended-view rows total false shown h = refl

-- A directory that shows entries, and whose files have not changed since it was opened, is closed,
-- and its path is opened again from the directory below: with the selection below where it was,
-- the same directory is there with the same entry selected at the same scroll position; with
-- another selection below, the same entries are there, shown from the first.
pub push_directory-close_directory :
    (p : Platform) (files : Files) (rows : ℕ) (menu : Menu) (top below : Directory)
    (stack : List Directory) (v : View)
    → menu.stack ≡ top ∷ below ∷ stack
    → IsCurrent p files menu top
    → 0 < length below.entries
    → 0 < top.view.end
    → (push_directory p files rows top.path (moved menu below stack v)).stack
      ≡ record top {
        view =
            if below.view.selected == v.selected
            then top.view
            else record { selected = 0; start = 0; end = page rows (length top.entries) };
      }
        ∷ record below { view = v }
        ∷ stack
push_directory-close_directory p files rows menu top below stack v e current some_entries shown =
    let rest = record below { view = v } ∷ stack in
    let same = below.view.selected == v.selected in
    let w = if same then top.view else first_view in
    push_directory-opened p files rows top.path menu top below stack v e some_entries
    ∙ ap (λ d. d ∷ rest) (opened-IsCurrent p files rows menu top w current)
    ∙ ap (λ u. record top { view = u } ∷ rest)
        (ended-view rows (length top.entries) same top.view shown)
