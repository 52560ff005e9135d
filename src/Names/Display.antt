-- ===== src/Names/Display.antt =====
-- `getDisplayName`: the shape of the name that it returns.
pub mod Loops
use darkui.Base.{
  ℕ, zero, suc, ◌+◌, ◌-◌, ◌≤◌, ◌<◌, ◌≡◌, ◌≢◌, ◌↔◌, refl, sym, ap, ◌∙◌, ◌⊎◌, inl, inr, Bool, true,
  false, ◌&&◌, ◌||◌, List, [], ◌∷◌, ◌++◌, Option, none, some, arith, ltb, leb, ◌==◌, if◌then◌else◌,
  length, take, drop, get_or, Bool-cases, Option-cases, length-take, min, drop_all, subst, All,
}
use darkui.CString.{Bytes, isspace, strrchr}
use darkui.CString.Search.{Lacks, strrchr-split, strrchr-eq-none, strrchr-Lacks}
use darkui.Names.{
  strip_extensions, last_bracket, strip_brackets, trim_spaces, display_base, or_restore,
  get_display_name,
}
use darkui.Names.Display.Loops.{
  joined, IsExtension, NoExtension, Stripped, FewBrackets, IsTail, Unbracketed, Trimmed, Spaces,
  strip_extensions-Stripped, strip_brackets-Unbracketed, trim_spaces-Trimmed, trim_spaces-Spaces,
  trim_spaces-ne,
}

-- `getDisplayName` takes the file name (or the whole name) and cuts from its end the extensions,
-- then what stands in brackets, then white space, and nothing else.
pub record DisplayName (platform in_name out : Bytes) : Type 0 where
  pub stem : Bytes
  pub extensions : List Bytes
  pub stem_split : display_base platform in_name ≡ stem ++ joined extensions
  pub each : All IsExtension extensions
  pub stem_bare : NoExtension stem
  pub plain : Bytes
  pub tail : Bytes
  pub plain_split : stem ≡ plain ++ tail
  pub ends : IsTail plain tail
  pub few : FewBrackets plain
  pub spaces : Bytes
  pub out_split : plain ≡ out ++ spaces
  pub blank : Spaces spaces
  pub trimmed : Trimmed out
  pub kept : stem ≢ [] → out ≢ []

pub record Trimming (s out : Bytes) : Type 0 where
  pub spaces : Bytes
  pub split : s ≡ out ++ spaces
  pub blank : Spaces spaces
  pub trimmed : Trimmed out
  pub kept : s ≢ [] → out ≢ []

trim_spaces-Trimming : (s : Bytes) → Trimming s (trim_spaces (length s - 1) s)
trim_spaces-Trimming [] =
    unfold trim_spaces in
    record { spaces = []; split = refl; blank = tt; trimmed = inl (omega arith); kept = λ ne. ne }
trim_spaces-Trimming (x ∷ s) =
    let i = suc (length s) - 1 in
    let nothing : drop (suc i) (x ∷ s) ≡ [] = drop_all (suc i) (x ∷ s) (omega arith) in
    let (spaces, split, blank) =
      trim_spaces-Spaces i (x ∷ s) (omega arith) (subst Spaces (sym nothing) tt) in
    record {
      spaces = spaces;
      split = split;
      blank = blank;
      trimmed = trim_spaces-Trimmed i (x ∷ s) (omega arith);
      kept = λ _ f. trim_spaces-ne i x s f;
    }

-- The loop on brackets never empties the name, so the name is never restored.
or_restore_lem : (out work : Bytes) → (work ≢ [] → out ≢ []) → or_restore out work ≡ out
unfolding or_restore
or_restore_lem [] [] h = refl
or_restore_lem [] (x ∷ w) h = absurd (h (λ e. cc) refl)
or_restore_lem (c ∷ out) w h = refl

-- Whatever name is given, the display name is what is left of the file name when these are cut
-- from its end: first extensions of two to four bytes, none of which remains; then all from a
-- bracket on, so that no `(` stands behind the first byte, and no `[` unless the rest begins with
-- `(`; then white space, which the name does not end in. The name is empty only if the text
-- before the extensions is.
pub get_display_name_shape :
    (platform in_name : Bytes) → DisplayName platform in_name (get_display_name platform in_name)
unfolding get_display_name
get_display_name_shape platform in_name =
    let base = display_base platform in_name in
    let stem = strip_extensions (length base) base in
    let stripped = strip_extensions-Stripped (length base) base (omega arith) in
    let cut = strip_brackets (length stem) stem in
    let plain = strip_brackets-Unbracketed (length stem) stem (omega arith) in
    let ends = trim_spaces-Trimming cut in
    rw (or_restore_lem cut stem plain.kept) (record {
      stem = stem;
      extensions = stripped.extensions;
      stem_split = stripped.split;
      each = stripped.each;
      stem_bare = stripped.bare;
      plain = cut;
      tail = plain.tail;
      plain_split = plain.split;
      ends = plain.ends;
      few = plain.few;
      spaces = ends.spaces;
      out_split = ends.split;
      blank = ends.blank;
      trimmed = ends.trimmed;
      kept = λ ne. ends.kept (plain.kept ne);
    })
