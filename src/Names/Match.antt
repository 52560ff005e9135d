-- ===== src/Names/Match.antt =====
-- `prefixMatch`, `suffixMatch`, `exactMatch` and `hide` against plain statements on texts.
use darkui.Base.{
  suc, ◌-◌, ◌≡◌, ◌↔◌, refl, sym, ap, ◌∙◌, true, [], ◌∷◌, ◌++◌, arith, length, take, drop,
  take-append-drop, length-drop, take-append_left, drop-append_left, length-append, take_all,
}
use darkui.CString.{Bytes, strncasecmp, is_eq}
use darkui.CString.Compare.{lower, strncasecmp_iff, equal_iff}
use darkui.Names.{prefix_match, suffix_match, exact_match}

-- `str` begins with `pre`, but for case.
pub record HasPrefix (pre str : Bytes) : Type 0 where
  pub front : Bytes
  pub rest : Bytes
  pub splits : str ≡ front ++ rest
  pub same : lower pre ≡ lower front

pub record HasSuffix (suf str : Bytes) : Type 0 where
  pub rest : Bytes
  pub back : Bytes
  pub splits : str ≡ rest ++ back
  pub same : lower suf ≡ lower back

pub length-lower : (s : Bytes) → length (lower s) ≡ length s
length-lower [] = refl
length-lower (c ∷ s) = ap suc (length-lower s)

length_of_same : (a b : Bytes) → lower a ≡ lower b → length a ≡ length b
length_of_same a b h = sym (length-lower a) ∙ ap length h ∙ length-lower b

-- `prefixMatch` says exactly whether the text begins with the prefix, but for case.
pub prefix_match_iff : (pre str : Bytes) → (prefix_match pre str ≡ true) ↔ HasPrefix pre str
unfolding prefix_match
prefix_match_iff pre str = (
  λ h. record {
    front = take (length pre) str;
    rest = drop (length pre) str;
    splits = sym (take-append-drop (length pre) str);
    same = (strncasecmp_iff pre str).0 h;
  },
  λ h. (strncasecmp_iff pre str).1 (h.same ∙ ap lower (fits h)),
)
  where
    fits : (h : HasPrefix pre str) → h.front ≡ take (length pre) str
    fits h =
        rw (h.splits, length_of_same pre h.front h.same) (sym (take-append_left h.front h.rest))

same_front :
    (suf back : Bytes) → lower suf ≡ lower back → is_eq (strncasecmp (length suf) suf back) ≡ true
same_front suf back same = (strncasecmp_iff suf back).1 (
    same
    ∙ ap lower (sym (take_all (length suf) back (omega (arith, length_of_same suf back same)))))

suffix_match-append :
    (suf rest back : Bytes) → lower suf ≡ lower back → suffix_match suf (rest ++ back) ≡ true
unfolding suffix_match
suffix_match-append suf rest back same =
    let size : length (rest ++ back) - length suf ≡ length rest =
      omega (arith, length-append rest back, length_of_same suf back same) in
    rw (size, drop-append_left rest back, same_front suf back same)
      (ground (arith, length-append rest back, length_of_same suf back same))

suffix_match-HasSuffix : (suf str : Bytes) → suffix_match suf str ≡ true → HasSuffix suf str
unfolding suffix_match
suffix_match-HasSuffix suf str h =
    let at = length str - length suf in
    record {
      rest = take at str;
      back = drop at str;
      splits = sym (take-append-drop at str);
      same =
          (strncasecmp_iff suf (drop at str)).0 (ground arith)
          ∙ ap lower (take_all (length suf) (drop at str) (ground (arith, length-drop at str)));
    }

-- `suffixMatch` says exactly whether the text ends with the suffix, but for case.
pub suffix_match_iff : (suf str : Bytes) → (suffix_match suf str ≡ true) ↔ HasSuffix suf str
suffix_match_iff suf str = (
  suffix_match-HasSuffix suf str,
  λ h. rw h.splits (suffix_match-append suf h.rest h.back h.same),
)

-- `exactMatch` says exactly whether the texts are equal.
pub exact_match_iff : (a b : Bytes) → (exact_match a b ≡ true) ↔ (a ≡ b)
unfolding exact_match
exact_match_iff a b = ground (arith, equal_iff a b, λ (e : a ≡ b). ap length e)

pub exact_match_refl : (a : Bytes) → exact_match a a ≡ true
exact_match_refl a = (exact_match_iff a a).1 refl
