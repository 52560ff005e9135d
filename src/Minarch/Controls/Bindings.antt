-- ===== src/Minarch/Controls/Bindings.antt =====
-- `Config_init`: every round of its loop consumes bytes of the text, so that the loop ends.
use darkui.Base.{
  ℕ, zero, suc, ◌≤◌, ◌≡◌, refl, ap, inl, inr, Bool-cases, Option-cases, List, [], ◌∷◌, some, arith,
  length, length-drop, drop,
}
use darkui.CString.{Bytes, bytes}
use darkui.Minarch.Values.{starts}
use darkui.Minarch.Values.Lines.{starts-length}
use darkui.Minarch.Controls.{strstr, binding, bindings, config_init}

strstr-length :
    (needle s before at : Bytes)
    → strstr needle s ≡ some (before, at)
    → (length needle ≤ length at) × (length at ≤ length s)
unfolding strstr
strstr-length needle [] before at h = elim (Bool-cases (starts needle [])) [
  | inl t ↦ ground (arith, rw t at h, starts-length needle [] t)
  | inr f ↦ absurd (ground (arith, rw f at h))
]
strstr-length needle (c ∷ s) before at h = elim (Bool-cases (starts needle (c ∷ s))) [
  | inl t ↦ ground (arith, rw t at h, starts-length needle (c ∷ s) t)
  | inr f ↦ elim (Option-cases (strstr needle s)) [
    | inl n ↦ absurd (ground (arith, rw (f, n) at h))
    | inr ((b, a), g) ↦ ground (arith, rw (f, g) at h, strstr-length needle s b a g)
  ]
]

binding-length :
    (retros : List ℕ) (name tmp : Bytes) → length (binding retros name tmp).1 ≤ length tmp
unfolding binding
binding-length retros name tmp = omega (arith, length-drop _ tmp)

-- Any two amounts of fuel that are no less than the text is long give the same buttons.
bindings-fuel :
    (m n : ℕ) (retros : List ℕ) (tmp : Bytes)
    → length tmp ≤ m
    → length tmp ≤ n
    → bindings m retros tmp ≡ bindings n retros tmp
unfolding bindings strstr
bindings-fuel zero zero retros tmp h k = refl
bindings-fuel zero (suc n) retros [] h k = refl
bindings-fuel zero (suc n) retros (c ∷ tmp) h k = absurd (omega arith)
bindings-fuel (suc m) zero retros [] h k = refl
bindings-fuel (suc m) zero retros (c ∷ tmp) h k = absurd (omega arith)
bindings-fuel (suc m) (suc n) retros tmp h k = elim (Option-cases (strstr (bytes "bind ") tmp)) [
  | inl e ↦ rw (e, bindings)
  | inr ((before, at), e) ↦ elim (Option-cases (strstr (bytes " = ") (drop 5 at))) [
    | inl f ↦ rw (e, f, bindings)
    | inr ((name, rest), f) ↦
        let left = (binding retros name (drop 3 rest)).1 in
        let shorter : suc (length left) ≤ length tmp = omega (
          arith,
          strstr-length (bytes "bind ") tmp before at e,
          strstr-length (bytes " = ") (drop 5 at) name rest f,
          binding-length retros name (drop 3 rest),
          length-drop 3 rest,
          length-drop 5 at,
        ) in
        let later = bindings-fuel m n retros left (omega arith) (omega arith) in
        rw (e, bindings) (rw f (ap (◌∷◌ (binding retros name (drop 3 rest)).0) later))
  ]
]

-- `Config_init` reads any text to its end: no more rounds than the text has bytes are made, so
-- that a greater bound on the rounds changes nothing.
pub config_init-bindings :
    (fuel : ℕ) (retros : List ℕ) (default_cfg : Bytes)
    → length default_cfg ≤ fuel
    → bindings fuel retros default_cfg ≡ config_init retros default_cfg
unfolding config_init
config_init-bindings fuel retros default_cfg h =
    bindings-fuel fuel (length default_cfg) retros default_cfg h (omega arith)
