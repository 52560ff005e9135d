-- ===== src/Launcher/Command/Escape.antt =====
-- `escapeSingleQuotes` never writes past its buffer, and writes the escape of the longest front
-- of the source that fits.
use darkui.Base.{
  ℕ, suc, ◌+◌, ◌≤◌, ◌<◌, ◌≡◌, ◌⊎◌, refl, ap, inl, inr, [], ◌∷◌, ◌++◌, some, leb, take, length,
  length-append, arith, Bool-cases,
}
use darkui.CString.{Bytes}
use darkui.Launcher.Command.{
  needed, piece, escape_from, escape_single_quotes, escaped_size, escaped,
}

-- The escape of a whole text.
abbrev pub escape_all : Bytes → Bytes
escape_all [] = []
escape_all (c ∷ s) = piece c ++ escape_all s

length-piece : (c : ℕ) → length (piece c) ≡ needed c
length-piece c = ground arith

-- What was written from `di` on is the escape of the first `taken` bytes of the source.
pub record Written (dst_size di : ℕ) (src out : Bytes) : Type 0 where
  pub taken : ℕ
  pub is_escape : out ≡ escape_all (take taken src)
  pub fits : di + length out < dst_size
  pub longest : (taken ≡ length src) ⊎ (dst_size ≤ di + length (escape_all (take (suc taken) src)))

Written-cons :
    (dst_size di c : ℕ) (src out : Bytes)
    → Written dst_size (di + needed c) src out
    → Written dst_size di (c ∷ src) (piece c ++ out)
Written-cons dst_size di c src out w = record {
  taken = suc w.taken;
  is_escape = ap (λ l. piece c ++ l) w.is_escape;
  fits = omega (arith, w.fits, length-piece c, length-append (piece c) out);
  longest = ground (
    arith,
    w.longest,
    length-piece c,
    length-append (piece c) (escape_all (take (suc w.taken) src)),
  );
}

escape_from-Written :
    (src : Bytes) (dst_size di : ℕ)
    → di < dst_size
    → Written dst_size di src (escape_from dst_size di src)
unfolding escape_from
escape_from-Written [] dst_size di h = record {
  taken = 0;
  is_escape = refl;
  fits = omega arith;
  longest = inl refl;
}
escape_from-Written (c ∷ src) dst_size di h = elim (Bool-cases (leb dst_size (di + needed c))) [
  | inl t ↦ rw t (record {
    taken = 0;
    is_escape = refl;
    fits = omega arith;
    longest = inr (ground (arith, length-append (piece c) [], length-piece c));
  })
  | inr t ↦ rw t (
      Written-cons dst_size di c src _
        (escape_from-Written src dst_size (di + needed c) (ground arith)))
]

-- For every source and every buffer with room, the text that is written leaves room for the NUL,
-- and is the escape of a front of the source, the longest for which there is room.
pub escape_single_quotes-Written :
    (dst_size : ℕ) (src : Bytes)
    → 0 < dst_size
    → (out : Bytes) × (escape_single_quotes dst_size (some src) ≡ some out)
      × Written dst_size 0 src out
unfolding escape_single_quotes
escape_single_quotes-Written dst_size src h =
    (escape_from dst_size 0 src, ground arith, escape_from-Written src dst_size 0 h)

escape_from-fits :
    (src : Bytes) (dst_size di : ℕ)
    → di + length (escape_all src) < dst_size
    → escape_from dst_size di src ≡ escape_all src
unfolding escape_from
escape_from-fits [] dst_size di h = refl
escape_from-fits (c ∷ src) dst_size di h =
    let size = length-append (piece c) (escape_all src) in
    let later =
      escape_from-fits src dst_size (di + needed c) (omega (arith, size, length-piece c)) in
    ground (arith, size, length-piece c, later)

-- What is in the buffer of an escaped path: the whole escape, where it fits.
pub escaped-fits :
    (path : Bytes) → length (escape_all path) < escaped_size → escaped path ≡ escape_all path
unfolding escaped escape_single_quotes
escaped-fits path h = escape_from-fits path escaped_size 0 (omega arith)

pub escaped-front : (path : Bytes) → (k : ℕ) × (escaped path ≡ escape_all (take k path))
unfolding escaped escape_single_quotes
escaped-front path =
    let w = escape_from-Written path escaped_size 0 (omega arith) in (w.taken, w.is_escape)
