-- ===== src/StateRef/Escape.antt =====
-- What `escapeKey` does to a key, byte by byte, and the head of a printed segment.
use unobin.Base.{
  ℕ, true, false, ◌≡◌, ◌≢◌, [], ◌∷◌, ◌++◌, append_assoc, ◌==◌, if◌then◌else◌, arith, All,
  All-append, Bytes, is_empty, Bool-cases, inl, inr,
}
use unobin.StateRef.Syntax.{
  Category, StateAddressSegment, category_text, replace_all, escape_key, with_key, segment_text,
  valid_ident,
}
use unobin.StateRef.Valid.{
  IsPlain, NoBracketHead, valid_ident-IsNameByte, IsNameByte-IsPlain, category_text-IsPlain,
}

-- One byte of a key, escaped.
abbrev pub escaped : ℕ → Bytes
escaped c =
    if c == b'\\' then b'\\' ∷ b'\\' ∷ [] else if c == b'\'' then b'\\' ∷ b'\'' ∷ [] else c ∷ []

pub escape_key-escaped : (c : ℕ) (k : Bytes) → escape_key (c ∷ k) ≡ escaped c ++ escape_key k
unfolding escape_key replace_all
escape_key-escaped c k = ground arith

escaped-NoBracketHead : (c : ℕ) (rest : Bytes) → c ≢ b']' → NoBracketHead (escaped c ++ rest)
escaped-NoBracketHead c rest h = elim (Bool-cases (c == b'\\')) [
  | inl back ↦ rw back (omega arith)
  | inr other ↦ elim (Bool-cases (c == b'\'')) [
    | inl quote ↦ rw (other, quote) (omega arith)
    | inr plain ↦ rw (other, plain) h
  ]
]

pub escape_key-NoBracketHead :
    (k rest : Bytes) → NoBracketHead k → NoBracketHead (escape_key k ++ b'\'' ∷ rest)
escape_key-NoBracketHead [] rest h = unfold escape_key replace_all in omega arith
escape_key-NoBracketHead (c ∷ k) rest h =
    rw escape_key-escaped (rw append_assoc (escaped-NoBracketHead c _ h))

abbrev pub head_text : Category → Bytes → Bytes
head_text c name = category_text c ++ b'.' ∷ name

pub head_text-IsPlain :
    (c : Category) (name : Bytes) → valid_ident name ≡ true → All IsPlain (head_text c name)
head_text-IsPlain c name h =
    All-append IsPlain (category_text c) (b'.' ∷ name) (category_text-IsPlain c)
      (omega arith, IsNameByte-IsPlain name (valid_ident-IsNameByte name h))

pub segment_text-filled : (s : StateAddressSegment) → is_empty (segment_text s) ≡ false
unfolding segment_text with_key category_text
segment_text-filled s = ground arith
