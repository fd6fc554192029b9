-- ===== src/StateRef/Joined.antt =====
-- The parts that `splitSegments` returns, joined by slashes, are its argument.
use unobin.Base.{
  ℕ, Bool, true, false, ◌≡◌, ◌≢◌, refl, sym, List, [], ◌∷◌, ◌++◌, append_assoc, ◌==◌, ◌&&◌,
  if◌then◌else◌, arith, Bytes, ok, err, is_empty, Bool-cases, inl, inr, append-nil, Result, ◌>>=◌,
}
use unobin.StateRef.Syntax.{join_slash}
use unobin.StateRef.Parser.{ParseError, empty_segment, split_loop, split_segments}

pub join_slash-cons :
    (p : Bytes) (ps : List Bytes) → ps ≢ [] → join_slash (p ∷ ps) ≡ p ++ b'/' ∷ join_slash ps
unfolding join_slash
join_slash-cons p [] h = absurd (h refl)
join_slash-cons p (q ∷ ps) h = refl

-- The parts of a text, joined, are the text.
abbrev Joins : Bytes → Result ParseError (List Bytes) → Type 0
Joins text (ok ps) = (ps ≢ []) × (join_slash ps ≡ text)
Joins text (err e) = Unit

Joins-if :
    (b : Bool) (text : Bytes) (x y : Result ParseError (List Bytes))
    → Joins text x
    → Joins text y
    → Joins text (if b then x else y)
Joins-if true text x y hx hy = hx
Joins-if false text x y hx hy = hy

Joins-last :
    (cur : Bytes) → Joins (cur ++ []) (if is_empty cur then err empty_segment else ok (cur ∷ []))
unfolding join_slash
Joins-last [] = tt
Joins-last (c ∷ cur) = (λ e. cc, sym (append-nil (c ∷ cur)))

Joins-part :
    (cur cs : Bytes) (r : Result ParseError (List Bytes))
    → Joins cs r
    → Joins (cur ++ b'/' ∷ cs) (r >>= λ ps. ok (cur ∷ ps))
Joins-part cur cs (err e) h = tt
Joins-part cur cs (ok ps) (ne, e) = (λ x. cc, rw (join_slash-cons cur ps ne) (rw e))

Joins-slash :
    (c : ℕ) (cur cs : Bytes) (r other : Result ParseError (List Bytes))
    → Joins cs r
    → Joins (cur ++ c ∷ cs) other
    → Joins (cur ++ c ∷ cs) (
        if c == b'/'
        then (if is_empty cur then err empty_segment else r >>= λ ps. ok (cur ∷ ps))
        else other)
Joins-slash c cur cs r other h k = elim (Bool-cases (c == b'/')) [
  | inl slash ↦ rw slash (
      Joins-if (is_empty cur) (cur ++ c ∷ cs) (err empty_segment) (r >>= λ ps. ok (cur ∷ ps)) tt
        (rw (the_byte slash) (Joins-part cur cs r h)))
  | inr plain ↦ rw plain k
]
  where
    the_byte : (c == b'/') ≡ true → c ≡ b'/'
    the_byte e = ground arith

split-Joins :
    (in_key escaped : Bool) (s cur : Bytes) → Joins (cur ++ s) (split_loop in_key escaped cur s)
unfolding split_loop
split-Joins true true [] cur = Joins-last cur
split-Joins true false [] cur = Joins-last cur
split-Joins false esc [] cur = Joins-last cur
split-Joins true true (c ∷ cs) cur =
    rw (append_assoc cur (c ∷ []) cs) at (split-Joins true false cs (cur ++ c ∷ []))
split-Joins true false (c ∷ []) cur =
    rw (append-nil (cur ++ c ∷ [])) at (Joins-last (cur ++ c ∷ []))
split-Joins true false (c ∷ d ∷ cs) cur =
    Joins-if (c == b'\'' && d == b']') (cur ++ c ∷ d ∷ cs) _ _
      (rw (append_assoc cur (c ∷ d ∷ []) cs) at (split-Joins false false cs (cur ++ c ∷ d ∷ [])))
      (rw (append_assoc cur (c ∷ []) (d ∷ cs)) at
        (split-Joins true (c == b'\\') (d ∷ cs) (cur ++ c ∷ [])))
split-Joins false esc (c ∷ cs) cur =
    Joins-if (c == b'[') (cur ++ c ∷ cs) _ _
      (rw (append_assoc cur (c ∷ []) cs) at (split-Joins true esc cs (cur ++ c ∷ [])))
      (Joins-slash c cur cs _ _ (split-Joins false esc cs [])
        (rw (append_assoc cur (c ∷ []) cs) at (split-Joins false esc cs (cur ++ c ∷ []))))

pub join_slash-split_segments :
    (s : Bytes) {ps : List Bytes} → split_segments s ≡ ok ps → (ps ≢ []) × (join_slash ps ≡ s)
unfolding split_segments
join_slash-split_segments s h = rw h at (split-Joins false false s [])
