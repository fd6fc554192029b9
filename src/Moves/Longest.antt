-- ===== src/Moves/Longest.antt =====
-- The longest move decides, whatever the order of the map.
use unobin.Base.{
  ℕ, ◌≤◌, ◌<◌, true, false, not, ◌≡◌, ◌≢◌, ◌⊎◌, inl, inr, refl, sym, ap, ap₂, subst, ◌∙◌, List, [],
  ◌∷◌, ◌++◌, ltb, if_elim, is_empty, length, Bytes, eqb_iff, eqb_self, arith, All, append-nil,
  append_assoc,
}
use unobin.Moves.Address.{
  has_prefix, drop_bytes, has_address_prefix, AddressMove, better, best_move, no_move,
  rewrite_moved_address,
}

has_prefix-split : (s p : Bytes) → has_prefix s p ≡ true → s ≡ p ++ drop_bytes (length p) s
unfolding has_prefix drop_bytes
has_prefix-split s [] h = refl
has_prefix-split [] (c ∷ p) h = cc
has_prefix-split (d ∷ s) (c ∷ p) h = ap₂ ◌∷◌ (ground arith) (has_prefix-split s p (ground arith))

-- Two prefixes of one length are one prefix.
prefix_unique :
    (s p q : Bytes) → has_prefix s p ≡ true → has_prefix s q ≡ true → length p ≡ length q → p ≡ q
unfolding has_prefix
prefix_unique s [] [] h g e = refl
prefix_unique s [] (d ∷ q) h g e = absurd (omega arith)
prefix_unique s (c ∷ p) [] h g e = absurd (omega arith)
prefix_unique [] (c ∷ p) (d ∷ q) h g e = cc
prefix_unique (b ∷ s) (c ∷ p) (d ∷ q) h g e =
    ap₂ ◌∷◌ (ground arith) (prefix_unique s p q (ground arith) (ground arith) (omega arith))

has_prefix-append-left : (s p q : Bytes) → has_prefix s (p ++ q) ≡ true → has_prefix s p ≡ true
unfolding has_prefix
has_prefix-append-left s [] q h = refl
has_prefix-append-left [] (c ∷ p) q h = cc
has_prefix-append-left (d ∷ s) (c ∷ p) q h = ground (arith, has_prefix-append-left s p q)

has_prefix_self : (s : Bytes) → has_prefix s s ≡ true
unfolding has_prefix
has_prefix_self [] = refl
has_prefix_self (c ∷ s) = ground (arith, has_prefix_self s)

has_address_prefix-prefix : (a p : Bytes) → has_address_prefix a p ≡ true → has_prefix a p ≡ true
unfolding has_address_prefix
has_address_prefix-prefix a p h =
    ground (arith, eqb_iff a p, has_prefix_self a, has_prefix-append-left a p (b'/' ∷ []))

has_prefix-append : (p r : Bytes) → has_prefix (p ++ r) p ≡ true
unfolding has_prefix
has_prefix-append [] r = refl
has_prefix-append (c ∷ p) r = ground (arith, has_prefix-append p r)

-- What may follow a prefix: nothing, or further segments.
abbrev pub IsSuffix : Bytes → Type 0
IsSuffix [] = Unit
IsSuffix (c ∷ r) = c ≡ b'/'

drop-append : (p r : Bytes) → drop_bytes (length p) (p ++ r) ≡ r
unfolding drop_bytes
drop-append [] r = refl
drop-append (c ∷ p) r = drop-append p r

has_address_prefix-append : (p r : Bytes) → IsSuffix r → has_address_prefix (p ++ r) p ≡ true
unfolding has_address_prefix
has_address_prefix-append p [] h = rw (append-nil p, eqb_self p)
has_address_prefix-append p (c ∷ r) h =
    rw
      (
        h,
        ap (λ q. has_prefix q (p ++ b'/' ∷ [])) (sym (append_assoc p (b'/' ∷ []) r)),
        has_prefix-append (p ++ b'/' ∷ []) r,
      )
      (ground arith)

-- A move that does not outdo `m` for the address: another key of the map, and not a longer prefix.
pub record Yields (a : Bytes) (m x : AddressMove) : Type 0 where
  pub other : x.from ≢ m.from
  pub bounded : has_address_prefix a x.from ≡ true → length x.from ≤ length m.from

Yields-shorter :
    (a : Bytes) (m x : AddressMove)
    → has_address_prefix a m.from ≡ true
    → Yields a m x
    → has_address_prefix a x.from ≡ true
    → length x.from < length m.from
Yields-shorter a m x h y g = elim (le_cases (y.bounded g)) [
  | inl less ↦ less
  | inr same ↦ absurd (
      y.other (
        prefix_unique a x.from m.from (has_address_prefix-prefix a x.from g)
          (has_address_prefix-prefix a m.from h) same))
]
  where
    le_cases : {i j : ℕ} → i ≤ j → (i < j) ⊎ (i ≡ j)
    le_cases h = omega arith

best_move-found :
    (a : Bytes) (m : AddressMove) (moves : List AddressMove)
    → has_address_prefix a m.from ≡ true
    → All (Yields a m) moves
    → best_move a m moves ≡ m
unfolding best_move better
best_move-found a m [] h y = refl
best_move-found a m (x ∷ moves) h (y, ys) =
    ap (λ b. best_move a b moves) kept ∙ best_move-found a m moves h ys
  where
    kept : better a m x ≡ m
    kept = ground (arith, y.bounded)

best_move-finds :
    (a : Bytes) (best m : AddressMove) (before behind : List AddressMove)
    → has_address_prefix a m.from ≡ true
    → length best.from < length m.from
    → All (Yields a m) before
    → All (Yields a m) behind
    → best_move a best (before ++ m ∷ behind) ≡ m
unfolding best_move better
best_move-finds a best m [] behind h l ys zs =
    ap (λ b. best_move a b behind) taken ∙ best_move-found a m behind h zs
  where
    taken : better a best m ≡ m
    taken = ground arith
best_move-finds a best m (x ∷ before) behind h l (y, ys) zs =
    best_move-finds a (better a best x) m before behind h less ys zs
  where
    less : length (better a best x).from < length m.from
    less =
        if_elim {A = AddressMove} (λ b. length b.from < length m.from)
          (not (has_address_prefix a x.from)) _ _ (λ _. l)
          (λ g.
            if_elim {A = AddressMove} (λ b. length b.from < length m.from)
              (ltb (length best.from) (length x.from)) _ _
              (λ _. Yields-shorter a m x h y (ground arith)) (λ _. l))

-- A move with a source that is not empty, where every other move has another source, and none that
-- is a longer prefix of the address, in whole segments: the address that starts with the source
-- gets the destination in its place and keeps the rest, wherever the move stands among the moves.
pub rewrite_moved_address-longest :
    (m : AddressMove) (r : Bytes) (before behind : List AddressMove)
    → 0 < length m.from
    → IsSuffix r
    → All (Yields (m.from ++ r) m) before
    → All (Yields (m.from ++ r) m) behind
    → rewrite_moved_address (m.from ++ r) (before ++ m ∷ behind) ≡ m.to ++ r
unfolding rewrite_moved_address
rewrite_moved_address-longest m r before behind l h ys zs =
    rw
      (best_move-finds (m.from ++ r) no_move m before behind (has_address_prefix-append m.from r h)
        l ys zs)
      (if_elim (λ t. t ≡ m.to ++ r) (is_empty m.from) _ _ (λ e. absurd (filled m.from l e))
        (λ _. ap (λ t. m.to ++ t) (drop-append m.from r)))
  where
    filled : (p : Bytes) → 0 < length p → is_empty p ≢ true
    filled [] l e = omega arith
    filled (c ∷ p) l e = cc

-- An address that no move has as a prefix, in whole segments, stays as it is.
pub rewrite_moved_address-none :
    (a : Bytes) (moves : List AddressMove)
    → All (λ x. has_address_prefix a x.from ≡ false) moves
    → rewrite_moved_address a moves ≡ a
unfolding rewrite_moved_address best_move better
rewrite_moved_address-none a moves h = rw (kept moves h) refl
  where
    kept :
        (moves : List AddressMove)
        → All (λ x. has_address_prefix a x.from ≡ false) moves
        → best_move a no_move moves ≡ no_move
    kept [] h = refl
    kept (x ∷ moves) (h, hs) =
        ap (λ b. best_move a b moves)
          (if_elim {A = AddressMove} (λ b. b ≡ no_move) (not (has_address_prefix a x.from)) _ _
            (λ _. refl) (λ g. absurd (ground arith)))
        ∙ kept moves hs

has_prefix-length : (s p : Bytes) → has_prefix s p ≡ true → length p ≤ length s
unfolding has_prefix
has_prefix-length s [] h = omega arith
has_prefix-length [] (c ∷ p) h = cc
has_prefix-length (d ∷ s) (c ∷ p) h = ground (arith, has_prefix-length s p)

-- The source of a move, if it is not empty and no other move has it, becomes the destination of the
-- move, whatever the other moves and their order.
rewrite_moved_address-from :
    (m : AddressMove) (before behind : List AddressMove)
    → 0 < length m.from
    → All (λ x. x.from ≢ m.from) before
    → All (λ x. x.from ≢ m.from) behind
    → rewrite_moved_address m.from (before ++ m ∷ behind) ≡ m.to
rewrite_moved_address-from m before behind l ys zs =
    subst (λ t. rewrite_moved_address t (before ++ m ∷ behind) ≡ m.to ++ []) (append-nil m.from)
      (rewrite_moved_address-longest m [] before behind l tt (yields before ys) (yields behind zs))
    ∙ append-nil m.to
  where
    yields :
        (moves : List AddressMove)
        → All (λ x. x.from ≢ m.from) moves
        → All (Yields (m.from ++ []) m) moves
    yields [] h = tt
    yields (x ∷ moves) (h, hs) = (
      record {
        other = h;
        bounded = λ g. rw (← append-nil m.from) (
            has_prefix-length (m.from ++ []) x.from
              (has_address_prefix-prefix (m.from ++ []) x.from g));
      },
      yields moves hs,
    )
