-- ===== src/Deps/Versions/Highest.antt =====
-- The loops of pkg/deps/versions.go: which versions they keep, and the highest of them.
use unobin.Base.{
  Bool, true, false, not, ◌&&◌, ◌||◌, ◌≡◌, ◌⊎◌, inl, inr, refl, ap, subst, ◌∙◌, Option, none, some,
  List, [], ◌∷◌, ◌++◌, ◌==◌, if◌then◌else◌, is_empty, Bytes, bytes, eqb, eqb_iff, eqb_self, mem,
  arith, Bool-cases,
}
use unobin.Deps.Semver.{Sign, lower, equal, higher, is_higher, not_higher, Semver, IsSemver}
use unobin.Deps.Dependency.{Dependency, tag_prefix, tag}
use unobin.Deps.Resolve.Enqueue.{compare_self, flipped}
use unobin.Deps.Versions.{
  cut_prefix, has_prefix, matching, is_latest, keep, with_prefix, versions_with_prefix, versions,
  highest_from,
}

abbrev is_version : Bytes → Option Bytes → Bool
is_version w none = false
is_version w (some v) = eqb v w

is_version-cut_prefix : (s p w : Bytes) → is_version w (cut_prefix s p) ≡ eqb s (p ++ w)
unfolding cut_prefix eqb
is_version-cut_prefix s [] w = refl
is_version-cut_prefix [] (c ∷ p) w = refl
is_version-cut_prefix (x ∷ s) (c ∷ p) w = elim (Bool-cases (x == c)) [
  | inl same ↦ rw same (is_version-cut_prefix s p w)
  | inr other ↦ rw other refl
]

-- What fits a query, apart from the order: anything for no query and for `latest`, the version itself
-- for a full version, and the version or one that continues it after a dot for a partial one.
abbrev pub fits : Semver → Bytes → Bytes → Bool
fits sv query v =
    is_latest query
    || (if eqb (sv.canonical query) query
        then eqb v query
        else eqb v query || has_prefix v (query ++ bytes "."))

-- The tags name the version, and it is valid.
abbrev pub is_tagged : Semver → Dependency → List Bytes → Bytes → Bool
is_tagged sv dep tags v = mem (tag dep v) tags && sv.is_valid v

-- A test that is true of a string is true of those that are equal to it.
test-eqb : (f : Bytes → Bool) (v w : Bytes) → eqb v w ≡ true → f v ≡ f w
test-eqb f v w h = ap f ((eqb_iff v w).0 h)

mem-if :
    (f : Bytes → Bool) (v w : Bytes) (vs : List Bytes)
    → mem w (if f v then v ∷ vs else vs) ≡ ((eqb v w && f w) || mem w vs)
unfolding mem
mem-if f v w vs = elim (Bool-cases (eqb v w)) [
  | inl same ↦ let eq = test-eqb f v w same in ground (arith, eq)
  | inr other ↦ ground arith
]

pub mem-matching :
    (query w : Bytes) (vs : List Bytes)
    → mem w (matching query vs) ≡ (mem w vs && (eqb w query || has_prefix w (query ++ bytes ".")))
unfolding matching mem
mem-matching query w [] = refl
mem-matching query w (v ∷ vs) =
    mem-if (λ x. eqb x query || has_prefix x (query ++ bytes ".")) v w (matching query vs)
    ∙ rw (mem-matching query w vs)
        (and-or (eqb v w) (eqb w query || has_prefix w (query ++ bytes ".")) (mem w vs))
  where
    and-or : (a b c : Bool) → ((a && b) || (c && b)) ≡ ((a || c) && b)
    and-or a b c = ground arith

module _ (sv : Semver) where
  mem-keep :
      (w : Bytes) (o : Option Bytes) (vs : List Bytes)
      → mem w (keep sv o vs) ≡ ((is_version w o && sv.is_valid w) || mem w vs)
  mem-keep w none vs = refl
  mem-keep w (some v) vs = ap (mem w) (swap (sv.is_valid v)) ∙ mem-if sv.is_valid v w vs
    where
      swap : (b : Bool) → (if not b then vs else v ∷ vs) ≡ (if b then v ∷ vs else vs)
      swap true = refl
      swap false = refl

  mem-with_prefix :
      (p w : Bytes) (ts : List Bytes)
      → mem w (with_prefix sv p ts) ≡ (mem (p ++ w) ts && sv.is_valid w)
  unfolding with_prefix mem
  mem-with_prefix p w [] = refl
  mem-with_prefix p w (t ∷ ts) =
      mem-keep w (cut_prefix t p) (with_prefix sv p ts)
      ∙ rw (mem-with_prefix p w ts, is_version-cut_prefix t p w)
          (and-or (eqb t (p ++ w)) (sv.is_valid w) (mem (p ++ w) ts))
    where
      and-or : (a b c : Bool) → ((a && b) || (c && b)) ≡ ((a || c) && b)
      and-or a b c = ground arith

  module _ (laws : IsSemver sv) where
    pub mem-versions :
        (dep : Dependency) (tags : List Bytes) (w : Bytes)
        → mem w (versions sv dep tags) ≡ is_tagged sv dep tags w
    unfolding versions versions_with_prefix tag
    mem-versions dep tags w =
        laws.sort_mem w (with_prefix sv (tag_prefix dep) tags)
        ∙ mem-with_prefix (tag_prefix dep) w tags

    pub is_higher-not : (x : Sign) → not_higher x ≡ not (is_higher x)
    is_higher-not lower = refl
    is_higher-not equal = refl
    is_higher-not higher = refl

    -- At least as high as a version.
    abbrev pub Bounds : Bytes → Bytes → Type 0
    Bounds w out = (is_empty out ≡ false) × (not_higher (sv.compare w out) ≡ true)

    Bounds-trans :
        (a b out : Bytes) → not_higher (sv.compare a b) ≡ true → Bounds b out → Bounds a out
    Bounds-trans a b out h (filled, k) = (filled, laws.compare_trans a b out h k)

    -- The highest of the strings so far.
    pub record IsHighest (best : Bytes) (vs : List Bytes) (out : Bytes) : Type 0 where
      pub from_one : (out ≡ best) ⊎ (mem out vs ≡ true)
      pub over_best : is_empty best ≡ false → Bounds best out
      pub over_all : (w : Bytes) → mem w vs ≡ true → Bounds w out

    abbrev pub AllFilled : List Bytes → Type 0
    AllFilled vs = (w : Bytes) → mem w vs ≡ true → is_empty w ≡ false

    pub highest_from-IsHighest :
        (best : Bytes) (vs : List Bytes)
        → AllFilled vs
        → IsHighest best vs (highest_from sv best vs)
    unfolding highest_from mem
    highest_from-IsHighest best [] filled = record {
      from_one = inl refl;
      over_best = λ h. (h, compare_self sv laws best);
      over_all = λ w h. cc;
    }
    highest_from-IsHighest best (v ∷ vs) filled =
        elim (Bool-cases (is_empty best || is_higher (sv.compare v best))) [
          | inl taken ↦ rw taken (took _ taken (highest_from-IsHighest v vs later))
          | inr kept ↦ rw kept (left _ kept (highest_from-IsHighest best vs later))
        ]
      where
        here : is_empty v ≡ false
        here = filled v (rw (eqb_self v) refl)

        later : AllFilled vs
        later w h = filled w (ground (arith, h))

        either :
            (out : Bytes)
            → Bounds v out
            → ((w : Bytes) → mem w vs ≡ true → Bounds w out)
            → (w : Bytes) → mem w (v ∷ vs) ≡ true
            → Bounds w out
        either out b k w h = elim (Bool-cases (eqb v w)) [
          | inl same ↦ subst (λ x. Bounds x out) ((eqb_iff v w).0 same) b
          | inr other ↦ k w (rw other at h)
        ]

        took :
            (out : Bytes)
            → (is_empty best || is_higher (sv.compare v best)) ≡ true
            → IsHighest v vs out
            → IsHighest best (v ∷ vs) out
        took out taken h = record {
          from_one = inr (elim h.from_one [
            | inl same ↦ rw (same, eqb_self v) refl
            | inr old ↦ ground (arith, old)
          ]);
          over_best = λ f.
              Bounds-trans best v out
                (flipped sv laws v best
                  (is_higher-not (sv.compare v best) ∙ ap not (rw f at taken)))
                (h.over_best here);
          over_all = either out (h.over_best here) h.over_all;
        }

        left :
            (out : Bytes)
            → (is_empty best || is_higher (sv.compare v best)) ≡ false
            → IsHighest best vs out
            → IsHighest best (v ∷ vs) out
        left out kept h =
            let f : is_empty best ≡ false = ground arith in
            record {
              from_one = elim h.from_one [
                | inl same ↦ inl same
                | inr old ↦ inr (ground (arith, old))
              ];
              over_best = h.over_best;
              over_all =
                  either out
                    (Bounds-trans v best out
                      (is_higher-not (sv.compare v best) ∙ ap not (rw f at kept)) (h.over_best f))
                    h.over_all;
            }
