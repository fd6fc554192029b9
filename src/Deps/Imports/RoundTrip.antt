-- ===== src/Deps/Imports/RoundTrip.antt =====
-- `ParseDependency` and `String` of pkg/deps/dependency.go.
use unobin.Base.{
  Bool, true, false, not, ◌&&◌, ◌||◌, ◌≡◌, refl, none, some, [], ◌∷◌, ◌++◌, ◌==◌, is_empty, Bytes,
  bytes, ok, arith,
}
use unobin.Deps.Dependency.{Dependency, dependency_text}
use unobin.Deps.Imports.{
  slash, starts_with_slash, cut_slashes, trim_slash, split_repo_subdir, contains_slash,
  parse_dependency,
}

-- The string has no two slashes after each other, and no slash at its end.
unfoldable pub has_no_cut : Bytes → Bool
has_no_cut [] = true
has_no_cut (c ∷ s) = not (c == slash && (is_empty s || starts_with_slash s)) && has_no_cut s

cut_slashes-url : (u : Bytes) → has_no_cut u ≡ true → cut_slashes u ≡ none
unfolding cut_slashes has_no_cut
cut_slashes-url [] h = refl
cut_slashes-url (c ∷ u) h =
    let rest = cut_slashes-url u (ground arith) in
    let off : (c == slash && starts_with_slash u) ≡ false = ground arith in rw (off, rest) refl

starts_with_slash-append :
    (u v : Bytes) → is_empty u ≡ false → starts_with_slash (u ++ v) ≡ starts_with_slash u
starts_with_slash-append [] v h = cc
starts_with_slash-append (c ∷ u) v h = refl

cut_slashes-text :
    (u s : Bytes) → has_no_cut u ≡ true → cut_slashes (u ++ bytes "//" ++ s) ≡ some (u, s)
unfolding cut_slashes has_no_cut
cut_slashes-text [] s h = refl
cut_slashes-text (c ∷ []) s h = let off : (c == slash) ≡ false = ground arith in rw off refl
cut_slashes-text (c ∷ d ∷ u) s h =
    let rest = cut_slashes-text (d ∷ u) s (ground arith) in
    let off : (c == slash && (d == slash)) ≡ false = ground arith in rw (off, rest) refl

trim_slash-url : (u : Bytes) → has_no_cut u ≡ true → trim_slash u ≡ u
unfolding trim_slash has_no_cut
trim_slash-url [] h = refl
trim_slash-url (c ∷ u) h =
    let rest = trim_slash-url u (ground arith) in
    let off : (c == slash && is_empty u) ≡ false = ground arith in rw (off, rest) refl

contains_slash-filled : (u : Bytes) → contains_slash u ≡ true → is_empty u ≡ false
unfolding contains_slash
contains_slash-filled [] h = cc
contains_slash-filled (c ∷ u) h = refl

printed :
    (u s : Bytes)
    → contains_slash u ≡ true
    → has_no_cut u ≡ true
    → starts_with_slash s ≡ false
    → parse_dependency (dependency_text (record { url = u; subdir = s }))
      ≡ ok (record { url = u; subdir = s })
unfolding parse_dependency dependency_text split_repo_subdir
printed u [] h k l = rw (cut_slashes-url u k, h) refl
printed u (c ∷ s) h k l =
    rw (cut_slashes-text u (c ∷ s) k, trim_slash-url u k, contains_slash-filled u h, h, l) refl

-- A URL with a slash, but with no two of them after each other and none at its end, and a subdir that
-- does not start with a slash: `ParseDependency` reads them back from what `String` prints.
pub parse_dependency-dependency_text :
    (d : Dependency)
    → contains_slash d.url ≡ true
    → has_no_cut d.url ≡ true
    → starts_with_slash d.subdir ≡ false
    → parse_dependency (dependency_text d) ≡ ok d
parse_dependency-dependency_text d h k l = printed d.url d.subdir h k l
