-- ===== src/Deps/Versions/Best.antt =====
-- What `ResolveVersion` of pkg/deps/versions.go answers to a query.
use unobin.Base.{
  true, false, not, ◌||◌, ◌≡◌, ◌≢◌, inl, inr, refl, sym, ap, subst, ◌∙◌, List, [], ◌∷◌, if_cases,
  is_empty, Bytes, eqb, eqb_iff, mem, ok, ok-injective, arith, Bool-cases, and-eq-true_iff,
  guard-eq-ok,
}
use unobin.Deps.Semver.{not_higher, Semver, IsSemver}
use unobin.Deps.Dependency.{Dependency}
use unobin.Deps.Resolve.Enqueue.{compare_self}
use unobin.Deps.Versions.{
  VersionError, or_error, no_versions_available, no_match, find_version, matching, is_latest,
  versions, highest_from, highest, resolve_version,
}
use unobin.Deps.Versions.Highest.{
  fits, is_tagged, mem-matching, mem-versions, IsHighest, AllFilled, highest_from-IsHighest,
}

find_version-eq-ok :
    (query : Bytes) (vs : List Bytes) {v : Bytes}
    → find_version query vs ≡ ok v
    → (v ≡ query) × (mem v vs ≡ true)
unfolding find_version mem
find_version-eq-ok query [] h = cc
find_version-eq-ok query (u ∷ vs) {v} h = elim (if_cases (eqb u query) h) [
  | inl (same, e) ↦ (
    sym (ok-injective e) ∙ (eqb_iff u query).0 same,
    ap (λ b. b || mem v vs) ((eqb_iff u v).1 (ok-injective e)),
  )
  | inr (_, e) ↦ let (at, old) = find_version-eq-ok query vs e in (at, ground (arith, old))
]

find_version-mem :
    (query : Bytes) (vs : List Bytes)
    → mem query vs ≡ true
    → (v : Bytes) × (find_version query vs ≡ ok v)
unfolding find_version mem
find_version-mem query [] h = cc
find_version-mem query (u ∷ vs) h = elim (Bool-cases (eqb u query)) [
  | inl same ↦ rw same (u, refl)
  | inr other ↦ rw other (find_version-mem query vs (rw other at h))
]

or_error-eq-ok :
    (e : VersionError) (out : Bytes) {v : Bytes}
    → or_error e out ≡ ok v
    → (out ≡ v) × (is_empty v ≡ false)
or_error-eq-ok e [] h = cc
or_error-eq-ok e (x ∷ out) h = (ok-injective h, ap is_empty (sym (ok-injective h)))

or_error-filled :
    (e : VersionError) (out : Bytes) → is_empty out ≡ false → (v : Bytes) × (or_error e out ≡ ok v)
or_error-filled e [] h = cc
or_error-filled e (x ∷ out) h = (x ∷ out, refl)

module _ (sv : Semver) (laws : IsSemver sv) where
  -- What `Highest` returns, where it returns a version.
  highest-eq-ok :
      (e : VersionError) (vs : List Bytes) {v : Bytes}
      → AllFilled sv laws vs
      → or_error e (highest sv vs) ≡ ok v
      → (mem v vs ≡ true) × ((w : Bytes) → mem w vs ≡ true → not_higher (sv.compare w v) ≡ true)
  unfolding highest
  highest-eq-ok e vs {v} filled h =
      let (same, full) = or_error-eq-ok e (highest_from sv [] vs) h in
      let best : IsHighest sv laws [] vs v =
        subst (IsHighest sv laws [] vs) same (highest_from-IsHighest sv laws [] vs filled) in
      (elim best.from_one [ inl none_found ↦ cc | inr found ↦ found ], λ w m. (best.over_all w m).1)

  highest-found :
      (e : VersionError) (vs : List Bytes) (w : Bytes)
      → AllFilled sv laws vs
      → mem w vs ≡ true
      → (v : Bytes) × (or_error e (highest sv vs) ≡ ok v)
  unfolding highest
  highest-found e vs w filled h =
      or_error-filled e (highest_from sv [] vs)
        ((highest_from-IsHighest sv laws [] vs filled).over_all w h).0

  module _ (dep : Dependency) (tags : List Bytes) where
    versions-filled : AllFilled sv laws (versions sv dep tags)
    versions-filled [] h =
        absurd (unnamed ((and-eq-true_iff _ _).0 (sym (mem-versions sv laws dep tags []) ∙ h)).1)
      where
        unnamed : sv.is_valid [] ≢ true
        unnamed v = let no = laws.no_version in cc
    versions-filled (x ∷ w) h = refl

    matching-filled : (query : Bytes) → AllFilled sv laws (matching query (versions sv dep tags))
    matching-filled query w h =
        versions-filled w
          ((and-eq-true_iff _ _).0 (sym (mem-matching query w (versions sv dep tags)) ∙ h)).0

    -- A version of the tags that fits the query, and no other such version is above it.
    pub record IsBest (query v : Bytes) : Type 0 where
      pub fitting : fits sv query v ≡ true
      pub tagged : is_tagged sv dep tags v ≡ true
      pub best :
          (w : Bytes)
          → is_tagged sv dep tags w ≡ true
          → fits sv query w ≡ true
          → not_higher (sv.compare w v) ≡ true

    tagged_version :
        (w : Bytes) → mem w (versions sv dep tags) ≡ true → is_tagged sv dep tags w ≡ true
    tagged_version w h = sym (mem-versions sv laws dep tags w) ∙ h

    version_tagged :
        (w : Bytes) → is_tagged sv dep tags w ≡ true → mem w (versions sv dep tags) ≡ true
    version_tagged w h = mem-versions sv laws dep tags w ∙ h

    -- A version that `ResolveVersion` returns fits the query: it is any for no query and for `latest`,
    -- the query itself for a full version, and the query or a continuation of it after a dot for a
    -- partial one. It is a valid version that a tag of the dependency names, and no other such version
    -- that fits is above it. The order of the versions is assumed to be one, and no version is empty.
    pub resolve_version-IsBest :
        (query : Bytes) {v : Bytes} → resolve_version sv dep query tags ≡ ok v → IsBest query v
    unfolding resolve_version
    resolve_version-IsBest query {v} h = elim (if_cases (is_latest query) h) [
      | inl (latest, h₁) ↦
          let (found, best) =
            highest-eq-ok no_versions_available (versions sv dep tags) versions-filled h₁ in
          record {
            fitting = rw latest refl;
            tagged = tagged_version v found;
            best = λ w t f. best w (version_tagged w t);
          }
      | inr (named, h₁) ↦
          let (_, h₂) = guard-eq-ok (not (sv.is_valid query)) _ h₁ in
          elim (if_cases (eqb (sv.canonical query) query) h₂) [
            | inl (full, h₃) ↦
                let (at, found) = find_version-eq-ok query (versions sv dep tags) h₃ in
                record {
                  fitting = rw (named, full) ((eqb_iff v query).1 at);
                  tagged = tagged_version v found;
                  best = λ w t f.
                      subst (λ x. not_higher (sv.compare w x) ≡ true)
                        ((eqb_iff w query).0 (rw (named, full) at f) ∙ sym at)
                        (compare_self sv laws w);
                }
            | inr (partial, h₃) ↦
                let (found, best) =
                  highest-eq-ok no_match (matching query (versions sv dep tags))
                    (matching-filled query) h₃ in
                let (m, f) =
                  (and-eq-true_iff _ _).0
                    (sym (mem-matching query v (versions sv dep tags)) ∙ found) in
                record {
                  fitting = rw (named, partial) f;
                  tagged = tagged_version v m;
                  best = λ w t g. best w (
                      mem-matching query w (versions sv dep tags)
                      ∙ (and-eq-true_iff _ _).1 (version_tagged w t, rw (named, partial) at g));
                }
          ]
    ]

    -- If a version of the tags fits a query that is none, `latest` or valid, there is no error.
    pub resolve_version-found :
        (query w : Bytes)
        → (is_latest query || sv.is_valid query) ≡ true
        → is_tagged sv dep tags w ≡ true
        → fits sv query w ≡ true
        → (v : Bytes) × (resolve_version sv dep query tags ≡ ok v)
    unfolding resolve_version
    resolve_version-found query w asked t f = elim (Bool-cases (is_latest query)) [
      | inl latest ↦ rw latest (
          highest-found no_versions_available (versions sv dep tags) w versions-filled
            (version_tagged w t))
      | inr named ↦
          let valid : sv.is_valid query ≡ true = rw named at asked in
          rw (named, valid)
            (elim (Bool-cases (eqb (sv.canonical query) query)) [
              | inl full ↦ rw full (
                  find_version-mem query (versions sv dep tags) (
                    version_tagged query (
                      subst (λ x. is_tagged sv dep tags x ≡ true)
                        ((eqb_iff w query).0 (rw (named, full) at f)) t)))
              | inr partial ↦ rw partial (
                  highest-found no_match (matching query (versions sv dep tags)) w
                    (matching-filled query)
                    (mem-matching query w (versions sv dep tags)
                      ∙ (and-eq-true_iff _ _).1 (version_tagged w t, rw (named, partial) at f)))
            ])
    ]
