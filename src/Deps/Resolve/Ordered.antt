-- ===== src/Deps/Resolve/Ordered.antt =====
-- The order of a map of requirements in `Resolve` of pkg/deps/resolve.go.
use unobin.Base.{
  Bool, true, false, ◌≡◌, ◌≢◌, refl, sym, ap, ◌∙◌, inl, inr, Bool-cases, false≢true, eqb_iff,
  Option, none, some, List, [], ◌∷◌, map, Bytes, bytes, eqb, eqb_self, Result, ok, is_empty,
}
use unobin.Deps.Semver.{higher, not_higher, Semver, IsSemver}
use unobin.Deps.Dependency.{Dependency, same_dep, put}
use unobin.Deps.Selection.{Selection, new_selection, add}
use unobin.Deps.Resolve.{Project, resolve}
use unobin.Deps.Resolve.Enqueue.{compare_self}

abbrev pub dep_a : Dependency
dep_a = record { url = bytes "a"; subdir = [] }

abbrev pub dep_b : Dependency
dep_b = record { url = bytes "b"; subdir = [] }

abbrev pub dep_c : Dependency
dep_c = record { url = bytes "c"; subdir = [] }

abbrev pub project : List (Dependency × Bytes) → Project
project rs = record {
  unobin_version = [];
  requires = map (λ r. (r.0, record { version = r.1; indirect = false })) rs;
  replace = [];
}

-- The old version of the first requires the third, and the second requires the new version of it.
abbrev pub fetch_by : Bytes → Bytes → (is_a is_old is_b : Bool) → Result (Unit {0}) (Option Project)
fetch_by old new true true b = ok (some (project ((dep_c, old) ∷ [])))
fetch_by old new true false b = ok (some (project []))
fetch_by old new false o true = ok (some (project ((dep_a, new) ∷ [])))
fetch_by old new false o false = ok none

abbrev pub fetch : Bytes → Bytes → Dependency → Bytes → Result (Unit {0}) (Option Project)
fetch old new d v = fetch_by old new (same_dep d dep_a) (eqb v old) (same_dep d dep_b)

-- No two of the three are the same.
apart :
    (same_dep dep_a dep_b ≡ false)
    × (same_dep dep_b dep_a ≡ false)
    × (same_dep dep_a dep_c ≡ false)
    × (same_dep dep_c dep_a ≡ false)
    × (same_dep dep_b dep_c ≡ false)
    × (same_dep dep_c dep_b ≡ false)
unfolding same_dep eqb
apart = (refl, refl, refl, refl, refl, refl)

selects_c :
    (sv : Semver) (old new : Bytes)
    → eqb [] old ≡ false
    → eqb [] new ≡ false
    → eqb old new ≡ false
    → eqb new old ≡ false
    → sv.compare new old ≡ higher
    → (s : Selection) × (resolve sv (fetch old new) 4 (project ((dep_a, old) ∷ (dep_b, old) ∷ []))
        ≡ ok s)
      × (s dep_c ≡ some old)
unfolding resolve add same_dep eqb
selects_c sv old new h₁ h₂ h₃ h₄ h₅ = (
  put (put (put (put new_selection dep_a (some old)) dep_b (some old)) dep_c (some old)) dep_a
      (some new),
  rw (h₁, eqb_self old, h₅, h₁, h₁, h₃, h₄) refl,
  refl,
)

selects_no_c :
    (sv : Semver) (old new : Bytes)
    → eqb [] old ≡ false
    → eqb [] new ≡ false
    → eqb new old ≡ false
    → sv.compare new old ≡ higher
    → (s : Selection) × (resolve sv (fetch old new) 4 (project ((dep_b, old) ∷ (dep_a, old) ∷ []))
        ≡ ok s)
      × (s dep_c ≡ none)
unfolding resolve add same_dep eqb
selects_no_c sv old new h₁ h₂ h₃ h₄ = (
  put (put (put new_selection dep_b (some old)) dep_a (some old)) dep_a (some new),
  rw (h₁, h₄, h₂, h₃, eqb_self new) refl,
  refl,
)

abbrev pub root_ab : Bytes → Project
root_ab old = project ((dep_a, old) ∷ (dep_b, old) ∷ [])

abbrev pub root_ba : Bytes → Project
root_ba old = project ((dep_b, old) ∷ (dep_a, old) ∷ [])

-- For every two versions of which one is above the other, there are projects such that `Resolve`
-- selects a third dependency if it goes through the requirements of the root in one order, and does
-- not select it if it goes through the same requirements in the other order.
pub resolve-order :
    (sv : Semver) (old new : Bytes)
    → IsSemver sv
    → is_empty old ≡ false
    → is_empty new ≡ false
    → sv.compare new old ≡ higher
    → (s : Selection) × (t : Selection) × (resolve sv (fetch old new) 4 (root_ab old) ≡ ok s)
      × (resolve sv (fetch old new) 4 (root_ba old) ≡ ok t)
      × (s dep_c ≡ some old)
      × (t dep_c ≡ none)
resolve-order sv old new laws h k above =
    let (s, is_s, with_c) =
      selects_c sv old new (unset old h) (unset new k) (ne old new (λ e. same (sym e)))
        (ne new old same) above in
    let (t, is_t, without_c) =
      selects_no_c sv old new (unset old h) (unset new k) (ne new old same) above in
    (s, t, is_s, is_t, with_c, without_c)
  where
    unset : (v : Bytes) → is_empty v ≡ false → eqb [] v ≡ false
    unset v f = elim (Bool-cases (eqb [] v)) [
      | inl e ↦ absurd (false≢true (sym f ∙ ap is_empty (sym ((eqb_iff [] v).0 e))))
      | inr other ↦ other
    ]

    same : new ≢ old
    same e = false≢true (
        ap not_higher (sym above)
        ∙ ap (λ v. not_higher (sv.compare new v)) (sym e)
        ∙ compare_self sv laws new)

    ne : (v w : Bytes) → v ≢ w → eqb v w ≡ false
    ne v w d = elim (Bool-cases (eqb v w)) [
      | inl e ↦ absurd (d ((eqb_iff v w).0 e))
      | inr other ↦ other
    ]
