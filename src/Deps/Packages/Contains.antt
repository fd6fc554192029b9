-- ===== src/Deps/Packages/Contains.antt =====
-- Which projects contain a package: `ProjectContains` of pkg/deps/project_package.go.
use unobin.Base.{
  ℕ, zero, suc, true, not, ◌≡◌, ◌≢◌, inl, inr, refl, sym, ap, ap₂, subst, ◌∙◌, Option, none, some,
  [], ◌∷◌, ◌++◌, length, if_cases, is_empty, Bytes, bytes, eqb, eqb_iff, arith, Bool-cases, ◌==◌,
}
use unobin.Deps.Dependency.{Dependency}
use unobin.Deps.Versions.{cut_prefix}
use unobin.Deps.Packages.{project_contains}

abbrev take : ℕ → Bytes → Bytes
take zero s = []
take (suc n) [] = []
take (suc n) (c ∷ s) = c ∷ take n s

take-cut_prefix : (s p : Bytes) {r : Bytes} → cut_prefix s p ≡ some r → take (length p) s ≡ p
unfolding cut_prefix
take-cut_prefix s [] h = refl
take-cut_prefix [] (c ∷ p) h = cc
take-cut_prefix (x ∷ s) (c ∷ p) h = elim (Bool-cases (x == c)) [
  | inl same ↦
      let eq : x ≡ c = ground arith in ap₂ (λ a b. a ∷ b) eq (take-cut_prefix s p (rw same at h))
  | inr other ↦ absurd (clash (rw other at h))
]
  where
    clash : {r : Bytes} → ◌≢◌ {A = Option Bytes} none (some r)
    clash e = cc

take-append : (a b s : Bytes) → take (length (a ++ b)) s ≡ a ++ b → take (length a) s ≡ a
take-append [] b s h = refl
take-append (x ∷ a) b [] h = cc
take-append (x ∷ a) b (c ∷ s) h =
    let (head, tail) = cons-injective h in ap₂ (λ y ys. y ∷ ys) head (take-append a b s tail)
  where
    cons-injective :
        {y z : ℕ} {ys zs : Bytes} → ◌≡◌ {A = Bytes} (y ∷ ys) (z ∷ zs) → (y ≡ z) × (ys ≡ zs)
    cons-injective e = (cc, cc)

take_self : (s : Bytes) → take (length s) s ≡ s
take_self [] = refl
take_self (c ∷ s) = ap (λ r. c ∷ r) (take_self s)

take-empty : (p s : Bytes) → is_empty p ≡ true → take (length p) s ≡ p
take-empty [] s h = refl
take-empty (c ∷ p) s h = cc

-- A project that contains a package has its URL, and a prefix of its subdir.
project_contains-take :
    (project pkg : Dependency) {s : Bytes}
    → project_contains project pkg ≡ some s
    → (project.url ≡ pkg.url) × (take (length project.subdir) pkg.subdir ≡ project.subdir)
unfolding project_contains
project_contains-take project pkg h = elim (if_cases (not (eqb project.url pkg.url)) h) [
  | inl (_, e) ↦ cc
  | inr (u, h₁) ↦ (
    (eqb_iff project.url pkg.url).0 (ground arith),
    elim (if_cases (is_empty project.subdir) h₁) [
      | inl (none_given, _) ↦ take-empty project.subdir pkg.subdir none_given
      | inr (_, h₂) ↦ elim (if_cases (eqb pkg.subdir project.subdir) h₂) [
        | inl (same, _) ↦
            subst (λ x. take (length x) pkg.subdir ≡ x) ((eqb_iff pkg.subdir project.subdir).0 same)
              (take_self pkg.subdir)
        | inr (_, h₃) ↦
            take-append project.subdir (bytes "/") pkg.subdir
              (take-cut_prefix pkg.subdir (project.subdir ++ bytes "/") h₃)
      ]
    ],
  )
]

-- Two projects that contain a package and have subdirs of one length are the same.
pub project_contains_unique :
    (p q pkg : Dependency) {s t : Bytes}
    → project_contains p pkg ≡ some s
    → project_contains q pkg ≡ some t
    → length p.subdir ≡ length q.subdir
    → p ≡ q
project_contains_unique p q pkg h k e =
    let (pu, ps) = project_contains-take p pkg h in
    let (qu, qs) = project_contains-take q pkg k in
    ap₂ (λ u d. record { url = u; subdir = d }) (pu ∙ sym qu)
      (sym ps ∙ ap (λ n. take n pkg.subdir) e ∙ qs)
