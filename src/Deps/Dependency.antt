-- ===== src/Deps/Dependency.antt =====
-- `Dependency` of pkg/deps/dependency.go and its tags, pkg/deps/versions.go.
use unobin.Base.{
  Bool, true, false, ◌≡◌, ◌↔◌, refl, ap, ap₂, List, [], ◌∷◌, ◌++◌, ◌&&◌, ◌||◌, if◌then◌else◌,
  is_empty, Bytes, bytes, eqb, eqb_iff, and-eq-true_iff,
}

pub record Dependency : Type 0 where
  pub url : Bytes
  pub subdir : Bytes

-- `==` of two dependencies, which are keys of maps.
unfoldable pub same_dep : Dependency → Dependency → Bool
same_dep a b = eqb a.url b.url && eqb a.subdir b.subdir

pub same_dep_iff : (a b : Dependency) → (same_dep a b ≡ true) ↔ (a ≡ b)
unfolding same_dep
same_dep_iff a b = (
  λ h.
      let (u, s) = (and-eq-true_iff _ _).0 h in
      ap₂ (λ x y. record { url = x; subdir = y }) ((eqb_iff a.url b.url).0 u)
        ((eqb_iff a.subdir b.subdir).0 s),
  λ h. (and-eq-true_iff _ _).1 (
    (eqb_iff a.url b.url).1 (ap (λ d. d.url) h),
    (eqb_iff a.subdir b.subdir).1 (ap (λ d. d.subdir) h),
  ),
)

pub same_dep_self : (a : Dependency) → same_dep a a ≡ true
same_dep_self a = (same_dep_iff a a).1 refl

-- `m[k] = v`
abbrev pub put {ℓ} : {V : Type ℓ} → (Dependency → V) → Dependency → V → Dependency → V
put m k v j = if same_dep k j then v else m j

unfoldable pub has_dep : Dependency → List Dependency → Bool
has_dep a [] = false
has_dep a (d ∷ ds) = same_dep d a || has_dep a ds

-- `String`
unfoldable pub dependency_text : Dependency → Bytes
dependency_text d = if is_empty d.subdir then d.url else d.url ++ bytes "//" ++ d.subdir

-- `TagPrefix`
unfoldable pub tag_prefix : Dependency → Bytes
tag_prefix d = if is_empty d.subdir then [] else d.subdir ++ bytes "/"

-- `Tag`
unfoldable pub tag : Dependency → Bytes → Bytes
unfolding tag_prefix
tag d version = tag_prefix d ++ version
