-- ===== src/Deps/Selection.antt =====
-- `Selection` of pkg/deps/selection.go: the highest floor seen for each dependency.
use unobin.Base.{Bool, true, false, Option, none, some, [], Bytes, if◌then◌else◌}
use unobin.Deps.Semver.{Semver, not_higher}
use unobin.Deps.Dependency.{Dependency, put}

-- The map `chosen`.
abbrev pub Selection : Type 0
Selection = Dependency → Option Bytes

-- `NewSelection`
abbrev pub new_selection : Selection
new_selection dep = none

module _ (sv : Semver) where
  -- `seen && semver.Compare(floor, current) <= 0`
  abbrev pub is_met : Option Bytes → Bytes → Bool
  is_met none floor = false
  is_met (some current) floor = not_higher (sv.compare floor current)

  unfoldable pub add : Selection → Dependency → Bytes → Selection × Bool
  add s dep floor = if is_met (s dep) floor then (s, false) else (put s dep (some floor), true)

-- `Version`
abbrev pub or_empty : Option Bytes → Bytes
or_empty none = []
or_empty (some v) = v

abbrev pub version : Selection → Dependency → Bytes
version s dep = or_empty (s dep)
