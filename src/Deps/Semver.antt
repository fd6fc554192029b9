-- ===== src/Deps/Semver.antt =====
-- What pkg/deps uses of golang.org/x/mod/semver.
use unobin.Base.{Bool, true, false, ◌≡◌, List, [], Bytes, mem}

-- The three results of `Compare`: below, equal to and above 0.
pub data Sign : Type 0 where
  lower equal higher : Sign

abbrev pub flip : Sign → Sign
flip lower = higher
flip equal = equal
flip higher = lower

-- `> 0` and `<= 0`
abbrev pub is_higher : Sign → Bool
is_higher higher = true
is_higher _ = false

abbrev pub not_higher : Sign → Bool
not_higher higher = false
not_higher _ = true

pub record Semver : Type 0 where
  pub is_valid : Bytes → Bool
  pub canonical : Bytes → Bytes
  pub compare : Bytes → Bytes → Sign
  pub sort : List Bytes → List Bytes

-- `Compare` orders the versions, the empty string is no version, and `Sort` only reorders.
pub record IsSemver (sv : Semver) : Type 0 where
  pub compare_flip : (a b : Bytes) → sv.compare b a ≡ flip (sv.compare a b)
  pub compare_trans :
      (a b c : Bytes)
      → not_higher (sv.compare a b) ≡ true
      → not_higher (sv.compare b c) ≡ true
      → not_higher (sv.compare a c) ≡ true
  pub no_version : sv.is_valid [] ≡ false
  pub sort_mem : (v : Bytes) (vs : List Bytes) → mem v (sv.sort vs) ≡ mem v vs
