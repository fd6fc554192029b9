-- ===== src/Base/Maps.antt =====
-- Go maps with string keys that are only read by key, as functions.
use unobin.Base.Tests.{Bytes, eqb, if◌then◌else◌}

-- `m[k] = v`
abbrev pub update {ℓ} : {V : Type ℓ} → (Bytes → V) → Bytes → V → Bytes → V
update m k v j = if eqb k j then v else m j
