-- ===== src/Snapshot/Valid.antt =====
-- What `Validate` of pkg/sdk/state/snapshot.go checks.
use unobin.Base.{
  ℕ, ◌+◌, Bool, true, false, not, ◌||◌, ◌≡◌, ◌≢◌, refl, Option, none, some, List, [], ◌∷◌, ◌==◌,
  if◌then◌else◌, is_empty, Bytes, bytes, eqb, eqb_iff, mem, update, ok, err, ◌>>=◌, bind-eq-ok,
  guard-eq-ok, arith,
}
use unobin.Snapshot.Types.{
  EntryType, entry_leaf, entry_library_call, entry_action, entry_data, other_entry, Binding, Entry,
  Snapshot, current_format_version,
}
use unobin.Snapshot.Validate.{
  SnapshotError, validate_category, check_binding, validate_graph_binding, validate_kind,
  validate_entry, validate_loop, validate,
}

-- The categories that an entry of a type may have.
abbrev pub categories : EntryType → List Bytes
categories entry_leaf = bytes "resource" ∷ []
categories entry_library_call = bytes "resource" ∷ bytes "data-source" ∷ bytes "action" ∷ []
categories entry_action = bytes "action" ∷ []
categories entry_data = bytes "data-source" ∷ []
categories (other_entry kind) = []

-- The binding is there, with an alias and a kind.
abbrev pub IsBound : Option Binding → Type 0
IsBound none = false ≡ true
IsBound (some b) = (is_empty b.alias ≡ false) × (is_empty b.export ≡ false)

check_binding-ok :
    (address : Bytes) (b : Option Binding) {u : Unit {0}}
    → check_binding address b ≡ ok u
    → IsBound b
check_binding-ok address none h = cc
check_binding-ok address (some b) h = ground arith

module _ {ℓ} {V : Type ℓ} where
  pub record IsEntry (e : Entry V) : Type ℓ where
    pub addressed : is_empty e.address ≡ false
    pub category_ok : mem e.category (categories e.entry_type) ≡ true
    pub bound : IsBound e.binding

  unfoldable pub has_address : Bytes → List (Option (Entry V)) → Bool
  has_address a [] = false
  has_address a (none ∷ es) = has_address a es
  has_address a (some e ∷ es) = eqb e.address a || has_address a es

  -- No entry is nil, each is well formed, and no address comes twice.
  pub data AreEntries : List (Option (Entry V)) → Type ℓ where
    no_entries : AreEntries []
    and_entry :
        {e : Entry V} {es : List (Option (Entry V))}
        → IsEntry e
        → has_address e.address es ≡ false
        → AreEntries es
        → AreEntries (some e ∷ es)

  validate_category-ok :
      (e : Entry V) (allowed : List Bytes) {u : Unit {0}}
      → validate_category e allowed ≡ ok u
      → mem e.category allowed ≡ true
  unfolding validate_category
  validate_category-ok e allowed h = ground arith

  checks-ok :
      (e : Entry V) (allowed : List Bytes) {u : Unit {0}}
      → (validate_category e allowed >>= λ _. validate_graph_binding e) ≡ ok u
      → (mem e.category allowed ≡ true) × IsBound e.binding
  unfolding validate_graph_binding
  checks-ok e allowed h =
      let (v, first, later) = bind-eq-ok (validate_category e allowed) _ h in
      (validate_category-ok e allowed first, check_binding-ok e.address e.binding later)

  validate_kind-ok :
      (k : EntryType) (e : Entry V) {u : Unit {0}}
      → validate_kind k e ≡ ok u
      → (mem e.category (categories k) ≡ true) × IsBound e.binding
  unfolding validate_kind
  validate_kind-ok entry_leaf e h = checks-ok e _ h
  validate_kind-ok entry_library_call e h = checks-ok e _ h
  validate_kind-ok entry_action e h = checks-ok e _ h
  validate_kind-ok entry_data e h = checks-ok e _ h
  validate_kind-ok (other_entry kind) e h = absurd (refused (is_empty kind) _ _ h)
    where
      refused :
          (b : Bool) (x y : SnapshotError) {u : Unit {0}} → (if b then err x else err y) ≢ ok u
      refused true x y h = cc
      refused false x y h = cc

  -- The addresses seen so far do not come again.
  validate_loop-ok :
      (i : ℕ) (seen : Bytes → Bool) (es : List (Option (Entry V))) {u : Unit {0}}
      → validate_loop i seen es ≡ ok u
      → AreEntries es × ((a : Bytes) → seen a ≡ true → has_address a es ≡ false)
  unfolding validate_loop validate_entry has_address
  validate_loop-ok i seen [] h = (no_entries, λ a s. refl)
  validate_loop-ok i seen (none ∷ es) h = cc
  validate_loop-ok i seen (some e ∷ es) h =
      let (filled, h₁) = guard-eq-ok (is_empty e.address) _ h in
      let (new, h₂) = guard-eq-ok (seen e.address) _ h₁ in
      let (u, checked, h₃) = bind-eq-ok (validate_kind e.entry_type e) _ h₂ in
      let (category_ok, bound) = validate_kind-ok e.entry_type e checked in
      let (later, apart) = validate_loop-ok (i + 1) (update seen e.address true) es h₃ in
      (
        and_entry (record { addressed = filled; category_ok = category_ok; bound = bound })
            (apart e.address (ground (arith, eqb_iff e.address e.address))) later,
        λ a s. ground (arith, apart a, eqb_iff e.address a),
      )

  -- A snapshot that `Validate` accepts has the current version; none of its entries is nil, each has
  -- an address, a category that its type allows, and a binding with an alias and a kind; and no two
  -- entries have one address.
  pub validate-AreEntries :
      (s : Snapshot V) {u : Unit {0}}
      → validate s ≡ ok u
      → (s.format_version ≡ current_format_version) × AreEntries s.entries
  unfolding validate
  validate-AreEntries s h =
      let (current, h₁) = guard-eq-ok (not (s.format_version == current_format_version)) _ h in
      (ground arith, (validate_loop-ok 0 (λ _. false) s.entries h₁).0)
