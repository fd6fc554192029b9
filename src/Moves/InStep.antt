-- ===== src/Moves/InStep.antt =====
-- Entries that follow each other through a move of pkg/runtime/state_moves.go.
use unobin.Base.{
  Bool, true, false, ◌≡◌, ◌⊎◌, inl, inr, refl, ◌∙◌, Option, none, some, List, [], ◌∷◌, map, Bytes,
}
use unobin.Snapshot.Types.{Entry}
use unobin.Moves.Address.{AddressMove, rewrite_moved_address}
use unobin.Moves.Changes.{is_leaf}

-- A move from the first address to the second is in the list.
abbrev pub Moved : List AddressMove → Bytes → Bytes → Type 0
Moved [] a b = ◌≡◌ {A = Bool} false true
Moved (m ∷ moves) a b = ((m.from ≡ a) × (m.to ≡ b)) ⊎ Moved moves a b

-- What the moves do to a list of dependencies.
abbrev pub moved_deps : List AddressMove → List Bytes → List Bytes
moved_deps moved = map (λ d. rewrite_moved_address d moved)

module _ {ℓ} {V : Type ℓ} where
  -- The second entry is the first, but for its address, what its dependencies became, and, for a
  -- leaf, what the migration changed.
  pub record Follows (moved : List AddressMove) (deps : List Bytes → List Bytes) (e e' : Entry V)
      : Type ℓ where
    pub same_type : e'.entry_type ≡ e.entry_type
    pub same_category : e'.category ≡ e.category
    pub same_binding : e'.binding ≡ e.binding
    pub same_trigger : e'.trigger_hash ≡ e.trigger_hash
    pub same_values :
        is_leaf e.entry_type ≡ false → (e'.inputs ≡ e.inputs) × (e'.outputs ≡ e.outputs)
    pub at_address : (e'.address ≡ e.address) ⊎ Moved moved e.address e'.address
    pub depends : e'.depends_on ≡ deps e.depends_on

  -- The entries of two lists follow each other in order.
  pub data InStep (moved : List AddressMove) (deps : List Bytes → List Bytes)
      : List (Option (Entry V)) → List (Option (Entry V)) → Type ℓ where
    both_end : InStep moved deps [] []
    both_nil :
        {es es' : List (Option (Entry V))}
        → InStep moved deps es es'
        → InStep moved deps (none ∷ es) (none ∷ es')
    both_entry :
        {e e' : Entry V} {es es' : List (Option (Entry V))}
        → Follows moved deps e e'
        → InStep moved deps es es'
        → InStep moved deps (some e ∷ es) (some e' ∷ es')

  pub Follows-refl : (e : Entry V) → Follows [] (λ ds. ds) e e
  Follows-refl e = record {
    same_type = refl;
    same_category = refl;
    same_binding = refl;
    same_trigger = refl;
    same_values = λ _. (refl, refl);
    at_address = inl refl;
    depends = refl;
  }

  pub Follows-weaken :
      {moved moved' : List AddressMove} {deps deps' : List Bytes → List Bytes} {e e' : Entry V}
      → ((a b : Bytes) → Moved moved a b → Moved moved' a b)
      → ((ds : List Bytes) → deps ds ≡ deps' ds)
      → Follows moved deps e e'
      → Follows moved' deps' e e'
  Follows-weaken {e = e} {e' = e'} f g h = record {
    same_type = h.same_type;
    same_category = h.same_category;
    same_binding = h.same_binding;
    same_trigger = h.same_trigger;
    same_values = h.same_values;
    at_address = elim h.at_address [ inl a ↦ inl a | inr m ↦ inr (f e.address e'.address m) ];
    depends = h.depends ∙ g e.depends_on;
  }

  pub InStep-weaken :
      {moved moved' : List AddressMove} {deps deps' : List Bytes → List Bytes}
      {es es' : List (Option (Entry V))}
      → ((a b : Bytes) → Moved moved a b → Moved moved' a b)
      → ((ds : List Bytes) → deps ds ≡ deps' ds)
      → InStep moved deps es es'
      → InStep moved' deps' es es'
  InStep-weaken f g both_end = both_end
  InStep-weaken f g (both_nil h) = both_nil (InStep-weaken f g h)
  InStep-weaken f g (both_entry h hs) = both_entry (Follows-weaken f g h) (InStep-weaken f g hs)

  pub InStep-refl : (es : List (Option (Entry V))) → InStep [] (λ ds. ds) es es
  InStep-refl [] = both_end
  InStep-refl (none ∷ es) = both_nil (InStep-refl es)
  InStep-refl (some e ∷ es) = both_entry (Follows-refl e) (InStep-refl es)

  -- An entry that is moved.
  pub Follows-moved :
      {e e' : Entry V} {to : Bytes} (moved : List AddressMove)
      → Follows [] (λ ds. ds) e e'
      → Follows
          (record { from = e.address; to = to } ∷ moved)
          (λ ds. ds)
          e
          (record e' { address = to })
  Follows-moved moved h = record {
    same_type = h.same_type;
    same_category = h.same_category;
    same_binding = h.same_binding;
    same_trigger = h.same_trigger;
    same_values = h.same_values;
    at_address = inr (inl (refl, refl));
    depends = h.depends;
  }
