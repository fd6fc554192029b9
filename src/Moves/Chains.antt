-- ===== src/Moves/Chains.antt =====
-- The chains of moves: the fuel is enough, and no destination is a source.
use unobin.Base.{
  update, ℕ, zero, suc, ◌+◌, ◌≤◌, ◌<◌, true, false, ◌||◌, ◌≡◌, ◌≢◌, ◌⊎◌, inl, inr, refl, sym, ap,
  subst, ◌∙◌, Option, none, some, List, [], ◌∷◌, map, length, All, Bytes, eqb, eqb_iff, eqb_self,
  mem, Result, ok, err, ◌>>=◌, ok-injective, err-injective, bind-eq-ok, guard-eq-ok, arith, if_elim,
}
use unobin.StateRef.Syntax.{EntryRef}
use unobin.StateRef.Operations.{same}
use unobin.Apply.Schedule.Loop.{remove_one}
use unobin.Apply.Schedule.Invariant.Defs.{Distinct}
use unobin.Apply.Schedule.Invariant.Remove.{length-remove_one}
use unobin.Moves.Specs.{
  EntryMoveSpec, MoveEdges, MoveError, out_of_fuel, has_edge, move_edges, follow, collapse_loop,
  collapse_all, normalize_entry_move_specs,
}

abbrev pub sources : List EntryMoveSpec → List Bytes
sources = map (λ spec. spec.from.address)

mem-remove_one_other :
    (a b : Bytes) (xs : List Bytes)
    → eqb a b ≡ false
    → mem b xs ≡ true
    → mem b (remove_one a xs) ≡ true
unfolding remove_one mem
mem-remove_one_other a b [] e h = cc
mem-remove_one_other a b (x ∷ xs) e h =
    ground (arith, eqb_iff x a, eqb_iff x b, eqb_iff a b, mem-remove_one_other a b xs e)

-- Distinct strings of a list are no more than its elements.
length-Distinct :
    (path xs : List Bytes)
    → Distinct path
    → ((x : Bytes) → mem x path ≡ true → mem x xs ≡ true)
    → length path ≤ length xs
unfolding mem
length-Distinct [] xs u h = omega arith
length-Distinct (p ∷ path) xs (new, u) h = omega (
  arith,
  length-remove_one p xs (h p (ground (arith, eqb_self p))),
  length-Distinct path (remove_one p xs) u
      (λ x m. mem-remove_one_other p x xs (ground (arith, eqb_iff p x)) (h x (ground arith))),
)

follow-ne-out_of_fuel :
    (next : Option EntryRef) (onward : EntryRef → Result MoveError EntryRef) (cur : EntryRef)
    → ((to : EntryRef) → next ≡ some to → onward to ≢ err out_of_fuel)
    → follow next onward cur ≢ err out_of_fuel
follow-ne-out_of_fuel none onward cur h e = cc
follow-ne-out_of_fuel (some to) onward cur h e = h to refl e

follow-eq-ok :
    (next : Option EntryRef) (onward : EntryRef → Result MoveError EntryRef) (cur : EntryRef)
    {to : EntryRef}
    → follow next onward cur ≡ ok to
    → ((next ≡ none) × (cur ≡ to)) ⊎ ((x : EntryRef) × (onward x ≡ ok to))
follow-eq-ok none onward cur e = inl (refl, ok-injective e)
follow-eq-ok (some x) onward cur e = inr (x, e)

collapse_loop-ne-out_of_fuel :
    (n : ℕ) (edges : MoveEdges) (xs path : List Bytes) (cur : EntryRef)
    → ((k : Bytes) → has_edge (edges k) ≡ true → mem k xs ≡ true)
    → Distinct path
    → ((x : Bytes) → mem x path ≡ true → mem x xs ≡ true)
    → length xs < n + length path
    → collapse_loop n edges path cur ≢ err out_of_fuel
unfolding collapse_loop mem
collapse_loop-ne-out_of_fuel zero edges xs path cur known u h l e =
    absurd (omega (arith, l, length-Distinct path xs u h))
collapse_loop-ne-out_of_fuel (suc n) edges xs path cur known u h l e =
    if_elim (λ r. r ≢ err out_of_fuel) (mem cur.address path) _ _ (λ _ e. cc)
      (λ new. follow-ne-out_of_fuel (edges cur.address) _ cur (λ to e.
        collapse_loop-ne-out_of_fuel n edges xs (cur.address ∷ path) to known (new, u)
          (λ x m. ground (arith, known cur.address (ap has_edge e), eqb_iff cur.address x, h x))
          (omega (arith, l))))
      e

-- The end of a chain is no source.
collapse_loop-end :
    (n : ℕ) (edges : MoveEdges) (path : List Bytes) (cur : EntryRef) {to : EntryRef}
    → collapse_loop n edges path cur ≡ ok to
    → has_edge (edges to.address) ≡ false
unfolding collapse_loop
collapse_loop-end zero edges path cur e = cc
collapse_loop-end (suc n) edges path cur {to} e =
    let (_, e') = guard-eq-ok (mem cur.address path) _ e in
    elim (follow-eq-ok (edges cur.address) _ cur e') [
      | inl (last, here) ↦ ap (λ c. has_edge (edges c.address)) (sym here) ∙ ap has_edge last
      | inr (x, onward) ↦ collapse_loop-end n edges (cur.address ∷ path) x onward
    ]

has_edge-move_edges :
    (edges edges' : MoveEdges) (specs : List EntryMoveSpec) (k : Bytes)
    → move_edges edges specs ≡ ok edges'
    → has_edge (edges' k) ≡ (has_edge (edges k) || mem k (sources specs))
unfolding move_edges mem
has_edge-move_edges edges edges' [] k e =
    ap (λ f. has_edge (f k)) (sym (ok-injective e)) ∙ ground arith
has_edge-move_edges edges edges' (spec ∷ specs) k e =
    let (_, e₁) = guard-eq-ok (same spec.from spec.to) _ e in
    let (_, e₂) = guard-eq-ok (has_edge (edges spec.from.address)) _ e₁ in
    ground
      (arith, has_edge-move_edges (update edges spec.from.address (some spec.to)) edges' specs k e₂)

move_edges-ne-out_of_fuel :
    (edges : MoveEdges) (specs : List EntryMoveSpec) → move_edges edges specs ≢ err out_of_fuel
unfolding move_edges
move_edges-ne-out_of_fuel edges [] e = cc
move_edges-ne-out_of_fuel edges (spec ∷ specs) e =
    if_elim (λ r. r ≢ err out_of_fuel) (same spec.from spec.to) _ _ (λ _ e. cc)
      (λ _.
        if_elim (λ r. r ≢ err out_of_fuel) (has_edge (edges spec.from.address)) _ _ (λ _ e. cc)
          (λ _. move_edges-ne-out_of_fuel (update edges spec.from.address (some spec.to)) specs))
      e

bind-ne-out_of_fuel :
    {A B : Type 0} (m : Result MoveError A) (f : A → Result MoveError B)
    → m ≢ err out_of_fuel
    → ((a : A) → m ≡ ok a → f a ≢ err out_of_fuel)
    → (m >>= f) ≢ err out_of_fuel
bind-ne-out_of_fuel (ok a) f h g e = g a refl e
bind-ne-out_of_fuel (err x) f h g e = h (ap err (err-injective e))

collapse_all-ne-out_of_fuel :
    (fuel : ℕ) (edges : MoveEdges) (xs : List Bytes) (specs : List EntryMoveSpec)
    → ((k : Bytes) → has_edge (edges k) ≡ true → mem k xs ≡ true)
    → length xs < fuel
    → collapse_all fuel edges specs ≢ err out_of_fuel
unfolding collapse_all mem
collapse_all-ne-out_of_fuel fuel edges xs [] known l e = cc
collapse_all-ne-out_of_fuel fuel edges xs (spec ∷ specs) known l e =
    bind-ne-out_of_fuel (collapse_loop fuel edges [] spec.from) _
      (collapse_loop-ne-out_of_fuel fuel edges xs [] spec.from known tt (λ x m. cc)
        (omega (arith, l)))
      (λ to _.
        bind-ne-out_of_fuel (collapse_all fuel edges specs) _
          (collapse_all-ne-out_of_fuel fuel edges xs specs known l) (λ rest _ e. cc))
      e

length-sources : (specs : List EntryMoveSpec) → length (sources specs) ≡ length specs
length-sources [] = refl
length-sources (spec ∷ specs) = omega (arith, length-sources specs)

-- For all moves, the loop of `collapseEntryMove` ends within as many rounds as there are moves, and
-- one more: `normalizeEntryMoveSpecs` does not run out of fuel.
pub normalize_entry_move_specs-ne-out_of_fuel :
    (specs : List EntryMoveSpec) → normalize_entry_move_specs specs ≢ err out_of_fuel
unfolding normalize_entry_move_specs
normalize_entry_move_specs-ne-out_of_fuel specs =
    bind-ne-out_of_fuel (move_edges (λ _. none) specs) _ (move_edges-ne-out_of_fuel _ specs)
      (λ edges h.
        collapse_all-ne-out_of_fuel (length specs + 1) edges (sources specs) specs
          (λ k e. ground (arith, has_edge-move_edges (λ _. none) edges specs k h))
          (omega (arith, length-sources specs)))

-- The moves have these sources, and their destinations have no edge.
unfoldable Ends : MoveEdges → List Bytes → List EntryMoveSpec → Type 0
Ends edges xs moves =
    (sources moves ≡ xs) × All (λ move. has_edge (edges move.to.address) ≡ false) moves

collapse_all-Ends :
    (fuel : ℕ) (edges : MoveEdges) (specs : List EntryMoveSpec) {moves : List EntryMoveSpec}
    → collapse_all fuel edges specs ≡ ok moves
    → Ends edges (sources specs) moves
unfolding collapse_all Ends
collapse_all-Ends fuel edges [] e = subst (Ends edges []) (ok-injective e) (refl, tt)
collapse_all-Ends fuel edges (spec ∷ specs) e =
    let (to, first, e') = bind-eq-ok (collapse_loop fuel edges [] spec.from) _ e in
    let (rest, later, e'') = bind-eq-ok (collapse_all fuel edges specs) _ e' in
    let (kept, ends) = collapse_all-Ends fuel edges specs later in
    subst (Ends edges (sources (spec ∷ specs))) (ok-injective e'') (
      ap (λ xs. spec.from.address ∷ xs) kept,
      (collapse_loop-end fuel edges [] spec.from first, ends),
    )

All-map :
    (P Q : EntryMoveSpec → Type 0) (moves : List EntryMoveSpec)
    → ((m : EntryMoveSpec) → P m → Q m)
    → All P moves
    → All Q moves
All-map P Q [] f h = tt
All-map P Q (m ∷ moves) f (h, hs) = (f m h, All-map P Q moves f hs)

-- The moves that `normalizeEntryMoveSpecs` returns have the sources that were asked for, in their
-- order, and no destination among them is one of the sources.
pub normalize_entry_move_specs-ends :
    (specs : List EntryMoveSpec) {moves : List EntryMoveSpec}
    → normalize_entry_move_specs specs ≡ ok moves
    → (sources moves ≡ sources specs)
      × All (λ move. mem move.to.address (sources specs) ≡ false) moves
unfolding normalize_entry_move_specs Ends
normalize_entry_move_specs-ends specs {moves} e =
    let (edges, h, e') = bind-eq-ok (move_edges (λ _. none) specs) _ e in
    let (kept, ends) = collapse_all-Ends (length specs + 1) edges specs e' in
    (
      kept,
      All-map _ _ moves
          (λ m f. ground (arith, has_edge-move_edges (λ _. none) edges specs m.to.address h)) ends,
    )
