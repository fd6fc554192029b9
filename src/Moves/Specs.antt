-- ===== src/Moves/Specs.antt =====
-- Chains of moves: `normalizeEntryMoveSpecs` and `collapseEntryMove` of pkg/runtime/state_moves.go.
-- The string of an entry ref is its address.
use unobin.Base.{
  update, ℕ, zero, suc, ◌+◌, Bool, true, false, Option, none, some, List, [], ◌∷◌, if◌then◌else◌,
  length, Bytes, mem, Result, ok, err, ◌>>=◌,
}
use unobin.StateRef.Syntax.{EntryRef}
use unobin.StateRef.Operations.{same}

pub record EntryMoveSpec : Type 0 where
  pub from : EntryRef
  pub to : EntryRef

-- `edges`
abbrev pub MoveEdges : Type 0
MoveEdges = Bytes → Option EntryRef

-- `out_of_fuel` is no error of the source: the loop runs on fuel here.
pub data MoveError : Type 0 where
  same_ends : EntryRef → MoveError
  duplicate_source : Bytes → MoveError
  cycle : Bytes → MoveError
  out_of_fuel : MoveError

abbrev pub has_edge : Option EntryRef → Bool
has_edge none = false
has_edge (some to) = true

-- The first loop of `normalizeEntryMoveSpecs`; `order` is kept as the list of the specs.
unfoldable pub move_edges : MoveEdges → List EntryMoveSpec → Result MoveError MoveEdges
move_edges edges [] = ok edges
move_edges edges (spec ∷ specs) =
    let rest = move_edges (update edges spec.from.address (some spec.to)) specs in
    if same spec.from spec.to
    then err (same_ends spec.from)
    else if has_edge (edges spec.from.address)
    then err (duplicate_source spec.from.address)
    else rest

-- `next, ok := edges[key]`
abbrev pub follow :
    Option EntryRef → (EntryRef → Result MoveError EntryRef) → EntryRef → Result MoveError EntryRef
follow none onward cur = ok cur
follow (some to) onward cur = onward to

-- The loop of `collapseEntryMove`; the keys of `seen` are the path.
unfoldable pub collapse_loop : ℕ → MoveEdges → List Bytes → EntryRef → Result MoveError EntryRef
collapse_loop zero edges path cur = err out_of_fuel
collapse_loop (suc n) edges path cur =
    let onward = collapse_loop n edges (cur.address ∷ path) in
    if mem cur.address path then err (cycle cur.address) else follow (edges cur.address) onward cur

-- The second loop: each source with the end of its chain.
unfoldable pub collapse_all :
    ℕ → MoveEdges → List EntryMoveSpec → Result MoveError (List EntryMoveSpec)
unfolding collapse_loop
collapse_all fuel edges [] = ok []
collapse_all fuel edges (spec ∷ specs) = do
  to ← collapse_loop fuel edges [] spec.from
  rest ← collapse_all fuel edges specs
  ok (record { from = spec.from; to = to } ∷ rest)

unfoldable pub normalize_entry_move_specs :
    List EntryMoveSpec → Result MoveError (List EntryMoveSpec)
unfolding move_edges collapse_all
normalize_entry_move_specs specs = do
  edges ← move_edges (λ _. none) specs
  collapse_all (length specs + 1) edges specs
