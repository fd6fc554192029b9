-- ===== src/Moves/Address.antt =====
-- How a move rewrites an address: `entryMoveHasAddressPrefix`, `rewriteMovedAddress`,
-- `rewriteMovedDependsOn` and `entryMoveTargetForRef` of pkg/runtime/state_moves.go. The string of an
-- entry ref is its address.
use unobin.Base.{
  ℕ, zero, suc, Bool, true, false, not, ◌||◌, Option, none, some, List, [], ◌∷◌, ◌++◌, ◌==◌, ltb,
  if◌then◌else◌, is_empty, length, Bytes, eqb,
}

-- `strings.HasPrefix(s, p)`
unfoldable pub has_prefix : Bytes → Bytes → Bool
has_prefix s [] = true
has_prefix [] (c ∷ p) = false
has_prefix (d ∷ s) (c ∷ p) = if d == c then has_prefix s p else false

-- `s[n:]`; the callers have `n <= len(s)`.
unfoldable pub drop_bytes : ℕ → Bytes → Bytes
drop_bytes zero s = s
drop_bytes (suc n) [] = []
drop_bytes (suc n) (c ∷ s) = drop_bytes n s

unfoldable pub has_address_prefix : Bytes → Bytes → Bool
unfolding has_prefix
has_address_prefix address prefix = eqb address prefix || has_prefix address (prefix ++ b'/' ∷ [])

-- One entry of the map `addressMoves`.
pub record AddressMove : Type 0 where
  pub from : Bytes
  pub to : Bytes

-- The body of the loop of `rewriteMovedAddress`, on `bestFrom` and `bestTo`.
unfoldable pub better : Bytes → AddressMove → AddressMove → AddressMove
better address best move =
    if not (has_address_prefix address move.from)
    then best
    else if ltb (length best.from) (length move.from)
    then move
    else best

-- The loop, over the map in any order.
unfoldable pub best_move : Bytes → AddressMove → List AddressMove → AddressMove
unfolding better
best_move address best [] = best
best_move address best (move ∷ moves) = best_move address (better address best move) moves

abbrev pub no_move : AddressMove
no_move = record { from = []; to = [] }

unfoldable pub rewrite_moved_address : Bytes → List AddressMove → Bytes
unfolding best_move
rewrite_moved_address address moves =
    let best = best_move address no_move moves in
    if is_empty best.from then address else best.to ++ drop_bytes (length best.from) address

-- `if out == nil && rewritten != dep { out = append([]string{}, deps[:i]...) }`
abbrev pub start_out : Option (List Bytes) → List Bytes → Bool → Option (List Bytes)
start_out none seen same = if same then none else some seen
start_out (some out) seen same = some out

-- `if out != nil { out = append(out, rewritten) }`
abbrev pub push_out : Option (List Bytes) → Bytes → Option (List Bytes)
push_out none rewritten = none
push_out (some out) rewritten = some (out ++ rewritten ∷ [])

-- The loop of `rewriteMovedDependsOn`; `seen` is `deps[:i]`.
unfoldable pub depends_loop :
    List AddressMove → Option (List Bytes) → List Bytes → List Bytes → Option (List Bytes)
unfolding rewrite_moved_address
depends_loop moves out seen [] = out
depends_loop moves out seen (dep ∷ deps) =
    let rewritten = rewrite_moved_address dep moves in
    depends_loop moves (push_out (start_out out seen (eqb rewritten dep)) rewritten)
      (seen ++ dep ∷ []) deps

-- `if out == nil { return deps }; return out`
abbrev pub out_or : Option (List Bytes) → List Bytes → List Bytes
out_or none deps = deps
out_or (some out) deps = out

unfoldable pub rewrite_moved_depends_on : List Bytes → List AddressMove → List Bytes
unfolding depends_loop
rewrite_moved_depends_on deps moves =
    if is_empty deps || is_empty moves then deps else out_or (depends_loop moves none [] deps) deps
