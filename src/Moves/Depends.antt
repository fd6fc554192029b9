-- ===== src/Moves/Depends.antt =====
-- `rewriteMovedDependsOn` rewrites each address.
use unobin.Base.{
  ◌≡◌, refl, sym, Option, none, some, List, [], ◌∷◌, ◌++◌, map, map-append, append-nil,
  append_assoc, Bytes, eqb, eqb_iff, Bool-cases, inl, inr,
}
use unobin.Moves.Address.{
  AddressMove, rewrite_moved_address, start_out, push_out, depends_loop, out_or,
  rewrite_moved_depends_on,
}
use unobin.Moves.Longest.{rewrite_moved_address-none}

module _ (moves : List AddressMove) where
  abbrev rewritten : Bytes → Bytes
  rewritten d = rewrite_moved_address d moves

  step_out :
      (out : Option (List Bytes)) (seen : List Bytes) (dep : Bytes)
      → out_or out seen ≡ map rewritten seen
      → out_or
          (push_out (start_out out seen (eqb (rewritten dep) dep)) (rewritten dep))
          (seen ++ dep ∷ [])
        ≡ map rewritten (seen ++ dep ∷ [])
  step_out (some out) seen dep h = rw (h, map-append rewritten seen (dep ∷ [])) refl
  step_out none seen dep h = elim (Bool-cases (eqb (rewritten dep) dep)) [
    | inl same ↦
        rw (same, map-append rewritten seen (dep ∷ []), ← h, (eqb_iff (rewritten dep) dep).0 same)
          refl
    | inr other ↦ rw (other, map-append rewritten seen (dep ∷ []), ← h) refl
  ]

  out_or-depends_loop :
      (out : Option (List Bytes)) (seen deps : List Bytes)
      → out_or out seen ≡ map rewritten seen
      → out_or (depends_loop moves out seen deps) (seen ++ deps) ≡ map rewritten (seen ++ deps)
  unfolding depends_loop
  out_or-depends_loop out seen [] h = rw (append-nil seen) h
  out_or-depends_loop out seen (dep ∷ deps) h = rw (← append_assoc seen (dep ∷ []) deps) (
      out_or-depends_loop (push_out (start_out out seen (eqb (rewritten dep) dep)) (rewritten dep))
        (seen ++ dep ∷ []) deps (step_out out seen dep h))

pub map-no_moves : (deps : List Bytes) → map (λ d. rewrite_moved_address d []) deps ≡ deps
map-no_moves [] = refl
map-no_moves (d ∷ deps) = rw (rewrite_moved_address-none d [] tt, map-no_moves deps) refl

-- `rewriteMovedDependsOn`, which copies the list only when it comes to a changed address, returns the
-- list of the rewritten addresses.
pub rewrite_moved_depends_on-map :
    (deps : List Bytes) (moves : List AddressMove)
    → rewrite_moved_depends_on deps moves ≡ map (λ d. rewrite_moved_address d moves) deps
unfolding rewrite_moved_depends_on
rewrite_moved_depends_on-map [] moves = refl
rewrite_moved_depends_on-map (d ∷ deps) [] = sym (map-no_moves (d ∷ deps))
rewrite_moved_depends_on-map (d ∷ deps) (m ∷ moves) =
    out_or-depends_loop (m ∷ moves) none [] (d ∷ deps) refl
