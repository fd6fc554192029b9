-- ===== src/Moves/Examples.antt =====
-- Moves of a call and of a resource below it.
use unobin.Base.{
  false, ◌≡◌, ◌≢◌, refl, [], ◌∷◌, ◌++◌, map, All, Bytes, bytes, eqb, mem, ok, err, arith,
}
use unobin.StateRef.Operations.{same}
use unobin.Moves.Address.{AddressMove, rewrite_moved_address, rewrite_moved_depends_on}
use unobin.Moves.Longest.{Yields, rewrite_moved_address-longest}
use unobin.Moves.Depends.{rewrite_moved_depends_on-map}
use unobin.Moves.Specs.{EntryMoveSpec, out_of_fuel, cycle, normalize_entry_move_specs}
use unobin.Moves.Chains.{
  sources, normalize_entry_move_specs-ne-out_of_fuel, normalize_entry_move_specs-ends,
}

abbrev app : Bytes
app = bytes "resource.app"

abbrev web : Bytes
web = bytes "resource.web"

abbrev move_app : AddressMove
move_app = record { from = app; to = bytes "resource.site" }

abbrev move_vm : AddressMove
move_vm = record { from = bytes "resource.app/resource.vm"; to = bytes "resource.vm" }

abbrev rest : Bytes
rest = bytes "/action.boot"

app-Yields : Yields (move_vm.from ++ rest) move_vm move_app
app-Yields = record { other = λ e. cc; bounded = λ _. omega arith }

rewrite_moved_address-longest_example :
    rewrite_moved_address (move_vm.from ++ rest) (move_app ∷ move_vm ∷ []) ≡ move_vm.to ++ rest
rewrite_moved_address-longest_example =
    rewrite_moved_address-longest move_vm rest (move_app ∷ []) [] (omega arith) refl
      (app-Yields, tt) tt

rewrite_moved_depends_on-map_example :
    rewrite_moved_depends_on (web ∷ app ∷ []) (move_app ∷ [])
    ≡ map (λ d. rewrite_moved_address d (move_app ∷ [])) (web ∷ app ∷ [])
rewrite_moved_depends_on-map_example = rewrite_moved_depends_on-map (web ∷ app ∷ []) (move_app ∷ [])

abbrev app_to_web : EntryMoveSpec
app_to_web = record { from = record { address = app }; to = record { address = web } }

abbrev web_to_site : EntryMoveSpec
web_to_site = record {
  from = record { address = web };
  to = record { address = bytes "resource.site" };
}

abbrev web_to_app : EntryMoveSpec
web_to_app = record { from = record { address = web }; to = record { address = app } }

abbrev app_to_site : EntryMoveSpec
app_to_site = record { from = app_to_web.from; to = web_to_site.to }

chain :
    normalize_entry_move_specs (app_to_web ∷ web_to_site ∷ []) ≡ ok (app_to_site ∷ web_to_site ∷ [])
unfolding normalize_entry_move_specs eqb mem same
chain = refl

round_trip : normalize_entry_move_specs (app_to_web ∷ web_to_app ∷ []) ≡ err (cycle app)
unfolding normalize_entry_move_specs eqb mem same
round_trip = refl

normalize_entry_move_specs-ne-out_of_fuel_example :
    normalize_entry_move_specs (app_to_web ∷ web_to_app ∷ []) ≢ err out_of_fuel
normalize_entry_move_specs-ne-out_of_fuel_example =
    normalize_entry_move_specs-ne-out_of_fuel (app_to_web ∷ web_to_app ∷ [])

normalize_entry_move_specs-ends_example :
    (sources (app_to_site ∷ web_to_site ∷ []) ≡ sources (app_to_web ∷ web_to_site ∷ []))
    × All
        (λ move. mem move.to.address (sources (app_to_web ∷ web_to_site ∷ [])) ≡ false)
        (app_to_site ∷ web_to_site ∷ [])
normalize_entry_move_specs-ends_example =
    normalize_entry_move_specs-ends (app_to_web ∷ web_to_site ∷ []) chain
