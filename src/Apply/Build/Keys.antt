-- ===== src/Apply/Build/Keys.antt =====
-- The keys of an address, and their comparison: `keyPath`, `keyPathsAgree` and `pairKeyMatches` of
-- pkg/runtime/apply_graph.go, and `templateAddress` of pkg/runtime/executor.go.
use unobin.Base.{
  update, Bool, true, false, not, ◌||◌, Option, none, some, List, [], ◌∷◌, ◌++◌, if◌then◌else◌,
  is_empty, Bytes, eqb, Result, ok, err,
}
use unobin.StateRef.Syntax.{StateAddressSegment, StateRef, ref_text}
use unobin.StateRef.Parser.{ParseError, parse_state_ref}
use unobin.StateRef.Operations.{set_key, template}

pub record KeyPosition : Type 0 where
  pub position : Bytes
  pub key : Bytes

-- `if key == nil { continue }`
abbrev key_at : Option Bytes → Bytes → List KeyPosition → List KeyPosition
key_at none prefix rest = rest
key_at (some k) prefix rest = record { position = prefix; key = k } ∷ rest

-- The loop of `keyPath`; the first list is `tmpl`.
unfoldable pub key_path_loop :
    List StateAddressSegment → List StateAddressSegment → List KeyPosition
key_path_loop tmpl [] = []
key_path_loop tmpl (s ∷ ss) =
    let tmpl' = tmpl ++ set_key none s ∷ [] in
    key_at s.key (ref_text (record { segments = tmpl' })) (key_path_loop tmpl' ss)

abbrev key_path_of : Result ParseError StateRef → List KeyPosition
unfolding key_path_loop
key_path_of (err e) = []
key_path_of (ok ref) = key_path_loop [] ref.segments

unfoldable pub key_path : Bytes → List KeyPosition
unfolding key_path_loop
key_path addr = key_path_of (parse_state_ref addr)

-- The loop that fills `bAt`.
unfoldable pub key_map : (Bytes → Option Bytes) → List KeyPosition → Bytes → Option Bytes
key_map m [] = m
key_map m (kp ∷ b) = key_map (update m kp.position (some kp.key)) b

-- `bKey, ok := bAt[kp.at]; ok && bKey != kp.key`
abbrev pub differs : Option Bytes → Bytes → Bool
differs none key = false
differs (some b_key) key = not (eqb b_key key)

unfoldable pub agree_loop : (Bytes → Option Bytes) → List KeyPosition → Bool
agree_loop m [] = true
agree_loop m (kp ∷ a) = if differs (m kp.position) kp.key then false else agree_loop m a

unfoldable pub key_paths_agree : List KeyPosition → List KeyPosition → Bool
unfolding agree_loop key_map
key_paths_agree a b =
    if is_empty a || is_empty b then true else agree_loop (key_map (λ _. none) b) a

-- The inner loop of `pairKeyMatches`.
unfoldable pub has_key : Bytes → List KeyPosition → Bool
has_key key [] = false
has_key key (dp ∷ d) = if eqb key dp.key then true else has_key key d

unfoldable pub pair_loop : List KeyPosition → List KeyPosition → Bool
unfolding has_key
pair_loop [] d = false
pair_loop (sp ∷ s) d = if has_key sp.key d then true else pair_loop s d

unfoldable pub pair_key_matches : List KeyPosition → List KeyPosition → Bool
unfolding pair_loop
pair_key_matches s d = if is_empty s || is_empty d then false else pair_loop s d

abbrev or_address : Bytes → Result ParseError Bytes → Bytes
or_address addr (ok t) = t
or_address addr (err e) = addr

unfoldable pub template_address : Bytes → Bytes
template_address addr = or_address addr (template addr)
