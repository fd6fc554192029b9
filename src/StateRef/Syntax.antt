-- ===== src/StateRef/Syntax.antt =====
-- Categories, segments and refs of pkg/stateref/entry_ref.go, and their printing by `String`.
-- A Go string is a list of bytes.
use unobin.Base.{
  ℕ, Bool, true, false, ◌&&◌, ◌||◌, Option, none, some, List, [], ◌∷◌, ◌++◌, map, leb, ◌==◌,
  if◌then◌else◌, Bytes, bytes,
}

pub data Category : Type 0 where
  resource data_source action : Category

-- The text of the three constants.
unfoldable pub category_text : Category → Bytes
category_text resource = bytes "resource"
category_text data_source = bytes "data-source"
category_text action = bytes "action"

-- `Key` is a pointer in the source: `none` is nil.
pub record StateAddressSegment : Type 0 where
  pub category : Category
  pub name : Bytes
  pub key : Option Bytes

pub record StateRef : Type 0 where
  pub segments : List StateAddressSegment

pub record EntryRef : Type 0 where
  pub address : Bytes

-- `strings.ReplaceAll` of one byte.
unfoldable pub replace_all : ℕ → Bytes → Bytes → Bytes
replace_all old new [] = []
replace_all old new (c ∷ s) = (if c == old then new else c ∷ []) ++ replace_all old new s

unfoldable pub escape_key : Bytes → Bytes
escape_key s = replace_all b'\'' (b'\\' ∷ b'\'' ∷ []) (replace_all b'\\' (b'\\' ∷ b'\\' ∷ []) s)

-- `if s.Key != nil { out += ... }`
unfoldable pub with_key : Option Bytes → Bytes → Bytes
with_key none out = out
with_key (some k) out = out ++ b'[' ∷ b'\'' ∷ (escape_key k ++ b'\'' ∷ b']' ∷ [])

unfoldable pub segment_text : StateAddressSegment → Bytes
unfolding with_key
segment_text s = with_key s.key (category_text s.category ++ b'.' ∷ s.name)

-- `strings.Join(parts, "/")`
unfoldable pub join_slash : List Bytes → Bytes
join_slash [] = []
join_slash (p ∷ []) = p
join_slash (p ∷ q ∷ ps) = p ++ b'/' ∷ join_slash (q ∷ ps)

unfoldable pub ref_text : StateRef → Bytes
ref_text r = join_slash (map segment_text r.segments)

unfoldable pub ascii_letter : ℕ → Bool
ascii_letter c = leb b'a' c && leb c b'z' || leb b'A' c && leb c b'Z'

unfoldable pub ascii_digit : ℕ → Bool
ascii_digit c = leb b'0' c && leb c b'9'

-- The loop of `validIdent` over the bytes after the first.
unfoldable pub ident_bytes : Bytes → Bool
unfolding ascii_letter ascii_digit
ident_bytes [] = true
ident_bytes (c ∷ cs) = (ascii_letter c || ascii_digit c || c == b'-') && ident_bytes cs

-- `asciiLetter(s[len(s)-1]) || asciiDigit(s[len(s)-1])`
unfoldable pub ends_alnum : Bytes → Bool
unfolding ascii_letter ascii_digit
ends_alnum [] = false
ends_alnum (c ∷ []) = ascii_letter c || ascii_digit c
ends_alnum (c ∷ d ∷ cs) = ends_alnum (d ∷ cs)

unfoldable pub valid_ident : Bytes → Bool
unfolding ident_bytes ends_alnum
valid_ident [] = false
valid_ident (c ∷ cs) = ascii_letter c && ident_bytes cs && ends_alnum (c ∷ cs)
