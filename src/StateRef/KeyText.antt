-- ===== src/StateRef/KeyText.antt =====
-- What `parseKey` reads from a text with no backslash.
use unobin.Base.{
  ℕ, true, ◌≡◌, ◌≢◌, sym, ◌∙◌, [], ◌∷◌, ◌++◌, append_assoc, ◌==◌, ◌&&◌, arith, All, Bytes, ok, err,
  if_elim, not, ◌||◌, append-nil, Result,
}
use unobin.StateRef.Syntax.{escape_key, replace_all}
use unobin.StateRef.Parser.{ParseError, close_key, key_loop, parse_key}
use unobin.StateRef.Escape.{escape_key-escaped}

abbrev pub NoEscape : ℕ → Type 0
NoEscape c = c ≢ b'\\'

-- What the loop of `parseKey` adds to the builder is, escaped, what it read up to the closing `']`.
abbrev KeyRead : Bytes → Bytes → Result ParseError Bytes → Type 0
KeyRead out cs (ok k) = (k' : Bytes) × (k ≡ out ++ k') × (cs ≡ escape_key k' ++ b'\'' ∷ b']' ∷ [])
KeyRead out cs (err e) = Unit

close_key-KeyRead : (context out cs : Bytes) → KeyRead out (b'\'' ∷ cs) (close_key context out cs)
unfolding close_key
close_key-KeyRead context out [] = tt
close_key-KeyRead context out (d ∷ []) =
    if_elim (KeyRead out (b'\'' ∷ d ∷ [])) (d == b']') _ _
      (λ e. ([], sym (append-nil out), unfold escape_key replace_all in ground arith)) (λ _. tt)
close_key-KeyRead context out (d ∷ e ∷ cs) =
    if_elim (KeyRead out (b'\'' ∷ d ∷ e ∷ cs)) (not (d == b']')) _ _ (λ _. tt)
      (λ _. if_elim (KeyRead out (b'\'' ∷ d ∷ e ∷ cs)) (e == b'.') _ _ (λ _. tt) (λ _. tt))

escape_key-plain :
    (c : ℕ) (k rest : Bytes)
    → c ≢ b'\\'
    → c ≢ b'\''
    → escape_key (c ∷ k) ++ rest ≡ c ∷ (escape_key k ++ rest)
escape_key-plain c k rest h g = rw escape_key-escaped (ground arith)

KeyRead-plain :
    (c : ℕ) (out cs : Bytes) (r : Result ParseError Bytes)
    → c ≢ b'\\'
    → c ≢ b'\''
    → KeyRead (out ++ c ∷ []) cs r
    → KeyRead out (c ∷ cs) r
KeyRead-plain c out cs (err e) h g read = tt
KeyRead-plain c out cs (ok k) h g (k', built, read) =
    (c ∷ k', built ∙ append_assoc out (c ∷ []) k', rw read (sym (escape_key-plain c k' _ h g)))

key_loop-KeyRead :
    (context cs out : Bytes) → All NoEscape cs → KeyRead out cs (key_loop context out cs)
unfolding key_loop
key_loop-KeyRead context [] out h = tt
key_loop-KeyRead context (c ∷ []) out h =
    if_elim (KeyRead out (c ∷ [])) (c == b'\'') _ _ (λ _. tt) (λ _. tt)
key_loop-KeyRead context (c ∷ d ∷ cs) out (h, t) =
    if_elim Read (c == b'\n' || c == b'\r') _ _ (λ _. tt)
      (λ _.
        if_elim Read (c == b'\\') _ _ (λ e. absurd (h (ground arith)))
          (λ _.
            if_elim Read (c == b'\'') _ _
              (λ e. rw (the_byte e) (close_key-KeyRead context out (d ∷ cs)))
              (λ e.
                KeyRead-plain c out (d ∷ cs) _ h (ground arith)
                  (key_loop-KeyRead context (d ∷ cs) (out ++ c ∷ []) t))))
  where
    Read : Result ParseError Bytes → Type 0
    Read = KeyRead out (c ∷ d ∷ cs)

    the_byte : (c == b'\'') ≡ true → c ≡ b'\''
    the_byte e = ground arith

-- What follows the `[` of a key is the key, quoted and escaped, up to the end.
abbrev pub KeyText : Bytes → Result ParseError Bytes → Type 0
KeyText cs (ok k) = cs ≡ b'\'' ∷ (escape_key k ++ b'\'' ∷ b']' ∷ [])
KeyText cs (err e) = Unit

KeyText-KeyRead :
    (cs : Bytes) (r : Result ParseError Bytes) → KeyRead [] cs r → KeyText (b'\'' ∷ cs) r
KeyText-KeyRead cs (err e) h = tt
KeyText-KeyRead cs (ok k) (k', built, read) = rw (built, read)

pub parse_key-KeyText :
    (cs context : Bytes) → All NoEscape cs → KeyText cs (parse_key (b'[' ∷ cs) context)
unfolding parse_key
parse_key-KeyText [] context h = tt
parse_key-KeyText (q ∷ cs) context (h, t) =
    if_elim (KeyText (q ∷ cs)) (b'[' == b'[' && q == b'\'') _ _
      (λ e. rw (the_byte e) (KeyText-KeyRead cs _ (key_loop-KeyRead context cs [] t))) (λ _. tt)
  where
    the_byte : (b'[' == b'[' && q == b'\'') ≡ true → q ≡ b'\''
    the_byte e = ground arith
