-- ===== src/Irc/Parse.antt =====
-- `irc_parse` of src/irc.c, up to the dispatch: how a line is cut into `parv`.
use bopm.Prelude.{
  ℕ, ◌+◌, ◌≤◌, ◌≡◌, refl, Bool, true, false, Option, none, some, List, [], ◌∷◌, ◌++◌, arith, ltb,
  ◌==◌, if◌then◌else◌, Bool-cases, inl, inr, Bytes, length, All, space, Lacks,
}
use mathlib.Core.List.{append-nil}

abbrev pub colon : ℕ
colon = b':'

-- `*(pos + 1) == ':'`
abbrev pub is_last : Bytes → Bool
is_last [] = false
is_last (c ∷ _) = c == colon

abbrev behind : Bytes → Bytes
behind [] = []
behind (_ ∷ s) = s

abbrev pub Cut : Type 0
Cut = Option (Bytes × List Bytes)

-- A byte in front of the token that is read.
unfoldable pub push : ℕ → Cut → Cut
push c none = none
push c (some (token, more)) = some (c ∷ token, more)

-- A space has ended a token.
unfoldable pub store : Cut → Cut
store none = none
store (some (token, more)) = some ([], token ∷ more)

-- The `while` loop at the rest of the line: what is left of the token that stands there, and the
-- tokens behind it, the first of which is stored at `parv[parc]`. `none` is a store at `parv[17]`,
-- behind the array. The first `if` of the loop asks for a byte that is a space and NUL at once, so
-- it never applies.
unfoldable pub cut : ℕ → Bytes → Cut
cut parc [] = some ([], [])
cut parc (c ∷ s) =
    let last : Cut = some ([], behind s ∷ []) in
    let next = store (cut (parc + 1) s) in
    let same = push c (cut parc s) in
    if c == space
    then if ltb 17 parc
      then some (c ∷ s, [])
      else if ltb parc 17
      then if is_last s then last else next
      else none
    else same

-- `parv[0]`, and `parv[1]` to `parv[parc - 1]`.
pub record Parv : Type 0 where
  pub source : Bytes
  pub params : List Bytes

-- An empty line is ignored.
pub data Parsed : Type 0 where
  ignored overrun : Parsed
  parsed : Parv → Parsed

unfoldable pub with_source : Cut → Parsed
with_source none = overrun
with_source (some (source, params)) = parsed (record { source = source; params = params })

unfoldable pub without_source : Bytes → Cut → Parsed
without_source server none = overrun
without_source server (some (first, params)) =
    parsed (record { source = server; params = first ∷ params })

unfoldable pub irc_parse : (server : Bytes) → Bytes → Parsed
unfolding cut push store with_source without_source
irc_parse server [] = ignored
irc_parse server (c ∷ line) =
    if c == colon then with_source (cut 1 line) else without_source server (cut 2 (c ∷ line))

-- A token that a line can carry in front of its last one.
abbrev pub IsToken : Bytes → Type 0
IsToken token = Lacks space token × (is_last token ≡ false)

-- Tokens with a space in front of each, and what follows them.
abbrev pub spaced : List Bytes → Bytes → Bytes
spaced [] tail = tail
spaced (token ∷ tokens) tail = space ∷ (token ++ spaced tokens tail)

cut-token :
    (parc : ℕ) (token s next : Bytes) (more : List Bytes)
    → Lacks space token
    → cut parc s ≡ some (next, more)
    → cut parc (token ++ s) ≡ some (token ++ next, more)
unfolding cut push
cut-token parc [] s next more h e = e
cut-token parc (c ∷ token) s next more h e = rw (h.0, cut-token parc token s next more h.1 e)

cut-token_none :
    (parc : ℕ) (token s : Bytes)
    → Lacks space token
    → cut parc s ≡ none
    → cut parc (token ++ s) ≡ none
unfolding cut push
cut-token_none parc [] s h e = e
cut-token_none parc (c ∷ token) s h e = rw (h.0, cut-token_none parc token s h.1 e)

is_last-token :
    (token s : Bytes) → is_last token ≡ false → is_last s ≡ false → is_last (token ++ s) ≡ false
is_last-token [] s h e = e
is_last-token (c ∷ token) s h e = h

is_last-spaced :
    (tokens : List Bytes) (tail : Bytes)
    → is_last tail ≡ false
    → is_last (spaced tokens tail) ≡ false
is_last-spaced [] tail h = h
is_last-spaced (token ∷ tokens) tail h = refl

cut-spaced :
    (parc : ℕ) (tokens : List Bytes) (last : Bytes)
    → parc + length tokens ≤ 16
    → All IsToken tokens
    → cut parc (spaced tokens (space ∷ colon ∷ last)) ≡ some ([], tokens ++ last ∷ [])
unfolding cut store
cut-spaced parc [] last few h =
    let room : ltb parc 17 ≡ true = ground arith in
    let inside : ltb 17 parc ≡ false = ground arith in rw (inside, room)
cut-spaced parc (token ∷ tokens) last few h =
    let room : ltb parc 17 ≡ true = ground arith in
    let inside : ltb 17 parc ≡ false = ground arith in
    let tail = space ∷ colon ∷ last in
    let behind_it = cut-spaced (parc + 1) tokens last (omega arith) h.1 in
    rw (
      inside,
      room,
      is_last-token token (spaced tokens tail) h.0.1 (is_last-spaced tokens tail refl),
      cut-token (parc + 1) token (spaced tokens tail) [] (tokens ++ last ∷ []) h.0.0 behind_it,
      append-nil,
    )

cut-overrun :
    (parc : ℕ) (tokens : List Bytes) (tail : Bytes)
    → parc ≤ 17
    → 18 ≤ parc + length tokens
    → All IsToken tokens
    → is_last tail ≡ false
    → cut parc (spaced tokens tail) ≡ none
unfolding cut store
cut-overrun parc [] tail le many h e = absurd (omega arith)
cut-overrun parc (token ∷ tokens) tail le many h e = elim (Bool-cases (ltb parc 17)) [
  | inr full ↦ let inside : ltb 17 parc ≡ false = ground arith in rw (inside, full)
  | inl room ↦
      let inside : ltb 17 parc ≡ false = ground arith in
      let later = cut-overrun (parc + 1) tokens tail (ground arith) (omega arith) h.1 e in
      rw (
        inside,
        room,
        is_last-token token (spaced tokens tail) h.0.1 (is_last-spaced tokens tail e),
        cut-token_none (parc + 1) token (spaced tokens tail) h.0.0 later,
      )
]

-- A line of a source, at most 15 tokens and a last string behind ` :` is cut into just these. The
-- tokens have no space and do not begin with a colon, and the source has no space.
pub irc_parse-line :
    (server source : Bytes) (tokens : List Bytes) (last : Bytes)
    → length tokens ≤ 15
    → Lacks space source
    → All IsToken tokens
    → irc_parse server (colon ∷ (source ++ spaced tokens (space ∷ colon ∷ last)))
      ≡ parsed (record { source = source; params = tokens ++ last ∷ [] })
unfolding irc_parse with_source
irc_parse-line server source tokens last few s h = rw (
  cut-token 1 source (spaced tokens (space ∷ colon ∷ last)) [] (tokens ++ last ∷ []) s
      (cut-spaced 1 tokens last (omega arith) h),
  append-nil,
)

-- A line of a source and 17 or more tokens, whatever follows them, is stored beyond the array `parv`.
pub irc_parse-overrun :
    (server source : Bytes) (tokens : List Bytes) (tail : Bytes)
    → 17 ≤ length tokens
    → Lacks space source
    → All IsToken tokens
    → is_last tail ≡ false
    → irc_parse server (colon ∷ (source ++ spaced tokens tail)) ≡ overrun
unfolding irc_parse with_source
irc_parse-overrun server source tokens tail many s h e = rw (
    cut-token_none 1 source (spaced tokens tail) s
      (cut-overrun 1 tokens tail (omega arith) (omega arith) h e))
