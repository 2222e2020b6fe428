-- ===== src/Irc/Slices.antt =====
-- How `m_notice` of src/irc.c takes the fields out of a text, by the offsets of regexec().
use bopm.Prelude.{ℕ, zero, suc, ◌+◌, Option, none, some, List, [], ◌∷◌, ◌==◌, if◌then◌else◌, Bytes}

-- `pmatch` of regexec(): where the parts of the expression begin and end; `none` is an `rm_so` of -1.
abbrev pub RegMatches : Type 0
RegMatches = ℕ → Option (ℕ × ℕ)

-- A NUL is stored at an offset of a string, which may be the place of its own.
unfoldable pub store_nul : ℕ → Bytes → Bytes
store_nul n [] = []
store_nul zero (c ∷ s) = 0 ∷ s
store_nul (suc n) (c ∷ s) = c ∷ store_nul n s

-- What is read up to the first NUL.
unfoldable pub c_string : Bytes → Bytes
c_string [] = []
c_string (c ∷ s) = if c == 0 then [] else c ∷ c_string s

abbrev pub and_offset : ℕ → Option (List ℕ × Bytes) → Option (List ℕ × Bytes)
and_offset so none = none
and_offset so (some (offsets, text)) = some (so ∷ offsets, text)

-- `count` rounds of the loop of `m_notice` from `i` on: where the elements of `user` begin, and the
-- text with its NULs. `none` is a part that did not match, with offsets of -1.
unfoldable pub slices : (count : ℕ) → RegMatches → (i : ℕ) → Bytes → Option (List ℕ × Bytes)
unfolding store_nul
slices zero pmatch i text = some ([], text)
slices (suc count) pmatch i text = elim (pmatch (i + 1)) [
  | none ↦ none
  | some (so, eo) ↦ and_offset so (slices count pmatch (i + 1) (store_nul eo text))
]
