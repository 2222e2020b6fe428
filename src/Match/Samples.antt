-- ===== src/Match/Samples.antt =====
-- Runs of `match` and `collapse`, and their theorems at concrete masks.
use bopm.Prelude.{
  ℕ, zero, suc, ◌+◌, ◌*◌, ◌≤◌, ◌≡◌, refl, ◌↔◌, true, false, [], ◌∷◌, arith, Bytes, codes, length,
}
use bopm.Prelude.{replicate}
use bopm.Match.{returned, overrun, unset, loop, match}
use bopm.Match.Spec.{Matches}
use bopm.Match.Decides.{Decides, loop-Decides-Matches, match_iff}
use bopm.Match.Limit.{Plain, match-too_long}
use bopm.Match.Collapse.{collapse, collapse-Matches}

abbrev mask : Bytes
mask = codes "*!*@*.NET"

abbrev name : Bytes
name = codes "x!y@a.net"

matches_suffix : match mask name ≡ returned true
unfolding match
matches_suffix = refl

no_match : match (codes "a?c") (codes "abd") ≡ returned false
unfolding match
no_match = refl

trailing : match (codes "a*??") (codes "axyz") ≡ returned true
unfolding match
trailing = refl

-- An empty mask and a name: the byte before the mask is read.
empty_mask : (x : ℕ) (n : Bytes) → match [] (x ∷ n) ≡ overrun
unfolding match
empty_mask x n = refl

loop-Decides-Matches_example :
    Decides
      (length name * (length mask + 1) + length mask + 2 ≤ 200)
      (Matches mask name)
      (loop 200 [] mask name unset)
loop-Decides-Matches_example = loop-Decides-Matches 200 mask name (omega arith)

match_iff_example : (match mask name ≡ returned true) ↔ Matches mask name
match_iff_example = match_iff mask name (omega arith) (omega arith)

Plain-replicate : (n : ℕ) → Plain (replicate n b'a')
Plain-replicate zero = tt
Plain-replicate (suc n) = (refl, Plain-replicate n)

match-too_long_example : match (replicate 512 b'a') (replicate 512 b'a') ≡ returned false
match-too_long_example = match-too_long (replicate 512 b'a') (Plain-replicate 512) (omega arith)

collapse_run : collapse (codes "a**b***") ≡ codes "a*b*"
unfolding collapse
collapse_run = refl

collapse-Matches_example :
    Matches (collapse (codes "a**b")) (codes "axb") ↔ Matches (codes "a**b") (codes "axb")
collapse-Matches_example = collapse-Matches (codes "a**b") (codes "axb")
