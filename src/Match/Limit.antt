-- ===== src/Match/Limit.antt =====
-- What the limit of 512 calls does to a long name.
use bopm.Prelude.{ℕ, zero, suc, ◌≤◌, ◌≡◌, refl, false, [], ◌∷◌, arith, ◌==◌, Bytes, length, All}
use bopm.Match.{
  returned, unset, retry, compare_bytes, test_ends, round, loop, match, match_max_calls,
  starts_with_star,
}
use bopm.Match.Spec.{star}

abbrev pub Plain : Bytes → Type 0
Plain = All (λ c. (c == star) ≡ false)

round-plain :
    (k c : ℕ) (before rest : Bytes)
    → (c == star) ≡ false
    → round (loop k) before (c ∷ rest) (c ∷ rest) unset ≡ loop k (c ∷ before) rest rest unset
unfolding round test_ends compare_bytes retry starts_with_star
round-plain k c before rest h = ground arith

loop-too_long :
    (k : ℕ) (before rest : Bytes)
    → Plain rest
    → k ≤ length rest
    → loop k before rest rest unset ≡ returned false
unfolding loop
loop-too_long zero before rest p h = refl
loop-too_long (suc k) before [] p h = absurd (omega arith)
loop-too_long (suc k) before (c ∷ rest) p h =
    rw (round-plain k c before rest p.0) (loop-too_long k (c ∷ before) rest p.1 (omega arith))

-- A mask with no `*` does not match the same text as a name where that has 512 bytes or more:
-- the calls run out on the last byte.
pub match-too_long :
    (mask : Bytes) → Plain mask → 512 ≤ length mask → match mask mask ≡ returned false
unfolding match
match-too_long mask p h = loop-too_long match_max_calls [] mask p h
