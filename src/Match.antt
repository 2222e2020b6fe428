-- ===== src/Match.antt =====
-- src/match.c: `match`, which compares a name with a mask of `*` and `?`, and `collapse`.
pub mod Table
pub mod Spec
pub mod Places
pub mod Decides
pub mod Limit
pub mod Collapse
mod Samples
use bopm.Prelude.{
  ℕ, zero, suc, Bool, true, false, not, ◌&&◌, Option, none, some, [], ◌∷◌, ◌==◌, if◌then◌else◌,
  Bytes,
}
use Table.{to_lower}
use Spec.{star, any_byte}

-- What a call comes to. `overrun` is an access outside the two strings.
pub data Outcome : Type 0 where
  returned : Bool → Outcome
  overrun : Outcome

-- `wild`, `ma` and `na`: the last two are read only once `wild` is set. A place in the mask is
-- given by the bytes before it, the nearest first, and the bytes from it on.
pub data Saved : Type 0 where
  unset : Saved
  wild : (before rest na : Bytes) → Saved

-- The loop from the place `m` in the mask (in two parts) and `n` in the name.
abbrev pub Round : Type 0
Round = (before rest n : Bytes) → Saved → Outcome

-- `while (*m == '*') m++;`
unfoldable pub skip_stars : Bytes → Bytes → Bytes × Bytes
skip_stars before [] = (before, [])
skip_stars before (c ∷ rest) =
    if c == star then skip_stars (c ∷ before) rest else (before, c ∷ rest)

-- At the end of the mask: step back over `?`, then test for a `*` that is not the first byte.
-- `none` is the read of `mask[-1]` in an empty mask.
unfoldable pub trailing_star : Bytes → Option Bool
trailing_star [] = none
trailing_star (c ∷ []) = some false
trailing_star (c ∷ d ∷ before) =
    if c == any_byte then trailing_star (d ∷ before) else some (c == star)

unfoldable pub starts_with_star : Bytes → Bool
starts_with_star [] = false
starts_with_star (c ∷ _) = c == star

unfoldable pub is_nil : Bytes → Bool
is_nil [] = true
is_nil (_ ∷ _) = false

-- `if (!wild) return 0; m = ma; n = ++na;`
unfoldable pub retry : Saved → Round → Outcome
retry unset next = returned false
retry (wild before rest []) next = overrun
retry (wild before rest (_ ∷ na)) next = next before rest na (wild before rest na)

-- The comparison at the end of the loop's body. The NUL that ends a string differs from its bytes.
unfoldable pub compare_bytes : Round → Round
compare_bytes next before [] [] saved = next before [] [] saved
compare_bytes next before [] (x ∷ n) saved = retry saved next
compare_bytes next before (c ∷ rest) [] saved =
    if c == any_byte then next (c ∷ before) rest [] saved else retry saved next
compare_bytes next before (c ∷ rest) (x ∷ n) saved =
    if not (to_lower c == to_lower x) && not (c == any_byte)
    then retry saved next
    else next (c ∷ before) rest n saved

-- `if ((*m == '*') && (m > mask)) return 1;`
unfoldable pub past_mask : Option Bool → Outcome → Outcome
past_mask none go_back = overrun
past_mask (some true) go_back = returned true
past_mask (some false) go_back = go_back

-- The two tests for the end of a string, then the comparison.
unfoldable pub test_ends : Round → Round
test_ends next before [] [] saved = returned true
test_ends next before [] (x ∷ n) saved =
    past_mask (trailing_star before) (retry saved (compare_bytes next))
test_ends next before (c ∷ rest) [] saved = returned (is_nil (skip_stars before (c ∷ rest)).1)
test_ends next before (c ∷ rest) (x ∷ n) saved = compare_bytes next before (c ∷ rest) (x ∷ n) saved

-- One round: a `*` is skipped and remembered first.
unfoldable pub round : Round → Round
round next before rest n saved =
    let (b, r) = skip_stars before rest in
    if starts_with_star rest
    then test_ends next b r n (wild b r n)
    else test_ends next before rest n saved

-- `while (calls++ < limit)`; past the limit the answer is 0.
unfoldable pub loop : ℕ → Round
loop zero before rest n saved = returned false
loop (suc calls) before rest n saved = round (loop calls) before rest n saved

abbrev pub match_max_calls : ℕ
match_max_calls = 512

unfoldable pub match : Bytes → Bytes → Outcome
unfolding loop round test_ends past_mask compare_bytes retry is_nil starts_with_star trailing_star
    skip_stars to_lower
match mask name = loop match_max_calls [] mask name unset
