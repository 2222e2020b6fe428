-- ===== src/LinkedList/Foreach.antt =====
-- The loops over a list visit its nodes in order, or in the opposite order.
use bopm.Prelude.{
  ℕ, zero, suc, ◌+◌, ◌≤◌, ◌≡◌, refl, ap, ◌∙◌, Option, none, some, List, [], ◌∷◌, arith, length,
}
use bopm.LinkedList.{Ptr, Node, foreach, foreach_prev}
use bopm.LinkedList.Segment.{first, last, Segment}

-- `xs` backwards, in front of `ps`.
abbrev pub rev_append : List Ptr → List Ptr → List Ptr
rev_append [] ps = ps
rev_append (x ∷ xs) ps = rev_append xs (x ∷ ps)

pub foreach-Segment :
    (fuel : ℕ) (node : Ptr → Node) (p : Option Ptr) (xs : List Ptr)
    → length xs ≤ fuel
    → Segment node p xs none
    → foreach fuel node (first xs none) ≡ some xs
unfolding foreach
foreach-Segment zero node p [] le h = refl
foreach-Segment (suc fuel) node p [] le h = refl
foreach-Segment zero node p (x ∷ xs) le h = absurd (omega (arith, le))
foreach-Segment (suc fuel) node p (x ∷ xs) le h =
    let rest = foreach-Segment fuel node (some x) xs (omega (arith, le)) h.2 in rw (h.1, rest)

pub foreach_prev-Segment :
    (xs : List Ptr) (fuel : ℕ) (node : Ptr → Node) (p q : Option Ptr) (ps : List Ptr)
    → foreach_prev fuel node p ≡ some ps
    → Segment node p xs q
    → foreach_prev (length xs + fuel) node (last p xs) ≡ some (rev_append xs ps)
unfolding foreach_prev
foreach_prev-Segment [] fuel node p q ps e h =
    ap (λ n. foreach_prev n node p) (let z : 0 + fuel ≡ fuel = omega arith in z) ∙ e
foreach_prev-Segment (x ∷ xs) fuel node p q ps e h =
    let step : foreach_prev (suc fuel) node (some x) ≡ some (x ∷ ps) = rw (h.0, e) in
    ap (λ n. foreach_prev n node (last (some x) xs))
      (let z : suc (length xs) + fuel ≡ length xs + suc fuel = omega arith in z)
    ∙ foreach_prev-Segment xs (suc fuel) node (some x) q (x ∷ ps) step h.2
