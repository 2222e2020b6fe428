-- ===== src/Match/Collapse.antt =====
-- `collapse` of match.c, which leaves one `*` of each run in a mask, in place.
use bopm.Prelude.{
  ℕ, zero, suc, ◌≤◌, ◌≡◌, ◌↔◌, inl, inr, true, false, [], ◌∷◌, arith, ◌==◌, if◌then◌else◌,
  Bool-cases, Bytes, length,
}
use bopm.Match.Spec.{star, Matches, byte, leave, take, star-star}

-- The bytes that the inner loops move down: those behind the run of `*` at `t`.
unfoldable pub drop_stars : Bytes → Bytes
drop_stars [] = []
drop_stars (c ∷ t) = if c == star then drop_stars t else c ∷ t

-- `for (; *s; s++)`: behind a `*` the rest of the pattern is moved down over the run.
collapse_from : ℕ → Bytes → Bytes
collapse_from zero s = s
collapse_from (suc fuel) [] = []
collapse_from (suc fuel) (c ∷ s) = c ∷ collapse_from fuel (if c == star then drop_stars s else s)

unfoldable pub collapse : Bytes → Bytes
unfolding collapse_from drop_stars
collapse pattern = collapse_from (length pattern) pattern

length-drop_stars-le : (s : Bytes) → length (drop_stars s) ≤ length s
unfolding drop_stars
length-drop_stars-le [] = omega arith
length-drop_stars-le (c ∷ s) = ground (arith, length-drop_stars-le s)

Matches-cons :
    {c : ℕ} {m m' : Bytes} (s : Bytes)
    → ((t : Bytes) → Matches m t → Matches m' t)
    → Matches (c ∷ m) s
    → Matches (c ∷ m') s
Matches-cons s h (byte f d) = byte f (h _ d)
Matches-cons s h (leave e d) = leave e (h _ d)
Matches-cons (x ∷ s) h (take e d) = take e (Matches-cons s h d)

drop_stars-Matches : (m s : Bytes) → Matches (star ∷ drop_stars m) s ↔ Matches (star ∷ m) s
unfolding drop_stars
drop_stars-Matches [] s = (λ d. d, λ d. d)
drop_stars-Matches (c ∷ m) s = elim (Bool-cases (c == star)) [
  | inr other ↦ rw other (λ d. d, λ d. d)
  | inl same ↦ rw same (
      let e : c ≡ star = ground arith in
      let ih = drop_stars-Matches m s in
      (λ d. leave (omega arith) (rw e (ih.0 d)), λ d. ih.1 (rw e at (star-star e d))))
]

collapse_from-Matches :
    (fuel : ℕ) (m s : Bytes) → length m ≤ fuel → Matches (collapse_from fuel m) s ↔ Matches m s
unfolding collapse_from
collapse_from-Matches zero m s h = (λ d. d, λ d. d)
collapse_from-Matches (suc fuel) [] s h = (λ d. d, λ d. d)
collapse_from-Matches (suc fuel) (c ∷ m) s h = elim (Bool-cases (c == star)) [
  | inr other ↦ rw other (
    Matches-cons s (λ t. (collapse_from-Matches fuel m t (omega arith)).0),
    Matches-cons s (λ t. (collapse_from-Matches fuel m t (omega arith)).1),
  )
  | inl same ↦ rw same (
      let e : c ≡ star = ground arith in
      let shorter : length (drop_stars m) ≤ fuel = omega (arith, length-drop_stars-le m) in
      let drop = drop_stars-Matches m s in
      (
        λ d. rw e (
            drop.0 (
              rw e at
                (Matches-cons s (λ t. (collapse_from-Matches fuel (drop_stars m) t shorter).0) d))),
        λ d.
            Matches-cons s (λ t. (collapse_from-Matches fuel (drop_stars m) t shorter).1)
              (rw e (drop.1 (rw e at d))),
      ))
]

-- A collapsed mask matches the same names as the mask.
pub collapse-Matches : (m s : Bytes) → Matches (collapse m) s ↔ Matches m s
unfolding collapse
collapse-Matches m s = collapse_from-Matches (length m) m s (omega arith)

-- No `*` has another right behind it.
abbrev pub NoRun : Bytes → Type 0
NoRun [] = Unit
NoRun (c ∷ []) = Unit
NoRun (c ∷ d ∷ m) = ((c == star) ≡ true → (d == star) ≡ false) × NoRun (d ∷ m)

abbrev NoStarFirst : Bytes → Type 0
NoStarFirst [] = Unit
NoStarFirst (c ∷ m) = (c == star) ≡ false

drop_stars-NoStarFirst : (s : Bytes) → NoStarFirst (drop_stars s)
unfolding drop_stars
drop_stars-NoStarFirst [] = tt
drop_stars-NoStarFirst (c ∷ s) = elim (Bool-cases (c == star)) [
  | inl same ↦ rw same (drop_stars-NoStarFirst s)
  | inr other ↦ rw other other
]

NoRun-cons :
    (fuel c : ℕ) (m : Bytes)
    → ((c == star) ≡ true → NoStarFirst m)
    → length m ≤ fuel
    → NoRun (collapse_from fuel m)
    → NoRun (c ∷ collapse_from fuel m)
unfolding collapse_from
NoRun-cons zero c [] h l r = tt
NoRun-cons zero c (d ∷ m) h l r = absurd (omega arith)
NoRun-cons (suc fuel) c [] h l r = tt
NoRun-cons (suc fuel) c (d ∷ m) h l r = (h, r)

collapse_from-NoRun : (fuel : ℕ) (m : Bytes) → length m ≤ fuel → NoRun (collapse_from fuel m)
unfolding collapse_from
collapse_from-NoRun zero [] h = tt
collapse_from-NoRun zero (c ∷ m) h = absurd (omega arith)
collapse_from-NoRun (suc fuel) [] h = tt
collapse_from-NoRun (suc fuel) (c ∷ m) h = elim (Bool-cases (c == star)) [
  | inr other ↦ rw other (
      NoRun-cons fuel c m (λ same. absurd (ground arith)) (omega arith)
        (collapse_from-NoRun fuel m (omega arith)))
  | inl same ↦ rw same (
      NoRun-cons fuel c (drop_stars m) (λ _. drop_stars-NoStarFirst m)
        (omega (arith, length-drop_stars-le m))
        (collapse_from-NoRun fuel (drop_stars m) (omega (arith, length-drop_stars-le m))))
]

-- A collapsed mask has no two `*` side by side.
pub collapse-NoRun : (m : Bytes) → NoRun (collapse m)
unfolding collapse
collapse-NoRun m = collapse_from-NoRun (length m) m (omega arith)
