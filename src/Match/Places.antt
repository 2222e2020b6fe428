-- ===== src/Match/Places.antt =====
-- Facts about the helpers of `match` that move its place in the mask.
use bopm.Prelude.{
  ℕ, ◌+◌, ◌<◌, ◌≡◌, refl, ◌↔◌, inl, inr, true, false, none, some, [], ◌∷◌, arith, ◌==◌, Bool-cases,
  Bytes, length,
}
use bopm.Match.{skip_stars, starts_with_star, trailing_star, is_nil}
use bopm.Match.Spec.{star, any_byte, Matches, leave, star-star}

pub skip_stars-length :
    (before rest : Bytes)
    → length (skip_stars before rest).0 + length (skip_stars before rest).1
      ≡ length before + length rest
unfolding skip_stars
skip_stars-length before [] = refl
skip_stars-length before (c ∷ rest) = ground (arith, skip_stars-length (c ∷ before) rest)

pub skip_stars-le : (before rest : Bytes) → length (skip_stars before rest).1 < length rest + 1
unfolding skip_stars
skip_stars-le before [] = omega arith
skip_stars-le before (c ∷ rest) = ground (arith, skip_stars-le (c ∷ before) rest)

pub skip_stars-lt :
    (before rest : Bytes)
    → starts_with_star rest ≡ true
    → length (skip_stars before rest).1 < length rest
unfolding skip_stars starts_with_star
skip_stars-lt before [] h = absurd (ground arith)
skip_stars-lt before (c ∷ rest) h = ground (arith, skip_stars-le (c ∷ before) rest)

pub skip_stars-stops : (before rest : Bytes) → starts_with_star (skip_stars before rest).1 ≡ false
unfolding skip_stars starts_with_star
skip_stars-stops before [] = refl
skip_stars-stops before (c ∷ rest) = ground (arith, skip_stars-stops (c ∷ before) rest)

-- A run of stars is as good as one.
pub skip_stars-Matches :
    (before rest : Bytes) {s : Bytes}
    → Matches (star ∷ (skip_stars before rest).1) s ↔ Matches (star ∷ rest) s
unfolding skip_stars
skip_stars-Matches before [] = (λ d. d, λ d. d)
skip_stars-Matches before (c ∷ rest) {s} = elim (Bool-cases (c == star)) [
  | inr other ↦ rw other (λ d. d, λ d. d)
  | inl same ↦ rw same (
      let e : c ≡ star = ground arith in
      let ih = skip_stars-Matches (c ∷ before) rest {s = s} in
      (λ d. leave (omega arith) (rw e (ih.0 d)), λ d. ih.1 (rw e at (star-star e d))))
]

pub star-rest :
    (rest : Bytes) {s : Bytes}
    → starts_with_star rest ≡ true
    → Matches (star ∷ rest) s
    → Matches rest s
unfolding starts_with_star
star-rest [] h d = absurd (ground arith)
star-rest (c ∷ rest) h d = star-star (ground arith) d

-- In front of a byte that is no star nothing is skipped.
pub skip_stars-none :
    (before rest : Bytes) (c : ℕ)
    → (c == star) ≡ false
    → is_nil (skip_stars before (c ∷ rest)).1 ≡ false
unfolding skip_stars is_nil
skip_stars-none before rest c h = ground arith

pub trailing_star-any_byte :
    (before : Bytes) (c : ℕ)
    → trailing_star (c ∷ before) ≡ some true
    → (c == star) ≡ false
    → (c ≡ any_byte) × (trailing_star before ≡ some true)
unfolding trailing_star
trailing_star-any_byte [] c h e = absurd (ground arith)
trailing_star-any_byte (d ∷ before) c h e = (ground arith, ground arith)

pub trailing_star-none : (before : Bytes) → trailing_star before ≡ none → length before ≡ 0
unfolding trailing_star
trailing_star-none [] h = refl
trailing_star-none (c ∷ []) h = absurd (ground arith)
trailing_star-none (c ∷ d ∷ before) h = ground (arith, trailing_star-none (d ∷ before))
