-- ===== src/Prelude/Split.antt =====
-- Laws of the string helpers of Text.
use Prim.Native.Nat.{ℕ}
use mathlib.Core.Path.{◌≡◌, refl}
use mathlib.Core.Bool.{true, false}
use mathlib.Core.List.{[], ◌∷◌, ◌++◌}
use mathlib.Core.Option.{none, some}
use native.Mathlib.Omega.{arith}
use bopm.Prelude.Tests.{◌==◌}
use bopm.Prelude.Lists.{All}
use bopm.Prelude.Text.{Bytes, split_at, str_eq}

-- The byte `c` does not stand in a text.
abbrev pub Lacks : ℕ → Bytes → Type 0
Lacks c = All (λ a. (a == c) ≡ false)

pub split_at-append :
    (c : ℕ) (before after : Bytes)
    → Lacks c before
    → split_at c (before ++ c ∷ after) ≡ some (before, after)
unfolding split_at
split_at-append c [] after h = ground arith
split_at-append c (a ∷ before) after h = ground (arith, split_at-append c before after)

pub split_at-Lacks : (c : ℕ) (s : Bytes) → Lacks c s → split_at c s ≡ none
unfolding split_at
split_at-Lacks c [] h = refl
split_at-Lacks c (a ∷ s) h = ground (arith, split_at-Lacks c s)

pub str_eq_self : (s : Bytes) → str_eq s s ≡ true
unfolding str_eq
str_eq_self [] = refl
str_eq_self (a ∷ s) = ground (arith, str_eq_self s)

pub eq_of_str_eq : (s t : Bytes) → str_eq s t ≡ true → s ≡ t
unfolding str_eq
eq_of_str_eq [] [] h = refl
eq_of_str_eq [] (b ∷ t) h = cc
eq_of_str_eq (a ∷ s) [] h = cc
eq_of_str_eq (a ∷ s) (b ∷ t) h = ground (arith, eq_of_str_eq s t)
