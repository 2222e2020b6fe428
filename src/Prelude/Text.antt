-- ===== src/Prelude/Text.antt =====
-- C strings as the list of their bytes, without the closing NUL, and the calls of <string.h> that
-- the program makes on them, with the behaviour that the C standard gives them in the C locale.
use Prim.Native.Char.{code}
use Prim.Native.String.{String}
use Prim.Native.Nat.{ℕ, zero, suc, ◌+◌, ◌/◌, ◌%◌}
use mathlib.Core.List.{List, [], ◌∷◌}
use mathlib.Core.Bool.{Bool, true, false, ◌&&◌}
use mathlib.Core.Option.{Option, none, some}
use bopm.Prelude.Tests.{ltb, leb, ◌==◌, if◌then◌else◌}

abbrev pub Bytes : Type 0
Bytes = List ℕ

-- The bytes of an ASCII text.
abbrev pub codes : String → Bytes
codes String.[] = []
codes (String.◌∷◌ c s) = code c ∷ codes s

abbrev pub space : ℕ
space = 32

-- `strcmp (a, b) == 0`
unfoldable pub str_eq : Bytes → Bytes → Bool
str_eq [] [] = true
str_eq [] (_ ∷ _) = false
str_eq (_ ∷ _) [] = false
str_eq (a ∷ s) (b ∷ t) = (a == b) && str_eq s t

-- `tolower` of <ctype.h> in the C locale.
abbrev pub lower_ascii : ℕ → ℕ
lower_ascii c = if leb 65 c && leb c 90 then c + 32 else c

-- `strcasecmp (a, b) == 0`
unfoldable pub str_case_eq : Bytes → Bytes → Bool
str_case_eq [] [] = true
str_case_eq [] (_ ∷ _) = false
str_case_eq (_ ∷ _) [] = false
str_case_eq (a ∷ s) (b ∷ t) = (lower_ascii a == lower_ascii b) && str_case_eq s t

-- `strchr (s, c)`: what stands before the first `c`, and what stands behind it.
unfoldable pub split_at : ℕ → Bytes → Option (Bytes × Bytes)
split_at c [] = none
split_at c (a ∷ s) =
    if a == c
    then some ([], s)
    else elim (split_at c s) [ none ↦ none | some (before, after) ↦ some (a ∷ before, after) ]

-- `%d` and `%u` of a number that is not negative: its decimal digits, the fuel being its size.
decimal_digits : ℕ → ℕ → Bytes → Bytes
decimal_digits zero n acc = acc
decimal_digits (suc fuel) n acc =
    let more = decimal_digits fuel (n / 10) ((48 + n % 10) ∷ acc) in
    if ltb n 10 then (48 + n) ∷ acc else more

unfoldable pub decimal : ℕ → Bytes
unfolding decimal_digits
decimal n = decimal_digits (suc n) n []

-- `%02d` of a number that is not negative.
unfoldable pub decimal_02 : ℕ → Bytes
decimal_02 n = if ltb n 10 then 48 ∷ decimal n else decimal n
