-- ===== src/Irc/Offsets.antt =====
-- Fields of a string that a NUL is stored behind, as `m_notice` does it.
use bopm.Prelude.{
  ℕ, suc, ◌+◌, ◌≡◌, refl, sym, ap, ap₂, ◌∙◌, [], ◌∷◌, ◌++◌, arith, Bytes, length, length-append,
  drop, Lacks,
}
use mathlib.Core.List.{append_assoc}
use bopm.Irc.Slices.{store_nul, c_string}

abbrev pub nul_first : Bytes → Bytes
nul_first [] = []
nul_first (c ∷ s) = 0 ∷ s

store_nul-append : (p s : Bytes) → store_nul (length p) (p ++ s) ≡ p ++ nul_first s
unfolding store_nul
store_nul-append [] [] = refl
store_nul-append [] (c ∷ s) = refl
store_nul-append (x ∷ p) s = ap (λ t. x ∷ t) (store_nul-append p s)

-- The NUL behind a field.
pub store_nul-field :
    (n : ℕ) (p f s : Bytes)
    → n ≡ length p + length f
    → store_nul n (p ++ (f ++ s)) ≡ p ++ (f ++ nul_first s)
store_nul-field n p f s e =
    ap₂ store_nul (e ∙ sym (length-append p f)) (sym (append_assoc p f s))
    ∙ (store_nul-append (p ++ f) s ∙ append_assoc p f (nul_first s))

drop-append : (p s : Bytes) → drop (length p) (p ++ s) ≡ s
drop-append [] s = refl
drop-append (x ∷ p) s = drop-append p s

c_string-append : (f s : Bytes) → Lacks 0 f → c_string (f ++ nul_first s) ≡ f
unfolding c_string
c_string-append [] [] h = refl
c_string-append [] (c ∷ s) h = refl
c_string-append (x ∷ f) s h = rw (h.0, c_string-append f s h.1)

pub c_string-field :
    (n : ℕ) (p f s : Bytes)
    → n ≡ length p
    → Lacks 0 f
    → c_string (drop n (p ++ (f ++ nul_first s))) ≡ f
c_string-field n p f s e h =
    ap (λ m. c_string (drop m (p ++ (f ++ nul_first s)))) e
    ∙ (ap c_string (drop-append p (f ++ nul_first s)) ∙ c_string-append f s h)

pub regroup :
    (p f : Bytes) (x : ℕ) (g r : Bytes) → p ++ (f ++ x ∷ (g ++ r)) ≡ (p ++ (f ++ x ∷ g)) ++ r
regroup p f x g r =
    ap (λ t. p ++ t) (sym (append_assoc f (x ∷ g) r)) ∙ sym (append_assoc p (f ++ x ∷ g) r)

pub length-group :
    (p f : Bytes) (x : ℕ) (g : Bytes)
    → length (p ++ (f ++ x ∷ g)) ≡ length p + length f + suc (length g)
length-group p f x g = omega (arith, length-append p (f ++ x ∷ g), length-append f (x ∷ g))
