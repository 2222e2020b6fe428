-- ===== src/Negcache/Bits.antt =====
-- The bits of a number tell it from every other.
use bopm.Prelude.{
  ℕ, zero, suc, ◌+◌, ◌/◌, ◌%◌, ◌^◌, ◌≤◌, ◌<◌, ◌≡◌, refl, sym, ◌∙◌, Bool, true, false, not, Option,
  none, some, arith, ltb, ◌==◌, inl, inr, Bool-cases,
}
use mathlib.Core.Bool.{false≢true}
use bopm.Negcache.{bit, getbit, same_bit, first_difference}

pub bits_ext : (n x y : ℕ) → x < 2 ^ n → y < 2 ^ n → ((j : ℕ) → j < n → bit x j ≡ bit y j) → x ≡ y
unfolding bit
bits_ext zero x y hx hy h = omega arith
bits_ext (suc n) x y hx hy h =
    let halves : x / 2 ≡ y / 2 =
      bits_ext n (x / 2) (y / 2) (omega arith) (omega arith) (λ j lt. h (suc j) (omega arith)) in
    let low : (x % 2 == 1) ≡ (y % 2 == 1) = h 0 (omega arith) in ground arith

-- The machine gives 0 for the bit behind the last one.
abbrev pub zero_shift : ℕ → Bool
zero_shift _ = false

pub getbit-bit : (shift : ℕ → Bool) (x k : ℕ) → k < 64 → getbit shift x k ≡ bit x k
unfolding getbit
getbit-bit shift x k h = ground arith

-- Two numbers agree in the bits from `i` up to 63.
abbrev pub AgreeFrom : ℕ → ℕ → ℕ → Type 0
AgreeFrom i x y = (j : ℕ) → i ≤ j → j < 64 → bit x j ≡ bit y j

-- The highest bit in which they differ.
abbrev pub FirstDifference : ℕ → ℕ → ℕ → Type 0
FirstDifference x y i = (i < 64) × (bit x i ≡ not (bit y i)) × AgreeFrom (i + 1) x y

same_bit-true : (a b : Bool) → same_bit a b ≡ true → a ≡ b
same_bit-true true b h = sym h
same_bit-true false b h = ground arith

same_bit-false : (a b : Bool) → same_bit a b ≡ false → a ≡ not b
same_bit-false true b h = ground arith
same_bit-false false b h = ground arith

AgreeFrom-down :
    (i x y : ℕ) → (i < 64 → bit x i ≡ bit y i) → AgreeFrom (i + 1) x y → AgreeFrom i x y
AgreeFrom-down i x y h above j le lt = elim (Bool-cases (j == i)) [
  | inl same ↦ let e : j ≡ i = ground arith in rw e (h (omega arith))
  | inr other ↦ above j (ground arith) lt
]

same_at :
    (k x y : ℕ)
    → same_bit (getbit zero_shift x k) (getbit zero_shift y k) ≡ true
    → k < 64
    → bit x k ≡ bit y k
same_at k x y h lt =
    sym (getbit-bit zero_shift x k lt)
    ∙ (same_bit-true (getbit zero_shift x k) (getbit zero_shift y k) h
        ∙ getbit-bit zero_shift y k lt)

differ_at :
    (k x y : ℕ)
    → same_bit (getbit zero_shift x k) (getbit zero_shift y k) ≡ false
    → k ≤ 64
    → (k < 64) × (bit x k ≡ not (bit y k))
unfolding getbit
differ_at k x y h le = elim (Bool-cases (ltb k 64)) [
  | inl lt ↦ (ground arith, same_bit-false (bit x k) (bit y k) (rw lt at h))
  | inr past ↦ absurd (false≢true (sym (rw past at h)))
]

Found : (x y : ℕ) → Option ℕ → Type 0
Found x y none = ⊥
Found x y (some i) = FirstDifference x y i

first_difference-Found :
    (k x y : ℕ)
    → k ≤ 64
    → x < 2 ^ 64
    → y < 2 ^ 64
    → (x ≡ y → ⊥)
    → AgreeFrom (k + 1) x y
    → Found x y (first_difference zero_shift k x y)
unfolding first_difference Found
first_difference-Found zero x y le hx hy ne above =
    elim (Bool-cases (same_bit (getbit zero_shift x 0) (getbit zero_shift y 0))) [
      | inl same ↦ absurd (
          ne (
            bits_ext 64 x y hx hy
              (λ j lt. AgreeFrom-down 0 x y (same_at 0 x y same) above j (omega arith) lt)))
      | inr other ↦ let d = differ_at 0 x y other le in rw other (d.0, d.1, above)
    ]
first_difference-Found (suc k) x y le hx hy ne above =
    elim (Bool-cases (same_bit (getbit zero_shift x (suc k)) (getbit zero_shift y (suc k)))) [
      | inl same ↦ rw same (
          first_difference-Found k x y (omega arith) hx hy ne (λ j le' lt.
            AgreeFrom-down (suc k) x y (same_at (suc k) x y same) above j (omega arith) lt))
      | inr other ↦ let d = differ_at (suc k) x y other le in rw other (d.0, d.1, above)
    ]

found : (x y : ℕ) (o : Option ℕ) → Found x y o → (i : ℕ) × (o ≡ some i) × FirstDifference x y i
unfolding Found
found x y none f = absurd f
found x y (some i) f = (i, refl, f)

-- The loop of `nc_insert` over the bits ends at the highest in which two addresses differ, where a
-- shift by 64 gives 0.
pub first_difference_lem :
    (x y : ℕ)
    → x < 2 ^ 64
    → y < 2 ^ 64
    → (x ≡ y → ⊥)
    → (i : ℕ) × (first_difference zero_shift 64 x y ≡ some i) × FirstDifference x y i
first_difference_lem x y hx hy ne =
    found x y (first_difference zero_shift 64 x y)
      (first_difference-Found 64 x y (omega arith) hx hy ne (λ j le lt. absurd (omega arith)))
