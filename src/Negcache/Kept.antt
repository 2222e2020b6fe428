-- ===== src/Negcache/Kept.antt =====
-- The nodes that `nc_rebuild` keeps, as times of addresses.
use bopm.Prelude.{
  ℕ, ◌+◌, ◌^◌, ◌<◌, ◌≡◌, refl, sym, ap, ◌∙◌, true, false, Option, none, some, List, [], ◌∷◌, arith,
  ltb, ◌==◌, ==_of_ne, if◌then◌else◌, inl, inr, Bool-cases, All,
}
use mathlib.Core.Bool.{false≢true}
use bopm.Negcache.{Ptr, Cnode, Cache, negcache_insert, keep_node, and_keep}
use bopm.Negcache.Bits.{zero_shift}
use bopm.Negcache.Forks.{has_ptr}
use bopm.Negcache.Times.{Implements, put, negcache_insert-Implements}
use bopm.Negcache.Visit.{keep_all}

module _ (negcache now : ℕ) (old : Cache) where
  -- The time of a node that is kept.
  abbrev kept : Cnode → Option ℕ
  kept n = if ltb now (n.seen + negcache) then some n.seen else none

  abbrev keep_put : Cnode → (ℕ → Option ℕ) → ℕ → Option ℕ
  keep_put n m = if ltb now (n.seen + negcache) then put n.ip n.seen m else m

  unfoldable pub put_kept : List Ptr → (ℕ → Option ℕ) → ℕ → Option ℕ
  put_kept [] m = m
  put_kept (x ∷ xs) m = put_kept xs (keep_put (old.node x) m)

  keep_node-Implements :
      (n : Cnode) {new : Cache} {m : ℕ → Option ℕ}
      → n.ip < 2 ^ 64
      → Implements new m
      → (new' : Cache) × (keep_node zero_shift negcache now new n ≡ some new')
        × Implements new' (keep_put n m)
  unfolding keep_node negcache_insert
  keep_node-Implements n {new} {m} small h = elim (Bool-cases (ltb now (n.seen + negcache))) [
    | inl young ↦
        let (new', e, h') = negcache_insert-Implements h n.ip n.seen small in rw young (new', e, h')
    | inr old ↦ rw old (new, refl, h)
  ]

  pub keep_all-Implements :
      (xs : List Ptr) {new : Cache} {m : ℕ → Option ℕ}
      → All (λ x. (old.node x).ip < 2 ^ 64) xs
      → Implements new m
      → (new' : Cache) × (keep_all negcache now old xs new ≡ some new')
        × Implements new' (put_kept xs m)
  unfolding keep_all put_kept
  keep_all-Implements [] {new} a h = (new, refl, h)
  keep_all-Implements (x ∷ xs) {new} a h =
      let (c₁, e₁, h₁) = keep_node-Implements (old.node x) a.0 h in
      let (c₂, e₂, h₂) = keep_all-Implements xs a.1 h₁ in
      (c₂, ap (λ o. and_keep o (keep_all negcache now old xs)) e₁ ∙ e₂, h₂)

  keep_put-other : (n : Cnode) (m : ℕ → Option ℕ) (q : ℕ) → (n.ip ≡ q → ⊥) → keep_put n m q ≡ m q
  keep_put-other n m q ne = elim (Bool-cases (ltb now (n.seen + negcache))) [
    | inl young ↦ let other = ==_of_ne q n.ip (λ e. ne (sym e)) in rw (young, other)
    | inr old ↦ rw old
  ]

  -- An address that no node has keeps its value.
  pub put_kept-other :
      (xs : List Ptr) (m : ℕ → Option ℕ) (q : ℕ)
      → All (λ x. (old.node x).ip ≡ q → ⊥) xs
      → put_kept xs m q ≡ m q
  unfolding put_kept
  put_kept-other [] m q a = refl
  put_kept-other (x ∷ xs) m q a =
      put_kept-other xs (keep_put (old.node x) m) q a.1 ∙ keep_put-other (old.node x) m q a.0

  module _ (q : ℕ) (x₀ : Ptr) (at : (old.node x₀).ip ≡ q) where
    keep_put-here :
        (m : ℕ → Option ℕ) → m q ≡ none → keep_put (old.node x₀) m q ≡ kept (old.node x₀)
    keep_put-here m gone = elim (Bool-cases (ltb now ((old.node x₀).seen + negcache))) [
      | inl young ↦ rw (young, at) (ground arith)
      | inr old ↦ rw old gone
    ]

    keep_put-again :
        (m : ℕ → Option ℕ)
        → m q ≡ kept (old.node x₀)
        → keep_put (old.node x₀) m q ≡ kept (old.node x₀)
    keep_put-again m same = elim (Bool-cases (ltb now ((old.node x₀).seen + negcache))) [
      | inl young ↦ rw (young, at) (ground arith)
      | inr old ↦ rw old (same ∙ rw old refl)
    ]

    -- Where no other node has the address.
    keep_put-stays :
        (x : Ptr) (m : ℕ → Option ℕ)
        → ((old.node x).ip ≡ q → x ≡ x₀)
        → m q ≡ kept (old.node x₀)
        → keep_put (old.node x) m q ≡ kept (old.node x₀)
    keep_put-stays x m only same = elim (Bool-cases (x == x₀)) [
      | inl here ↦
          let e : x ≡ x₀ = ground arith in
          ap (λ p. keep_put (old.node p) m q) e ∙ keep_put-again m same
      | inr other ↦ keep_put-other (old.node x) m q (λ e. not_here other (only e)) ∙ same
    ]
      where
        not_here : (x == x₀) ≡ false → x ≡ x₀ → ⊥
        not_here other e = false≢true (sym other ∙ ground arith)

    put_kept-stays :
        (xs : List Ptr) (m : ℕ → Option ℕ)
        → All (λ x. (old.node x).ip ≡ q → x ≡ x₀) xs
        → m q ≡ kept (old.node x₀)
        → put_kept xs m q ≡ kept (old.node x₀)
    unfolding put_kept
    put_kept-stays [] m only same = same
    put_kept-stays (x ∷ xs) m only same =
        put_kept-stays xs (keep_put (old.node x) m) only.1 (keep_put-stays x m only.0 same)

    pub put_kept-here :
        (xs : List Ptr) (m : ℕ → Option ℕ)
        → All (λ x. (old.node x).ip ≡ q → x ≡ x₀) xs
        → m q ≡ none
        → has_ptr x₀ xs ≡ true
        → put_kept xs m q ≡ kept (old.node x₀)
    unfolding put_kept
    put_kept-here [] m only gone h = absurd (false≢true h)
    put_kept-here (x ∷ xs) m only gone h = elim (Bool-cases (x == x₀)) [
      | inl here ↦
          let e : x ≡ x₀ = ground arith in
          put_kept-stays xs (keep_put (old.node x) m) only.1
            (ap (λ p. keep_put (old.node p) m q) e ∙ keep_put-here m gone)
      | inr other ↦
          let ne : (x ≡ x₀ → ⊥) = λ e. false≢true (sym other ∙ ground arith) in
          put_kept-here xs (keep_put (old.node x) m) only.1
            (keep_put-other (old.node x) m q (λ e. ne (only.0 e)) ∙ gone) (rw other at h)
    ]
