-- ===== src/Negcache/Apart.antt =====
-- Each node of a trie is one fork at most, also behind an insertion.
use bopm.Prelude.{ℕ, ◌<◌, ◌≡◌, arith, ltb, inl, inr, Bool-cases}
use bopm.Negcache.{Ptr, bit}
use bopm.Negcache.Trie.{
  Trie, link, fork, AllForks, AllPtrs, join, graft, AllForks-map, AllForks-map₂, AllForks-all,
  AllForks-graft, AllPtrs-forks,
}

-- `q` is none of the forks.
abbrev pub Apart : Ptr → Trie → Type 0
Apart q t = AllForks (λ y. q ≡ y → ⊥) t

-- Each node is one fork at most.
abbrev pub Distinct : Trie → Type 0
Distinct (link x k) = Unit
Distinct (fork x b l r) =
    Apart x l
    × Apart x r
    × AllForks (λ y. Apart y r) l
    × AllForks (λ y. Apart y l) r
    × Distinct l
    × Distinct r

pub new-Apart : (n : ℕ) (t : Trie) → AllPtrs (λ q. q < n) t → Apart n t
new-Apart n t f =
    AllForks-map (λ q. q < n) (λ q. n ≡ q → ⊥) (λ q lt e. absurd (omega (arith, e, lt))) t
      (AllPtrs-forks (λ q. q < n) t f)

Distinct-join :
    (ip i n : ℕ) (s : Trie) → AllPtrs (λ q. q < n) s → Distinct s → Distinct (join ip i n s)
Distinct-join ip i n s f d = elim (Bool-cases (bit ip i)) [
  | inl one ↦ rw one (new-Apart n s f, tt, AllForks-all (λ q. Unit) (λ q. tt) s, tt, d, tt)
  | inr off ↦ rw off (tt, new-Apart n s f, tt, AllForks-all (λ q. Unit) (λ q. tt) s, tt, d)
]

-- Where no fork of `s` is one of `t`, none is one of `t` with a new node.
Apart-all :
    (ip i n : ℕ) (s t : Trie)
    → AllPtrs (λ q. q < n) s
    → AllForks (λ y. Apart y t) s
    → AllForks (λ y. Apart y (graft ip i n t)) s
Apart-all ip i n s t f a =
    AllForks-map₂ (λ y. y < n) (λ y. Apart y t) (λ y. Apart y (graft ip i n t))
      (λ y lt ap_y.
        AllForks-graft (λ z. y ≡ z → ⊥) ip i n t (λ e. absurd (omega (arith, e, lt))) ap_y)
      s (AllPtrs-forks (λ q. q < n) s f) a

pub Distinct-graft :
    (ip i n : ℕ) (t : Trie) → AllPtrs (λ q. q < n) t → Distinct t → Distinct (graft ip i n t)
unfolding graft
Distinct-graft ip i n (link x k) f d = Distinct-join ip i n (link x k) f tt
Distinct-graft ip i n (fork x b l r) f d =
    let new : (x ≡ n → ⊥) = λ e. absurd (omega (arith, e, f.0)) in
    elim (Bool-cases (ltb i b)) [
      | inr stop ↦ rw stop (Distinct-join ip i n (fork x b l r) f d)
      | inl below ↦ elim (Bool-cases (bit ip b)) [
        | inl right ↦
            rw (below, right)
              (
                d.0,
                AllForks-graft (λ z. x ≡ z → ⊥) ip i n r new d.1,
                Apart-all ip i n l r f.1 d.2,
                AllForks-graft (λ y. Apart y l) ip i n r (new-Apart n l f.1) d.3,
                d.4,
                Distinct-graft ip i n r f.2 d.5,
              )
        | inr left ↦
            rw (below, left)
              (
                AllForks-graft (λ z. x ≡ z → ⊥) ip i n l new d.0,
                d.1,
                AllForks-graft (λ y. Apart y r) ip i n l (new-Apart n r f.2) d.2,
                Apart-all ip i n r l f.2 d.3,
                Distinct-graft ip i n l f.1 d.4,
                d.5,
              )
      ]
    ]
