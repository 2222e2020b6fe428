-- ===== src/Negcache/Represents.antt =====
-- The nodes in memory that stand for a trie, and the loops that go down them.
use bopm.Prelude.{
  ℕ, zero, suc, ◌≤◌, ◌<◌, ◌≡◌, ap, ◌∙◌, Bool, true, false, some, arith, ltb, if◌then◌else◌, inl,
  inr, Bool-cases,
}
use bopm.Negcache.{Ptr, Cnode, bit, getbit, child, descend, descend_to}
use bopm.Negcache.Bits.{getbit-bit}
use bopm.Negcache.Trie.{Trie, link, fork, root, walk}

-- The trie below a node that tests bit `pb`. A pointer up is told by its bit, which is not lower.
abbrev pub Represents : (Ptr → Cnode) → (pb : ℕ) → Trie → Type 0
Represents node pb (link x k) = (pb ≤ (node x).b) × ((node x).ip ≡ k)
Represents node pb (fork x b l r) =
    ((node x).b ≡ b)
    × (b < pb)
    × ((node x).l ≡ root l)
    × ((node x).r ≡ root r)
    × Represents node b l
    × Represents node b r

-- The pointer in which the way of `ip` is cut at bit `i`: the node that holds it, and its value.
unfoldable pub spot : (ip i : ℕ) → Ptr → Trie → Ptr × Ptr
spot ip i p (link x k) = (p, x)
spot ip i p (fork x b l r) =
    if ltb i b then if bit ip b then spot ip i x r else spot ip i x l else (p, x)

module _ (shift : ℕ → Bool) (node : Ptr → Cnode) (ip : ℕ) where
  pub child-root :
      (x b pb : ℕ) (l r : Trie)
      → Represents node pb (fork x b l r)
      → pb ≤ 64
      → child shift node ip x ≡ (if bit ip b then root r else root l)
  child-root x b pb l r (e, lt, el, er, _, _) le =
      let test : getbit shift ip (node x).b ≡ bit ip b =
        ap (getbit shift ip) e ∙ getbit-bit shift ip b (omega arith) in
      rw (test, el, er)

  pub descend-walk :
      (fuel p pb : ℕ) (t : Trie)
      → (node p).b ≡ pb
      → pb < fuel
      → pb ≤ 64
      → Represents node pb t
      → descend shift fuel node ip p (root t) ≡ some (walk ip t).0
  unfolding descend walk
  descend-walk zero p pb t e lt le h = absurd (omega arith)
  descend-walk (suc fuel) p pb (link x k) e lt le h =
      let up : ltb (node x).b (node p).b ≡ false = ground (arith, h.0) in rw up
  descend-walk (suc fuel) p pb (fork x b l r) e lt le h =
      let down : ltb (node x).b (node p).b ≡ true = ground (arith, h.0, h.1) in
      rw (down, child-root x b pb l r h le)
        (elim (Bool-cases (bit ip b)) [
          | inl right ↦
              rw right (descend-walk fuel x b r h.0 (omega (arith, h.1)) (omega (arith, h.1)) h.5)
          | inr left ↦
              rw left (descend-walk fuel x b l h.0 (omega (arith, h.1)) (omega (arith, h.1)) h.4)
        ])

  pub descend_to-spot :
      (i fuel p pb : ℕ) (t : Trie)
      → (node p).b ≡ pb
      → pb < fuel
      → pb ≤ 64
      → Represents node pb t
      → descend_to shift fuel node ip i p (root t) ≡ some (spot ip i p t)
  unfolding descend_to spot
  descend_to-spot i zero p pb t e lt le h = absurd (omega arith)
  descend_to-spot i (suc fuel) p pb (link x k) e lt le h =
      let up : ltb (node x).b (node p).b ≡ false = ground (arith, h.0) in rw up
  descend_to-spot i (suc fuel) p pb (fork x b l r) e lt le h =
      let down : ltb (node x).b (node p).b ≡ true = ground (arith, h.0, h.1) in
      let same : ltb i (node x).b ≡ ltb i b = ap (ltb i) h.0 in
      rw (down, same, child-root x b pb l r h le)
        (elim (Bool-cases (ltb i b)) [
          | inr stop ↦ rw stop
          | inl below ↦ elim (Bool-cases (bit ip b)) [
            | inl right ↦
                rw (below, right)
                  (descend_to-spot i fuel x b r h.0 (omega (arith, h.1)) (omega (arith, h.1)) h.5)
            | inr left ↦
                rw (below, left)
                  (descend_to-spot i fuel x b l h.0 (omega (arith, h.1)) (omega (arith, h.1)) h.4)
          ]
        ])

  pub walk-key :
      (pb : ℕ) (t : Trie) → Represents node pb t → (node (walk ip t).0).ip ≡ (walk ip t).1
  unfolding walk
  walk-key pb (link x k) h = h.1
  walk-key pb (fork x b l r) h = elim (Bool-cases (bit ip b)) [
    | inl right ↦ rw right (walk-key b r h.5)
    | inr left ↦ rw left (walk-key b l h.4)
  ]

-- The times of the nodes are not part of the trie.
pub Represents-fields :
    (node node' : Ptr → Cnode)
    → ((q : Ptr) → (node' q).b ≡ (node q).b)
    → ((q : Ptr) → (node' q).ip ≡ (node q).ip)
    → ((q : Ptr) → (node' q).l ≡ (node q).l)
    → ((q : Ptr) → (node' q).r ≡ (node q).r)
    → (pb : ℕ) (t : Trie) → Represents node pb t
    → Represents node' pb t
Represents-fields node node' eb ei el er pb (link x k) h = (rw (eb x) h.0, ei x ∙ h.1)
Represents-fields node node' eb ei el er pb (fork x b l r) h = (
  eb x ∙ h.0,
  h.1,
  el x ∙ h.2,
  er x ∙ h.3,
  Represents-fields node node' eb ei el er b l h.4,
  Represents-fields node node' eb ei el er b r h.5,
)
