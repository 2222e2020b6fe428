-- ===== src/Negcache/Forks.antt =====
-- The forks of a trie, and the order in which `nc_rebuild` visits them.
use bopm.Prelude.{
  ℕ, ◌≡◌, refl, ◌⊎◌, inl, inr, Bool, true, false, ◌||◌, List, [], ◌∷◌, ◌++◌, arith, ltb, ◌==◌,
  Bool-cases, All,
}
use bopm.Negcache.{Ptr, bit}
use bopm.Negcache.Trie.{Trie, link, fork, AllForks, join, graft}

-- `x` is a fork.
abbrev pub IsFork : Ptr → Trie → Type 0
IsFork x (link y k) = ⊥
IsFork x (fork y b l r) = (x ≡ y) ⊎ IsFork x l ⊎ IsFork x r

IsFork-join_new : (ip i n : ℕ) (s : Trie) → IsFork n (join ip i n s)
IsFork-join_new ip i n s = elim (Bool-cases (bit ip i)) [
  | inl one ↦ rw one (inl refl)
  | inr off ↦ rw off (inl refl)
]

pub IsFork-graft_new : (ip i n : ℕ) (t : Trie) → IsFork n (graft ip i n t)
unfolding graft
IsFork-graft_new ip i n (link y k) = IsFork-join_new ip i n (link y k)
IsFork-graft_new ip i n (fork y b l r) = elim (Bool-cases (ltb i b)) [
  | inr stop ↦ rw stop (IsFork-join_new ip i n (fork y b l r))
  | inl below ↦ elim (Bool-cases (bit ip b)) [
    | inl right ↦ rw (below, right) (inr (inr (IsFork-graft_new ip i n r)))
    | inr left ↦ rw (below, left) (inr (inl (IsFork-graft_new ip i n l)))
  ]
]

IsFork-join : (x ip i n : ℕ) (s : Trie) → IsFork x s → IsFork x (join ip i n s)
IsFork-join x ip i n s f = elim (Bool-cases (bit ip i)) [
  | inl one ↦ rw one (inr (inl f))
  | inr off ↦ rw off (inr (inr f))
]

map_right :
    (x y b : ℕ) (l r r' : Trie)
    → (IsFork x r → IsFork x r')
    → IsFork x (fork y b l r)
    → IsFork x (fork y b l r')
map_right x y b l r r' f (inl e) = inl e
map_right x y b l r r' f (inr (inl h)) = inr (inl h)
map_right x y b l r r' f (inr (inr h)) = inr (inr (f h))

map_left :
    (x y b : ℕ) (l l' r : Trie)
    → (IsFork x l → IsFork x l')
    → IsFork x (fork y b l r)
    → IsFork x (fork y b l' r)
map_left x y b l l' r f (inl e) = inl e
map_left x y b l l' r f (inr (inl h)) = inr (inl (f h))
map_left x y b l l' r f (inr (inr h)) = inr (inr h)

pub IsFork-graft : (x ip i n : ℕ) (t : Trie) → IsFork x t → IsFork x (graft ip i n t)
unfolding graft
IsFork-graft x ip i n (link y k) f = absurd f
IsFork-graft x ip i n (fork y b l r) f = elim (Bool-cases (ltb i b)) [
  | inr stop ↦ rw stop (IsFork-join x ip i n (fork y b l r) f)
  | inl below ↦ elim (Bool-cases (bit ip b)) [
    | inl right ↦
        rw (below, right) (map_right x y b l r (graft ip i n r) (IsFork-graft x ip i n r) f)
    | inr left ↦ rw (below, left) (map_left x y b l (graft ip i n l) r (IsFork-graft x ip i n l) f)
  ]
]

-- The forks, each behind those below it.
unfoldable pub order : Trie → List Ptr
order (link x k) = []
order (fork x b l r) = order l ++ (order r ++ x ∷ [])

abbrev pub has_ptr : Ptr → List Ptr → Bool
has_ptr x [] = false
has_ptr x (y ∷ ys) = y == x || has_ptr x ys

has_ptr-append :
    (x : Ptr) (ys zs : List Ptr) → has_ptr x (ys ++ zs) ≡ (has_ptr x ys || has_ptr x zs)
has_ptr-append x [] zs = refl
has_ptr-append x (y ∷ ys) zs = ground (arith, has_ptr-append x ys zs)

pub has_ptr-order : (x : Ptr) (t : Trie) → IsFork x t → has_ptr x (order t) ≡ true
unfolding order
has_ptr-order x (link y k) f = absurd f
has_ptr-order x (fork y b l r) (inl e) =
    ground
      (arith, has_ptr-append x (order l) (order r ++ y ∷ []), has_ptr-append x (order r) (y ∷ []))
has_ptr-order x (fork y b l r) (inr (inl f)) =
    ground (arith, has_ptr-append x (order l) (order r ++ y ∷ []), has_ptr-order x l f)
has_ptr-order x (fork y b l r) (inr (inr f)) = ground (
  arith,
  has_ptr-append x (order l) (order r ++ y ∷ []),
  has_ptr-append x (order r) (y ∷ []),
  has_ptr-order x r f,
)

All-append : (P : Ptr → Type 0) (xs ys : List Ptr) → All P xs → All P ys → All P (xs ++ ys)
All-append P [] ys hx hy = hy
All-append P (x ∷ xs) ys hx hy = (hx.0, All-append P xs ys hx.1 hy)

pub All-order : (P : Ptr → Type 0) (t : Trie) → AllForks P t → All P (order t)
unfolding order
All-order P (link x k) h = tt
All-order P (fork x b l r) h =
    All-append P (order l) (order r ++ x ∷ []) (All-order P l h.1)
      (All-append P (order r) (x ∷ []) (All-order P r h.2) (h.0, tt))
