-- ===== src/Negcache/Trie.antt =====
-- The trie that the nodes stand for: a fork is a node that is reached from above, a link a pointer
-- up to the node of a key.
use bopm.Prelude.{
  ℕ, ◌+◌, ◌≡◌, ap, true, false, Option, none, some, arith, ltb, ◌==◌, if◌then◌else◌, inl, inr,
  Bool-cases,
}
use bopm.Negcache.{Ptr, bit}
use bopm.Negcache.Bits.{AgreeFrom}

pub data Trie : Type 0 where
  link : (x : Ptr) → (key : ℕ) → Trie
  fork : (x : Ptr) → (b : ℕ) → (l r : Trie) → Trie

abbrev pub root : Trie → Ptr
root (link x k) = x
root (fork x b l r) = x

abbrev pub AllKeys : (ℕ → Type 0) → Trie → Type 0
AllKeys P (link x k) = P k
AllKeys P (fork x b l r) = AllKeys P l × AllKeys P r

abbrev pub AllForks : (Ptr → Type 0) → Trie → Type 0
AllForks P (link x k) = Unit
AllForks P (fork x b l r) = P x × AllForks P l × AllForks P r

-- All pointers.
abbrev pub AllPtrs : (Ptr → Type 0) → Trie → Type 0
AllPtrs P (link x k) = P x
AllPtrs P (fork x b l r) = P x × AllPtrs P l × AllPtrs P r

-- The way of a key down the trie ends at a link.
unfoldable pub walk : ℕ → Trie → Ptr × ℕ
walk ip (link x k) = (x, k)
walk ip (fork x b l r) = if bit ip b then walk ip r else walk ip l

unfoldable pub lookup : ℕ → Trie → Option Ptr
unfolding walk
lookup ip t = if ip == (walk ip t).1 then some (walk ip t).0 else none

-- A new node `n` for the bit `i` above a trie, with the key `ip` on the other side.
abbrev pub join : (ip i n : ℕ) → Trie → Trie
join ip i n s = if bit ip i then fork n i s (link n ip) else fork n i (link n ip) s

-- The trie with a new key, whose way leaves the trie at the bit `i`.
unfoldable pub graft : (ip i n : ℕ) → Trie → Trie
graft ip i n (link x k) = join ip i n (link x k)
graft ip i n (fork x b l r) =
    if ltb i b
    then if bit ip b then fork x b l (graft ip i n r) else fork x b (graft ip i n l) r
    else join ip i n (fork x b l r)

-- Below a fork for a bit, the keys on the left have it 0 and those on the right 1.
abbrev pub IsSplit : Trie → Type 0
IsSplit (link x k) = Unit
IsSplit (fork x b l r) =
    AllKeys (λ k. bit k b ≡ false) l × AllKeys (λ k. bit k b ≡ true) r × IsSplit l × IsSplit r

-- Below a fork for a bit, the keys have the bits above it in common.
abbrev pub IsCommon : Trie → Type 0
IsCommon (link x k) = Unit
IsCommon (fork x b l r) =
    ((q : ℕ) × AllKeys (λ k. AgreeFrom (b + 1) k q) l × AllKeys (λ k. AgreeFrom (b + 1) k q) r)
    × IsCommon l
    × IsCommon r

pub AllKeys-map :
    (P Q : ℕ → Type 0) → ((k : ℕ) → P k → Q k) → (t : Trie) → AllKeys P t → AllKeys Q t
AllKeys-map P Q f (link x k) h = f k h
AllKeys-map P Q f (fork x b l r) h = (AllKeys-map P Q f l h.0, AllKeys-map P Q f r h.1)

pub AllKeys-walk : (P : ℕ → Type 0) (ip : ℕ) (t : Trie) → AllKeys P t → P (walk ip t).1
unfolding walk
AllKeys-walk P ip (link x k) h = h
AllKeys-walk P ip (fork x b l r) h = elim (Bool-cases (bit ip b)) [
  | inl right ↦ rw right (AllKeys-walk P ip r h.1)
  | inr left ↦ rw left (AllKeys-walk P ip l h.0)
]

AllKeys-join :
    (P : ℕ → Type 0) (ip i n : ℕ) (s : Trie) → P ip → AllKeys P s → AllKeys P (join ip i n s)
AllKeys-join P ip i n s p h = elim (Bool-cases (bit ip i)) [
  | inl one ↦ rw one (h, p)
  | inr zero ↦ rw zero (p, h)
]

pub AllKeys-graft :
    (P : ℕ → Type 0) (ip i n : ℕ) (t : Trie) → P ip → AllKeys P t → AllKeys P (graft ip i n t)
unfolding graft
AllKeys-graft P ip i n (link x k) p h = AllKeys-join P ip i n (link x k) p h
AllKeys-graft P ip i n (fork x b l r) p h = elim (Bool-cases (ltb i b)) [
  | inr stop ↦ rw stop (AllKeys-join P ip i n (fork x b l r) p h)
  | inl below ↦ elim (Bool-cases (bit ip b)) [
    | inl right ↦ rw (below, right) (h.0, AllKeys-graft P ip i n r p h.1)
    | inr left ↦ rw (below, left) (AllKeys-graft P ip i n l p h.0, h.1)
  ]
]

AllForks-join :
    (P : Ptr → Type 0) (ip i n : ℕ) (s : Trie) → P n → AllForks P s → AllForks P (join ip i n s)
AllForks-join P ip i n s p h = elim (Bool-cases (bit ip i)) [
  | inl one ↦ rw one (p, h, tt)
  | inr zero ↦ rw zero (p, tt, h)
]

pub AllForks-graft :
    (P : Ptr → Type 0) (ip i n : ℕ) (t : Trie) → P n → AllForks P t → AllForks P (graft ip i n t)
unfolding graft
AllForks-graft P ip i n (link x k) p h = AllForks-join P ip i n (link x k) p h
AllForks-graft P ip i n (fork x b l r) p h = elim (Bool-cases (ltb i b)) [
  | inr stop ↦ rw stop (AllForks-join P ip i n (fork x b l r) p h)
  | inl below ↦ elim (Bool-cases (bit ip b)) [
    | inl right ↦ rw (below, right) (h.0, h.1, AllForks-graft P ip i n r p h.2)
    | inr left ↦ rw (below, left) (h.0, AllForks-graft P ip i n l p h.1, h.2)
  ]
]

pub AllForks-map :
    (P Q : Ptr → Type 0) → ((x : Ptr) → P x → Q x) → (t : Trie) → AllForks P t → AllForks Q t
AllForks-map P Q f (link x k) h = tt
AllForks-map P Q f (fork x b l r) h = (f x h.0, AllForks-map P Q f l h.1, AllForks-map P Q f r h.2)

AllPtrs-join :
    (P : Ptr → Type 0) (ip i n : ℕ) (s : Trie) → P n → AllPtrs P s → AllPtrs P (join ip i n s)
AllPtrs-join P ip i n s p h = elim (Bool-cases (bit ip i)) [
  | inl one ↦ rw one (p, h, p)
  | inr zero ↦ rw zero (p, p, h)
]

pub AllPtrs-graft :
    (P : Ptr → Type 0) (ip i n : ℕ) (t : Trie) → P n → AllPtrs P t → AllPtrs P (graft ip i n t)
unfolding graft
AllPtrs-graft P ip i n (link x k) p h = AllPtrs-join P ip i n (link x k) p h
AllPtrs-graft P ip i n (fork x b l r) p h = elim (Bool-cases (ltb i b)) [
  | inr stop ↦ rw stop (AllPtrs-join P ip i n (fork x b l r) p h)
  | inl below ↦ elim (Bool-cases (bit ip b)) [
    | inl right ↦ rw (below, right) (h.0, h.1, AllPtrs-graft P ip i n r p h.2)
    | inr left ↦ rw (below, left) (h.0, AllPtrs-graft P ip i n l p h.1, h.2)
  ]
]

pub AllPtrs-forks : (P : Ptr → Type 0) (t : Trie) → AllPtrs P t → AllForks P t
AllPtrs-forks P (link x k) h = tt
AllPtrs-forks P (fork x b l r) h = (h.0, AllPtrs-forks P l h.1, AllPtrs-forks P r h.2)

pub AllPtrs-map :
    (P Q : Ptr → Type 0) → ((x : Ptr) → P x → Q x) → (t : Trie) → AllPtrs P t → AllPtrs Q t
AllPtrs-map P Q f (link x k) h = f x h
AllPtrs-map P Q f (fork x b l r) h = (f x h.0, AllPtrs-map P Q f l h.1, AllPtrs-map P Q f r h.2)

pub AllForks-all : (P : Ptr → Type 0) → ((x : Ptr) → P x) → (t : Trie) → AllForks P t
AllForks-all P f (link x k) = tt
AllForks-all P f (fork x b l r) = (f x, AllForks-all P f l, AllForks-all P f r)

pub AllForks-map₂ :
    (P Q R : Ptr → Type 0)
    → ((x : Ptr) → P x → Q x → R x)
    → (t : Trie) → AllForks P t
    → AllForks Q t
    → AllForks R t
AllForks-map₂ P Q R f (link x k) hp hq = tt
AllForks-map₂ P Q R f (fork x b l r) hp hq =
    (f x hp.0 hq.0, AllForks-map₂ P Q R f l hp.1 hq.1, AllForks-map₂ P Q R f r hp.2 hq.2)

pub AllPtrs-walk : (P : Ptr → Type 0) (ip : ℕ) (t : Trie) → AllPtrs P t → P (walk ip t).0
unfolding walk
AllPtrs-walk P ip (link x k) h = h
AllPtrs-walk P ip (fork x b l r) h = elim (Bool-cases (bit ip b)) [
  | inl right ↦ rw right (AllPtrs-walk P ip r h.2)
  | inr left ↦ rw left (AllPtrs-walk P ip l h.1)
]

pub some_inj {ℓ} : {A : Type ℓ} (a b : A) → some a ≡ some b → a ≡ b
some_inj a b e = ap (λ o. elim o [ none ↦ a | some c ↦ c ]) e

-- A key is looked up at the end of its way.
pub lookup-walk : (ip : ℕ) (t : Trie) (x : Ptr) → lookup ip t ≡ some x → walk ip t ≡ (x, ip)
unfolding lookup
lookup-walk ip t x e = elim (Bool-cases (ip == (walk ip t).1)) [
  | inl same ↦
      let key : (walk ip t).1 ≡ ip = ground arith in
      let ptr : (walk ip t).0 ≡ x = some_inj (walk ip t).0 x (rw same at e) in λ i. (ptr i, key i)
  | inr other ↦ let no : none ≡ some x = rw other at e in absurd (cc)
]
