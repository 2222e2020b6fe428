-- ===== src/Negcache/Graft.antt =====
-- A new key keeps the order of the trie, and is found; every other key is found where it was.
use bopm.Prelude.{
  ℕ, ◌+◌, ◌<◌, ◌≡◌, refl, sym, ap, ◌∙◌, Bool, true, false, not, none, arith, ltb, ◌==◌,
  if◌then◌else◌, inl, inr, Bool-cases,
}
use mathlib.Core.Bool.{false≢true}
use bopm.Negcache.{bit}
use bopm.Negcache.Bits.{AgreeFrom, FirstDifference}
use bopm.Negcache.Trie.{
  Trie, link, fork, AllKeys, walk, lookup, join, graft, IsSplit, IsCommon, AllKeys-map,
  AllKeys-walk, AllKeys-graft,
}

pub not_self : (b : Bool) → b ≡ not b → ⊥
not_self true h = false≢true (sym h)
not_self false h = false≢true h

-- Where the way of `ip` leaves the trie at bit `i`, all keys have that bit unlike `ip`.
abbrev pub Opposite : ℕ → ℕ → Trie → Type 0
Opposite ip i s = AllKeys (λ k. bit k i ≡ not (bit ip i)) s

-- What the way of `ip` ends at has the bits of `ip` from the last test on.
walk-split :
    (ip x b : ℕ) (l r : Trie) → IsSplit (fork x b l r) → bit (walk ip (fork x b l r)).1 b ≡ bit ip b
unfolding walk
walk-split ip x b l r s = elim (Bool-cases (bit ip b)) [
  | inl right ↦ rw right (AllKeys-walk (λ k. bit k b ≡ true) ip r s.1)
  | inr left ↦ rw left (AllKeys-walk (λ k. bit k b ≡ false) ip l s.0)
]

pub Opposite-stop :
    (ip i x b : ℕ) (l r : Trie)
    → IsSplit (fork x b l r)
    → IsCommon (fork x b l r)
    → FirstDifference (walk ip (fork x b l r)).1 ip i
    → ltb i b ≡ false
    → (b < i) × Opposite ip i (fork x b l r) × AllKeys (λ k. AgreeFrom (i + 1) k ip) (fork x b l r)
Opposite-stop ip i x b l r s c d stop =
    let t = fork x b l r in
    let key = (walk ip t).1 in
    let ne : (i ≡ b → ⊥) =
      λ e. not_self (bit ip b) (sym (walk-split ip x b l r s) ∙ (rw e at d.1)) in
    let lt : b < i = ground arith in
    let (q, hl, hr) = c.0 in
    let with_q = AllKeys-walk (λ k. AgreeFrom (b + 1) k q) ip t (hl, hr) in
    (
      lt,
      AllKeys-map (λ k. AgreeFrom (b + 1) k q) (λ k. bit k i ≡ not (bit ip i))
          (λ k a. a i (omega arith) d.0 ∙ (sym (with_q i (omega arith) d.0) ∙ d.1)) t (hl, hr),
      AllKeys-map (λ k. AgreeFrom (b + 1) k q) (λ k. AgreeFrom (i + 1) k ip)
          (λ k a j le lt'.
            a j (omega arith) lt' ∙ (sym (with_q j (omega arith) lt') ∙ d.2 j le lt'))
          t (hl, hr),
    )

IsSplit-join : (ip i n : ℕ) (s : Trie) → Opposite ip i s → IsSplit s → IsSplit (join ip i n s)
IsSplit-join ip i n s o h = elim (Bool-cases (bit ip i)) [
  | inl one ↦ rw one (rw one at o, one, h, tt)
  | inr zero ↦ rw zero (zero, rw zero at o, tt, h)
]

pub IsSplit-graft :
    (ip i n : ℕ) (t : Trie)
    → IsSplit t
    → IsCommon t
    → FirstDifference (walk ip t).1 ip i
    → IsSplit (graft ip i n t)
unfolding graft walk
IsSplit-graft ip i n (link x k) s c d = IsSplit-join ip i n (link x k) d.1 tt
IsSplit-graft ip i n (fork x b l r) s c d = elim (Bool-cases (ltb i b)) [
  | inr stop ↦
      rw stop (IsSplit-join ip i n (fork x b l r) (Opposite-stop ip i x b l r s c d stop).1 s)
  | inl below ↦ elim (Bool-cases (bit ip b)) [
    | inl right ↦
        rw (below, right)
          (
            s.0,
            AllKeys-graft (λ k. bit k b ≡ true) ip i n r right s.1,
            s.2,
            IsSplit-graft ip i n r s.3 c.2 (rw right at d),
          )
    | inr left ↦
        rw (below, left)
          (
            AllKeys-graft (λ k. bit k b ≡ false) ip i n l left s.0,
            s.1,
            IsSplit-graft ip i n l s.2 c.1 (rw left at d),
            s.3,
          )
  ]
]

AgreeFrom-self : (i x : ℕ) → AgreeFrom i x x
AgreeFrom-self i x j le lt = refl

IsCommon-join :
    (ip i n : ℕ) (s : Trie)
    → AllKeys (λ k. AgreeFrom (i + 1) k ip) s
    → IsCommon s
    → IsCommon (join ip i n s)
IsCommon-join ip i n s a h = elim (Bool-cases (bit ip i)) [
  | inl one ↦ rw one ((ip, a, AgreeFrom-self (i + 1) ip), h, tt)
  | inr zero ↦ rw zero ((ip, AgreeFrom-self (i + 1) ip, a), tt, h)
]

pub IsCommon-graft :
    (ip i n : ℕ) (t : Trie)
    → IsSplit t
    → IsCommon t
    → FirstDifference (walk ip t).1 ip i
    → IsCommon (graft ip i n t)
unfolding graft walk
IsCommon-graft ip i n (link x k) s c d = IsCommon-join ip i n (link x k) d.2 tt
IsCommon-graft ip i n (fork x b l r) s c d = elim (Bool-cases (ltb i b)) [
  | inr stop ↦
      rw stop (IsCommon-join ip i n (fork x b l r) (Opposite-stop ip i x b l r s c d stop).2 c)
  | inl below ↦
      let (q, hl, hr) = c.0 in
      let with_q = AllKeys-walk (λ k. AgreeFrom (b + 1) k q) ip (fork x b l r) (hl, hr) in
      let ip_q : AgreeFrom (b + 1) ip q =
        λ j le lt. sym (d.2 j (ground arith) lt) ∙ with_q j le lt in
      elim (Bool-cases (bit ip b)) [
        | inl right ↦
            rw (below, right)
              (
                (q, hl, AllKeys-graft (λ k. AgreeFrom (b + 1) k q) ip i n r ip_q hr),
                c.1,
                IsCommon-graft ip i n r s.3 c.2 (rw right at d),
              )
        | inr left ↦
            rw (below, left)
              (
                (q, AllKeys-graft (λ k. AgreeFrom (b + 1) k q) ip i n l ip_q hl, hr),
                IsCommon-graft ip i n l s.2 c.1 (rw left at d),
                c.2,
              )
      ]
]

-- The stop of the way, in one statement for links and forks.
Opposite-here :
    (ip i : ℕ) (s : Trie) (n : ℕ) → Opposite ip i s → (walk ip (join ip i n s)) ≡ (n, ip)
unfolding walk
Opposite-here ip i s n o = elim (Bool-cases (bit ip i)) [
  | inl one ↦ rw (one, walk, one)
  | inr zero ↦ rw (zero, walk, zero)
]

pub walk-graft :
    (ip i n : ℕ) (t : Trie)
    → IsSplit t
    → IsCommon t
    → FirstDifference (walk ip t).1 ip i
    → walk ip (graft ip i n t) ≡ (n, ip)
unfolding walk graft
walk-graft ip i n (link x k) s c d = Opposite-here ip i (link x k) n d.1
walk-graft ip i n (fork x b l r) s c d = elim (Bool-cases (ltb i b)) [
  | inr stop ↦
      rw stop (Opposite-here ip i (fork x b l r) n (Opposite-stop ip i x b l r s c d stop).1)
  | inl below ↦ elim (Bool-cases (bit ip b)) [
    | inl right ↦ rw (below, right, walk, right) (walk-graft ip i n r s.3 c.2 (rw right at d))
    | inr left ↦ rw (below, left, walk, left) (walk-graft ip i n l s.2 c.1 (rw left at d))
  ]
]

lookup-fork :
    (ip x b : ℕ) (l r : Trie)
    → lookup ip (fork x b l r) ≡ (if bit ip b then lookup ip r else lookup ip l)
unfolding lookup walk
lookup-fork ip x b l r = elim (Bool-cases (bit ip b)) [ inl right ↦ rw right | inr left ↦ rw left ]

-- A key that has the bit like `ip` is not among keys that have it unlike.
lookup-Opposite :
    (other ip i : ℕ) (s : Trie) → bit other i ≡ bit ip i → Opposite ip i s → lookup other s ≡ none
unfolding lookup
lookup-Opposite other ip i s e o =
    let unlike = AllKeys-walk (λ k. bit k i ≡ not (bit ip i)) other s o in
    elim (Bool-cases (other == (walk other s).1)) [
      | inr ne ↦ rw ne
      | inl same ↦
          let e' : other ≡ (walk other s).1 = ground arith in
          absurd (not_self (bit ip i) (sym e ∙ (ap (λ k. bit k i) e' ∙ unlike)))
    ]

lookup-link_other : (other ip n : ℕ) → (other ≡ ip → ⊥) → lookup other (link n ip) ≡ none
unfolding lookup walk
lookup-link_other other ip n ne = ground arith

lookup-join :
    (other ip i n : ℕ) (s : Trie)
    → (other ≡ ip → ⊥)
    → Opposite ip i s
    → lookup other (join ip i n s) ≡ lookup other s
lookup-join other ip i n s ne o = elim (Bool-cases (bit ip i)) [
  | inl one ↦ elim (Bool-cases (bit other i)) [
    | inl like ↦
        rw (one, lookup-fork other n i s (link n ip), like, lookup-link_other other ip n ne)
          (sym (lookup-Opposite other ip i s (like ∙ sym one) o))
    | inr unlike ↦ rw (one, lookup-fork other n i s (link n ip), unlike)
  ]
  | inr zero ↦ elim (Bool-cases (bit other i)) [
    | inl unlike ↦ rw (zero, lookup-fork other n i (link n ip) s, unlike)
    | inr like ↦
        rw (zero, lookup-fork other n i (link n ip) s, like, lookup-link_other other ip n ne)
          (sym (lookup-Opposite other ip i s (like ∙ sym zero) o))
  ]
]

pub lookup-graft_other :
    (other ip i n : ℕ) (t : Trie)
    → (other ≡ ip → ⊥)
    → IsSplit t
    → IsCommon t
    → FirstDifference (walk ip t).1 ip i
    → lookup other (graft ip i n t) ≡ lookup other t
unfolding walk graft
lookup-graft_other other ip i n (link x k) ne s c d = lookup-join other ip i n (link x k) ne d.1
lookup-graft_other other ip i n (fork x b l r) ne s c d = elim (Bool-cases (ltb i b)) [
  | inr stop ↦
      rw stop (lookup-join other ip i n (fork x b l r) ne (Opposite-stop ip i x b l r s c d stop).1)
  | inl below ↦ elim (Bool-cases (bit ip b)) [
    | inl right ↦ rw (
      below,
      right,
      lookup-fork other x b l (graft ip i n r),
      lookup-fork other x b l r,
      lookup-graft_other other ip i n r ne s.3 c.2 (rw right at d),
    )
    | inr left ↦ rw (
      below,
      left,
      lookup-fork other x b (graft ip i n l) r,
      lookup-fork other x b l r,
      lookup-graft_other other ip i n l ne s.2 c.1 (rw left at d),
    )
  ]
]
