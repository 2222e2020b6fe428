-- ===== src/Negcache/Link.antt =====
-- The memory after `nc_insert` has linked a new node stands for the grafted trie.
use bopm.Prelude.{
  ℕ, ◌≤◌, ◌<◌, ◌≡◌, refl, sym, ap, ◌∙◌, Bool, true, false, arith, ltb, ltb→lt, if◌then◌else◌, inl,
  inr, Bool-cases,
}
use bopm.Negcache.{Ptr, Cnode, bit, getbit}
use bopm.Negcache.Bits.{getbit-bit, FirstDifference}
use bopm.Negcache.Trie.{
  Trie, link, fork, root, AllForks, AllPtrs, join, graft, walk, IsSplit, IsCommon, AllForks-map,
}
use bopm.Negcache.Apart.{Apart, Distinct}
use bopm.Negcache.Graft.{Opposite-stop}
use bopm.Negcache.Represents.{Represents, spot}

-- The way goes on below the root.
abbrev goes : ℕ → Trie → Bool
goes i (link x k) = false
goes i (fork x b l r) = ltb i b

pub spot-stays :
    (P : Ptr → Type 0) (ip i : ℕ) (p : Ptr) (t : Trie) → P p → AllForks P t → P (spot ip i p t).0
unfolding spot
spot-stays P ip i p (link x k) h hs = h
spot-stays P ip i p (fork x b l r) h hs = elim (Bool-cases (ltb i b)) [
  | inr stop ↦ rw stop h
  | inl below ↦ elim (Bool-cases (bit ip b)) [
    | inl right ↦ rw (below, right) (spot-stays P ip i x r hs.0 hs.2)
    | inr left ↦ rw (below, left) (spot-stays P ip i x l hs.0 hs.1)
  ]
]

spot-goes :
    (P : Ptr → Type 0) (ip i : ℕ) (p : Ptr) (t : Trie)
    → goes i t ≡ true
    → AllForks P t
    → P (spot ip i p t).0
unfolding spot
spot-goes P ip i p (link x k) g hs = absurd (ground arith)
spot-goes P ip i p (fork x b l r) g hs = elim (Bool-cases (bit ip b)) [
  | inl right ↦ rw (g, right) (spot-stays P ip i x r hs.0 hs.2)
  | inr left ↦ rw (g, left) (spot-stays P ip i x l hs.0 hs.1)
]

spot-stops : (ip i : ℕ) (p : Ptr) (t : Trie) → goes i t ≡ false → spot ip i p t ≡ (p, root t)
unfolding spot
spot-stops ip i p (link x k) g = refl
spot-stops ip i p (fork x b l r) g = rw g

root-join : (ip i n : ℕ) (s : Trie) → root (join ip i n s) ≡ n
root-join ip i n s = elim (Bool-cases (bit ip i)) [ inl one ↦ rw one | inr off ↦ rw off ]

pub root-stops : (ip i n : ℕ) (t : Trie) → goes i t ≡ false → root (graft ip i n t) ≡ n
unfolding graft
root-stops ip i n (link x k) g = root-join ip i n (link x k)
root-stops ip i n (fork x b l r) g = rw g (root-join ip i n (fork x b l r))

pub root-goes : (ip i n : ℕ) (t : Trie) → goes i t ≡ true → root (graft ip i n t) ≡ root t
unfolding graft
root-goes ip i n (link x k) g = absurd (ground arith)
root-goes ip i n (fork x b l r) g = elim (Bool-cases (bit ip b)) [
  | inl right ↦ rw (g, right)
  | inr left ↦ rw (g, left)
]

-- Memory in which `n` was made and the pointer of `p` for the bit `side` set to it.
pub record Linked (shift : ℕ → Bool) (ip i n p x : ℕ) (side : Bool) (node node' : Ptr → Cnode)
    : Type 0 where
  pub test : getbit shift ip (node p).b ≡ side
  pub new_ip : (node' n).ip ≡ ip
  pub new_b : (node' n).b ≡ i
  pub new_l : (node' n).l ≡ (if bit ip i then x else n)
  pub new_r : (node' n).r ≡ (if bit ip i then n else x)
  pub set_l : (node' p).l ≡ (if side then (node p).l else n)
  pub set_r : (node' p).r ≡ (if side then n else (node p).r)
  pub other : (q : Ptr) → (q ≡ n → ⊥) → (q ≡ p → ⊥) → node' q ≡ node q
  pub same_b : (q : Ptr) → (q ≡ n → ⊥) → (node' q).b ≡ (node q).b
  pub same_ip : (q : Ptr) → (q ≡ n → ⊥) → (node' q).ip ≡ (node q).ip
  pub same_seen : (q : Ptr) → (q ≡ n → ⊥) → (node' q).seen ≡ (node q).seen

-- Memory that is the same but for `n`, and for the pointers in `p`.
pub record Frame (n p : ℕ) (node node' : Ptr → Cnode) : Type 0 where
  pub other : (q : Ptr) → (q ≡ n → ⊥) → (q ≡ p → ⊥) → node' q ≡ node q
  pub same_b : (q : Ptr) → (q ≡ n → ⊥) → (node' q).b ≡ (node q).b
  pub same_ip : (q : Ptr) → (q ≡ n → ⊥) → (node' q).ip ≡ (node q).ip

module _ {n p : ℕ} {node node' : Ptr → Cnode} (k : Frame n p node node') where
  -- A part of the trie that the new pointer is not in.
  pub Represents-frame :
      (pb : ℕ) (t : Trie)
      → AllPtrs (λ q. q < n) t
      → AllForks (λ q. q ≡ p → ⊥) t
      → Represents node pb t
      → Represents node' pb t
  Represents-frame pb (link y key) f a h =
      let new : (y ≡ n → ⊥) = λ e. absurd (omega (arith, e, f)) in
      (rw (k.same_b y new) h.0, k.same_ip y new ∙ h.1)
  Represents-frame pb (fork y b l r) f a h =
      let new : (y ≡ n → ⊥) = λ e. absurd (omega (arith, e, f.0)) in
      let same = k.other y new a.0 in
      (
        ap (λ c. c.b) same ∙ h.0,
        h.1,
        ap (λ c. c.l) same ∙ h.2,
        ap (λ c. c.r) same ∙ h.3,
        Represents-frame b l f.1 a.1 h.4,
        Represents-frame b r f.2 a.2 h.5,
      )

module _ {shift : ℕ → Bool} {ip i n p x : ℕ} {side : Bool} {node node' : Ptr → Cnode}
    (k : Linked shift ip i n p x side node node') where
  frame : Frame n p node node'
  frame = record { other = k.other; same_b = k.same_b; same_ip = k.same_ip }

  Represents-other :
      (pb : ℕ) (t : Trie)
      → AllPtrs (λ q. q < n) t
      → AllForks (λ q. q ≡ p → ⊥) t
      → Represents node pb t
      → Represents node' pb t
  Represents-other = Represents-frame frame

  Represents-join :
      (pb : ℕ) (s : Trie)
      → i < pb
      → x ≡ root s
      → Represents node' i s
      → Represents node' pb (join ip i n s)
  Represents-join pb s lt e h = elim (Bool-cases (bit ip i)) [
    | inl one ↦
        let new_l : (node' n).l ≡ root s = k.new_l ∙ rw one e in
        let new_r : (node' n).r ≡ n = k.new_r ∙ rw one in
        rw one (k.new_b, lt, new_l, new_r, h, (ground (arith, k.new_b), k.new_ip))
    | inr off ↦
        let new_l : (node' n).l ≡ n = k.new_l ∙ rw off in
        let new_r : (node' n).r ≡ root s = k.new_r ∙ rw off e in
        rw off (k.new_b, lt, new_l, new_r, (ground (arith, k.new_b), k.new_ip), h)
  ]

  -- The part at which the way stops.
  Represents-stop :
      (pb : ℕ) (s : Trie)
      → i < pb
      → x ≡ root s
      → goes i s ≡ false
      → AllPtrs (λ q. q < n) s
      → AllForks (λ q. q ≡ p → ⊥) s
      → IsSplit s
      → IsCommon s
      → FirstDifference (walk ip s).1 ip i
      → Represents node pb s
      → Represents node' pb (join ip i n s)
  Represents-stop pb (link y key) lt e g f a s c d h =
      Represents-join pb (link y key) lt e
        (Represents-other i (link y key) f a (omega (arith, h.0), h.1))
  Represents-stop pb (fork y b l r) lt e g f a s c d h =
      let below = Opposite-stop ip i y b l r s c d g in
      Represents-join pb (fork y b l r) lt e
        (Represents-other i (fork y b l r) f a (h.0, below.0, h.2, h.3, h.4, h.5))

  -- The two pointers of a node from which the way goes on to `s`.
  pub slot :
      (y : Ptr) (v : Bool) (s : Trie)
      → getbit shift ip (node y).b ≡ v
      → (if v then (node y).r else (node y).l) ≡ root s
      → spot ip i y s ≡ (p, x)
      → (y ≡ n → ⊥)
      → Apart y s
      → ((node' y).l ≡ (if v then (node y).l else root (graft ip i n s)))
        × ((node' y).r ≡ (if v then root (graft ip i n s) else (node y).r))
  slot y v s t e sp new a = elim (Bool-cases (goes i s)) [
    | inl on ↦
        let away = spot-goes (λ z. y ≡ z → ⊥) ip i y s on a in
        let same = k.other y new (λ q. away (q ∙ sym (ap (λ c. c.0) sp))) in
        rw (same, root-goes ip i n s on, sym e) (by_side v)
    | inr stop ↦
        let here : y ≡ p = ap (λ c. c.0) (sym (spot-stops ip i y s stop) ∙ sp) in
        let side_v : side ≡ v =
          sym k.test ∙ (ap (λ q. getbit shift ip (node q).b) (sym here) ∙ t) in
        rw (root-stops ip i n s stop, here, sym side_v) (k.set_l, k.set_r)
  ]
    where
      by_side :
          (w : Bool)
          → ((node y).l ≡ (if w then (node y).l else (if w then (node y).r else (node y).l)))
            × ((node y).r ≡ (if w then (if w then (node y).r else (node y).l) else (node y).r))
      by_side true = (refl, refl)
      by_side false = (refl, refl)

  pub Represents-graft :
      (p₀ pb : ℕ) (t : Trie)
      → pb ≤ 64
      → i < pb
      → spot ip i p₀ t ≡ (p, x)
      → AllPtrs (λ q. q < n) t
      → Apart p₀ t
      → Distinct t
      → IsSplit t
      → IsCommon t
      → FirstDifference (walk ip t).1 ip i
      → Represents node pb t
      → Represents node' pb (graft ip i n t)
  unfolding graft spot walk
  Represents-graft p₀ pb (link y key) le lt sp f a dist s c d h =
      Represents-stop pb (link y key) lt (ap (λ q. q.1) (sym sp)) refl f tt s c d h
  Represents-graft p₀ pb (fork y b l r) le lt sp f a dist s c d h = elim (Bool-cases (ltb i b)) [
    | inr stop ↦
        let here : (p₀, y) ≡ (p, x) = rw stop at sp in
        let p_here : p₀ ≡ p = ap (λ q. q.0) here in
        rw stop (
          Represents-stop pb (fork y b l r) lt (ap (λ q. q.1) (sym here)) stop f
            (AllForks-map (λ q. p₀ ≡ q → ⊥) (λ q. q ≡ p → ⊥) (λ q ne e. ne (p_here ∙ sym e))
              (fork y b l r) a)
            s c d h)
    | inl below ↦
        let new : (y ≡ n → ⊥) = λ e. absurd (omega (arith, e, f.0)) in
        let lt_b : i < b = ltb→lt i b below in
        let test : getbit shift ip (node y).b ≡ bit ip b =
          ap (getbit shift ip) h.0 ∙ getbit-bit shift ip b (omega (arith, h.1)) in
        elim (Bool-cases (bit ip b)) [
          | inl right ↦
              let sp' : spot ip i y r ≡ (p, x) = rw (below, right) at sp in
              let apart_l = spot-stays (λ q. Apart q l) ip i y r dist.0 dist.3 in
              let set = slot y true r (test ∙ right) h.3 sp' new dist.1 in
              rw (below, right)
                (
                  k.same_b y new ∙ h.0,
                  h.1,
                  set.0 ∙ h.2,
                  set.1,
                  Represents-other b l f.1
                      (AllForks-map (λ q. (spot ip i y r).0 ≡ q → ⊥) (λ q. q ≡ p → ⊥)
                        (λ q ne e. ne (ap (λ w. w.0) sp' ∙ sym e)) l apart_l)
                      h.4,
                  Represents-graft y b r (omega (arith, h.1)) lt_b sp' f.2 dist.1 dist.5 s.3 c.2
                      (rw right at d) h.5,
                )
          | inr left ↦
              let sp' : spot ip i y l ≡ (p, x) = rw (below, left) at sp in
              let apart_r = spot-stays (λ q. Apart q r) ip i y l dist.1 dist.2 in
              let set = slot y false l (test ∙ left) h.2 sp' new dist.0 in
              rw (below, left)
                (
                  k.same_b y new ∙ h.0,
                  h.1,
                  set.0,
                  set.1 ∙ h.3,
                  Represents-graft y b l (omega (arith, h.1)) lt_b sp' f.1 dist.0 dist.4 s.2 c.1
                      (rw left at d) h.4,
                  Represents-other b r f.2
                      (AllForks-map (λ q. (spot ip i y l).0 ≡ q → ⊥) (λ q. q ≡ p → ⊥)
                        (λ q ne e. ne (ap (λ w. w.0) sp' ∙ sym e)) r apart_r)
                      h.5,
                )
        ]
  ]
