-- ===== src/Negcache/Times.antt =====
-- The cache as a map from addresses to the times at which they were last seen.
use bopm.Prelude.{
  ℕ, ◌+◌, ◌^◌, ◌<◌, ◌≡◌, refl, sym, ap, ◌∙◌, Bool, true, false, not, ◌&&◌, Option, none, some,
  arith, leb, ◌==◌, ==_of_ne, if◌then◌else◌, inl, inr, Bool-cases, Option-cases,
}
use mathlib.Core.Bool.{false≢true}
use bopm.Negcache.{
  Ptr, Cnode, Cache, nc_init, is_recent, recent_at, check_neg_cache, set_seen, seen_at,
  negcache_insert,
}
use bopm.Negcache.Bits.{zero_shift}
use bopm.Negcache.Trie.{Trie, link, walk, lookup, lookup-walk, AllPtrs-walk, AllForks-map}
use bopm.Negcache.Represents.{Represents-fields, walk-key}
use bopm.Negcache.Insert.{IsCache, nc_search-lookup, Inserted, nc_insert-Inserted}

abbrev pub time_at : Cache → Option Ptr → Option ℕ
time_at c none = none
time_at c (some x) = some (c.node x).seen

-- The cache holds exactly the times of the map.
pub record Implements (c : Cache) (m : ℕ → Option ℕ) : Type 0 where
  pub trie : Trie
  pub valid : IsCache c trie
  pub times : (ip : ℕ) → m ip ≡ time_at c (lookup ip trie)

-- A new time of one address.
abbrev pub put : ℕ → ℕ → (ℕ → Option ℕ) → ℕ → Option ℕ
put ip time m q = if q == ip then some time else m q

-- The empty cache. Its head stands for the address 0 at time 0.
abbrev pub empty : ℕ → Option ℕ
empty q = if q == 0 then some 0 else none

pub nc_init-IsCache : (p : Ptr) → IsCache (nc_init p) (link p 0)
unfolding nc_init lookup walk
nc_init-IsCache p = record {
  head_b = refl;
  head_root = refl;
  head_below = omega arith;
  nodes = (omega arith, refl);
  split = tt;
  common = tt;
  distinct = tt;
  apart = tt;
  below = omega arith;
  keys = omega arith;
  own = tt;
  zero_at = refl;
  owner = λ q x e nz. absurd (not_found q x e nz);
}
  where
    not_found : (q : ℕ) (x : Ptr) → lookup q (link p 0) ≡ some x → (q ≡ 0 → ⊥) → ⊥
    not_found q x e nz = nz (sym (ap (λ w. w.1) (lookup-walk q (link p 0) x e)))

pub nc_init-Implements : (p : Ptr) → Implements (nc_init p) empty
unfolding nc_init lookup walk
nc_init-Implements p = record {
  trie = link p 0;
  valid = nc_init-IsCache p;
  times = λ ip. elim (Bool-cases (ip == 0)) [ inl e ↦ rw e | inr e ↦ rw e ];
}

set_seen-field :
    (c : Cache) (n : Ptr) (time : ℕ) (f : Cnode → ℕ)
    → ((k : Cnode) → f (record k { seen = time }) ≡ f k)
    → (q : Ptr) → f ((set_seen c n time).node q) ≡ f (c.node q)
set_seen-field c n time f h q = elim (Bool-cases (q == n)) [
  | inl here ↦
      let e : q ≡ n = ground arith in rw here (h (c.node n) ∙ ap (λ p. f (c.node p)) (sym e))
  | inr other ↦ rw other
]

set_seen-IsCache :
    (c : Cache) (t : Trie) (n : Ptr) (time : ℕ) → IsCache c t → IsCache (set_seen c n time) t
set_seen-IsCache c t n time h =
    let node_b = set_seen-field c n time (λ k. k.b) (λ k. refl) in
    let node_ip = set_seen-field c n time (λ k. k.ip) (λ k. refl) in
    let node_l = set_seen-field c n time (λ k. k.l) (λ k. refl) in
    let node_r = set_seen-field c n time (λ k. k.r) (λ k. refl) in
    record {
      head_b = node_b c.head ∙ h.head_b;
      head_root = node_l c.head ∙ h.head_root;
      head_below = h.head_below;
      nodes =
          Represents-fields c.node (set_seen c n time).node node_b node_ip node_l node_r 64 t
            h.nodes;
      split = h.split;
      common = h.common;
      distinct = h.distinct;
      apart = h.apart;
      below = h.below;
      keys = h.keys;
      own =
          AllForks-map (λ x. lookup (c.node x).ip t ≡ some x)
            (λ x. lookup ((set_seen c n time).node x).ip t ≡ some x)
            (λ x e. ap (λ k. lookup k t) (node_ip x) ∙ e) t h.own;
      zero_at = h.zero_at;
      owner = h.owner;
    }

pub lookup-ip :
    {c : Cache} {t : Trie}
    → IsCache c t
    → (q : ℕ) (x : Ptr) → lookup q t ≡ some x
    → (c.node x).ip ≡ q
lookup-ip {c} {t} h q x e =
    let w = lookup-walk q t x e in
    ap (λ p. (c.node p.0).ip) (sym w)
    ∙ (walk-key zero_shift c.node q 64 t h.nodes ∙ ap (λ p. p.1) w)

lookup-below :
    {c : Cache} {t : Trie} → IsCache c t → (q : ℕ) (x : Ptr) → lookup q t ≡ some x → x < c.fresh
lookup-below {c} {t} h q x e =
    let w = lookup-walk q t x e in
    let lt = AllPtrs-walk (λ p. p < c.fresh) q t h.below in rw (ap (λ p. p.0) w) at lt

module _ {c : Cache} {m : ℕ → Option ℕ} (h : Implements c m) (ip now : ℕ) where
  times-put :
      (c' : Cache) (n : Ptr) (k : Inserted c h.trie ip c' n) (q : ℕ)
      → put ip now m q ≡ time_at (set_seen c' n now) (lookup q k.trie)
  times-put c' n k q = elim (Bool-cases (q == ip)) [
    | inl same ↦ let e : q ≡ ip = ground arith in rw (same, e, k.found) (ground arith)
    | inr other ↦
        let ne : (q ≡ ip → ⊥) = λ e. false≢true (sym other ∙ ground arith) in
        rw other (
          h.times q ∙ elim (Option-cases (lookup q h.trie)) [
            | inl gone ↦ rw (k.others q ne, gone)
            | inr (x, at_x) ↦
                let at_x' : lookup q k.trie ≡ some x = k.others q ne ∙ at_x in
                let apart : (x == n) ≡ false = ==_of_ne x n (λ e. ne (
                  sym (lookup-ip k.valid q x at_x')
                  ∙ (ap (λ p. (c'.node p).ip) e ∙ lookup-ip k.valid ip n k.found))) in
                rw (at_x', at_x, apart)
                  (ap (λ (t : ℕ). some t) (sym (k.seen x (lookup-below h.valid q x at_x))))
          ])
  ]

  -- `negcache_insert` of an address gives it the present time, and every other address keeps its
  -- time. The address has at most 64 bits; a shift by 64 gives 0.
  pub negcache_insert-Implements :
      ip < 2 ^ 64
      → (c' : Cache) × (negcache_insert zero_shift now c (some ip) ≡ some c')
        × Implements c' (put ip now m)
  unfolding negcache_insert seen_at
  negcache_insert-Implements small =
      let (c', n, e, k) = nc_insert-Inserted h.valid ip small in
      (
        set_seen c' n now,
        ap (seen_at now) e,
        record {
          trie = k.trie;
          valid = set_seen-IsCache c' k.trie n now k.valid;
          times = times-put c' n k;
        },
      )

-- A time is recent enough, and the cache is on.
abbrev pub is_live : (negcache now : ℕ) → Option ℕ → Bool
is_live negcache now none = false
is_live negcache now (some seen) = not (negcache == 0) && leb now (seen + negcache)

abbrev pub is_found : Option (Option Ptr) → Bool
is_found none = false
is_found (some none) = false
is_found (some (some n)) = true

-- `check_neg_cache` ends, and finds an address exactly if its time is recent enough, whatever a
-- shift by 64 gives.
pub check_neg_cache-Implements :
    (shift : ℕ → Bool) {c : Cache} {m : ℕ → Option ℕ}
    → Implements c m
    → (negcache now ip : ℕ)
    → (n : Option Ptr) × (check_neg_cache shift negcache now c ip ≡ some n)
      × (is_found (some n) ≡ is_live negcache now (m ip))
unfolding check_neg_cache recent_at is_recent
check_neg_cache-Implements shift {c} {m} h negcache now ip = elim (Bool-cases (negcache == 0)) [
  | inl off ↦ (none, rw off, elim (Option-cases (m ip)) [ inl e ↦ rw e | inr (s, e) ↦ rw (e, off) ])
  | inr on ↦ elim (Option-cases (lookup ip h.trie)) [
    | inl gone ↦ (
      none,
      rw on (
          ap (recent_at negcache now c)
            (nc_search-lookup h.valid shift ip ∙ ap (λ o. some o) gone)),
      rw (h.times ip, gone),
    )
    | inr (x, at_x) ↦ (
      if leb now ((c.node x).seen + negcache) then some x else none,
      rw on (
          ap (recent_at negcache now c)
            (nc_search-lookup h.valid shift ip ∙ ap (λ o. some o) at_x)),
      rw (h.times ip, at_x, on) (found_if x (leb now ((c.node x).seen + negcache))),
    )
  ]
]
  where
    found_if : (x : Ptr) (b : Bool) → is_found (some (if b then some x else none)) ≡ b
    found_if x true = refl
    found_if x false = refl
