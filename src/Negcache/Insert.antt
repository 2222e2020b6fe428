-- ===== src/Negcache/Insert.antt =====
-- `nc_search` and `nc_insert` on the memory of a trie.
use bopm.Prelude.{
  ℕ, ◌+◌, ◌^◌, ◌<◌, ◌≡◌, refl, sym, ap, ◌∙◌, Bool, true, false, Option, some, arith, ◌==◌, inl, inr,
  Bool-cases,
}
use mathlib.Core.Bool.{false≢true}
use bopm.Negcache.{
  Ptr, Cache, bit, getbit, write, descend, nc_search, first_difference, descend_to, new_node,
  link_to, found_at, link_at, add_at, insert_at, nc_insert,
}
use bopm.Negcache.Bits.{zero_shift, FirstDifference, first_difference_lem}
use bopm.Negcache.Trie.{
  Trie, root, AllKeys, AllForks, AllPtrs, walk, lookup, graft, IsSplit, IsCommon, AllKeys-walk,
  AllKeys-graft, AllForks-graft, AllPtrs-graft, AllPtrs-map, AllPtrs-forks, AllForks-map₂,
  lookup-walk, some_inj,
}
use bopm.Negcache.Graft.{IsSplit-graft, IsCommon-graft, walk-graft, lookup-graft_other, not_self}
use bopm.Negcache.Forks.{IsFork, IsFork-graft, IsFork-graft_new}
use bopm.Negcache.Represents.{Represents, spot, descend-walk, descend_to-spot, walk-key}
use bopm.Negcache.Linking.{linked-Linked}
use bopm.Negcache.Apart.{Apart, Distinct, Distinct-graft}
use bopm.Negcache.Link.{Linked, spot-stays, slot, Represents-graft}

-- The memory of a cache is the trie `t` below its head. The key of a fork is found at it; the head
-- has the key 0, and every other key is found at a fork.
pub record IsCache (c : Cache) (t : Trie) : Type 0 where
  pub head_b : (c.node c.head).b ≡ 64
  pub head_root : (c.node c.head).l ≡ root t
  pub head_below : c.head < c.fresh
  pub nodes : Represents c.node 64 t
  pub split : IsSplit t
  pub common : IsCommon t
  pub distinct : Distinct t
  pub apart : Apart c.head t
  pub below : AllPtrs (λ q. q < c.fresh) t
  pub keys : AllKeys (λ k. k < 2 ^ 64) t
  pub own : AllForks (λ x. lookup (c.node x).ip t ≡ some x) t
  pub zero_at : lookup 0 t ≡ some c.head
  pub owner : (q : ℕ) (x : Ptr) → lookup q t ≡ some x → (q ≡ 0 → ⊥) → IsFork x t

module _ {c : Cache} {t : Trie} (h : IsCache c t) where
  pub descend-IsCache :
      (shift : ℕ → Bool) (ip : ℕ)
      → descend shift 65 c.node ip c.head (c.node c.head).l ≡ some (walk ip t).0
  descend-IsCache shift ip =
      rw h.head_root
        (descend-walk shift c.node ip 65 c.head 64 t h.head_b (omega arith) (omega arith) h.nodes)

  pub nc_search-lookup : (shift : ℕ → Bool) (ip : ℕ) → nc_search shift c ip ≡ some (lookup ip t)
  unfolding nc_search lookup walk
  nc_search-lookup shift ip = ap (found_at c ip) (descend-IsCache shift ip) ∙ found
    where
      found : found_at c ip (some (walk ip t).0) ≡ some (lookup ip t)
      found = rw (found_at, lookup, walk-key shift c.node ip 64 t h.nodes)

-- The cache after `nc_insert` has given the node `n` for the address `ip`.
pub record Inserted (c : Cache) (t : Trie) (ip : ℕ) (c' : Cache) (n : Ptr) : Type 0 where
  pub trie : Trie
  pub valid : IsCache c' trie
  pub found : lookup ip trie ≡ some n
  pub others : (other : ℕ) → (other ≡ ip → ⊥) → lookup other trie ≡ lookup other t
  pub seen : (q : Ptr) → q < c.fresh → (c'.node q).seen ≡ (c.node q).seen

module _ (shift : ℕ → Bool) (c : Cache) (ip : ℕ) (t : Ptr) (key : ℕ)
    (at_key : (c.node t).ip ≡ key) where
  insert_at-old : (ip == key) ≡ true → insert_at shift c ip (some t) ≡ some (c, t)
  unfolding insert_at
  insert_at-old same = rw (at_key, same)

  pub insert_at-new :
      (i : ℕ)
      → (ip == key) ≡ false
      → first_difference shift 64 key ip ≡ some i
      → insert_at shift c ip (some t) ≡ add_at shift c ip (some i)
  unfolding insert_at
  insert_at-new i other e = rw (at_key, other) (ap (add_at shift c ip) e)

module _ {c : Cache} {t : Trie} (h : IsCache c t) (ip : ℕ) (small : ip < 2 ^ 64) where
  abbrev key : ℕ
  key = (walk ip t).1

  abbrev start : Option Ptr
  start = some (walk ip t).0

  lookup_found : (s : Trie) (n : Ptr) → walk ip s ≡ (n, ip) → lookup ip s ≡ some n
  unfolding lookup
  lookup_found s n e = rw e (ground arith)

  module _ (i : ℕ) (d : FirstDifference key ip i) where
    abbrev p : Ptr
    p = (spot ip i c.head t).0

    abbrev x : Ptr
    x = (spot ip i c.head t).1

    abbrev n : Ptr
    n = c.fresh

    abbrev c' : Cache
    c' = record c {
      node = link_to zero_shift (write c.node n (new_node zero_shift ip i n x)) ip p n;
      fresh = c.fresh + 1;
    }

    p-lt : p < n
    p-lt = spot-stays (λ q. q < n) ip i c.head t h.head_below (AllPtrs-forks (λ q. q < n) t h.below)

    head_new : c.head ≡ n → ⊥
    head_new e = absurd (omega (arith, e, h.head_below))

    abbrev memory : Linked zero_shift ip i n p x (getbit zero_shift ip (c.node p).b) c.node c'.node
    memory = linked-Linked zero_shift c.node ip i n p x (λ e. absurd (omega (arith, e, p-lt))) d.0

    past_end : getbit zero_shift ip 64 ≡ false
    unfolding getbit
    past_end = refl

    found_new : lookup ip (graft ip i n t) ≡ some n
    found_new = lookup_found (graft ip i n t) n (walk-graft ip i n t h.split h.common d)

    -- What was found before is not the new address.
    still : (q : ℕ) (y : Ptr) → lookup q t ≡ some y → lookup q (graft ip i n t) ≡ some y
    still q y e =
        let ne : (q ≡ ip → ⊥) = λ q_ip.
          let key_ip : key ≡ ip =
            ap (λ w. w.1) (lookup-walk ip t y (ap (λ k. lookup k t) (sym q_ip) ∙ e)) in
          not_self (bit ip i) (ap (λ k. bit k i) (sym key_ip) ∙ d.1) in
        lookup-graft_other q ip i n t ne h.split h.common d ∙ e

    own_old :
        (y : Ptr)
        → y < n
        → lookup (c.node y).ip t ≡ some y
        → lookup (c'.node y).ip (graft ip i n t) ≡ some y
    own_old y lt e =
        ap (λ k. lookup k (graft ip i n t)) (memory.same_ip y (λ q. absurd (omega (arith, q, lt))))
        ∙ still (c.node y).ip y e

    added-valid : IsCache c' (graft ip i n t)
    added-valid =
        let test : getbit zero_shift ip (c.node c.head).b ≡ false =
          ap (getbit zero_shift ip) h.head_b ∙ past_end in
        record {
          head_b = memory.same_b c.head head_new ∙ h.head_b;
          head_root = (slot memory c.head false t test h.head_root refl head_new h.apart).0;
          head_below = omega (arith, h.head_below);
          nodes =
              Represents-graft memory c.head 64 t (omega arith) d.0 refl h.below h.apart h.distinct
                h.split h.common d h.nodes;
          split = IsSplit-graft ip i n t h.split h.common d;
          common = IsCommon-graft ip i n t h.split h.common d;
          distinct = Distinct-graft ip i n t h.below h.distinct;
          apart = AllForks-graft (λ y. c.head ≡ y → ⊥) ip i n t head_new h.apart;
          below =
              AllPtrs-graft (λ q. q < n + 1) ip i n t (omega arith)
                (AllPtrs-map (λ q. q < n) (λ q. q < n + 1) (λ q lt. omega arith) t h.below);
          keys = AllKeys-graft (λ k. k < 2 ^ 64) ip i n t small h.keys;
          own =
              AllForks-graft (λ y. lookup (c'.node y).ip (graft ip i n t) ≡ some y) ip i n t
                (ap (λ k. lookup k (graft ip i n t)) memory.new_ip ∙ found_new)
                (AllForks-map₂ (λ y. y < n) (λ y. lookup (c.node y).ip t ≡ some y)
                  (λ y. lookup (c'.node y).ip (graft ip i n t) ≡ some y) own_old t
                  (AllPtrs-forks (λ q. q < n) t h.below) h.own);
          zero_at = still 0 c.head h.zero_at;
          owner = λ q y e nz. elim (Bool-cases (q == ip)) [
            | inl same ↦
                let q_ip : q ≡ ip = ground arith in
                let at : n ≡ y =
                  some_inj n y
                    (sym found_new ∙ (ap (λ k. lookup k (graft ip i n t)) (sym q_ip) ∙ e)) in
                rw (sym at) (IsFork-graft_new ip i n t)
            | inr other ↦
                let ne : (q ≡ ip → ⊥) = λ e'. false≢true (sym other ∙ ground arith) in
                IsFork-graft y ip i n t
                  (h.owner q y (sym (lookup-graft_other q ip i n t ne h.split h.common d) ∙ e) nz)
          ];
        }

    added : (add_at zero_shift c ip (some i) ≡ some (c', n)) × Inserted c t ip c' n
    unfolding add_at link_at
    added = (
      ap (link_at zero_shift c ip i) way ∙ result,
      record {
        trie = graft ip i n t;
        valid = added-valid;
        found = found_new;
        others = λ other ne. lookup-graft_other other ip i n t ne h.split h.common d;
        seen = λ q lt. memory.same_seen q (λ e. absurd (omega (arith, e, lt)));
      },
    )
      where
        way :
            descend_to zero_shift 65 c.node ip i c.head (c.node c.head).l
            ≡ some (spot ip i c.head t)
        way = rw h.head_root (
            descend_to-spot zero_shift c.node ip i 65 c.head 64 t h.head_b (omega arith)
              (omega arith) h.nodes)

        result : link_at zero_shift c ip i (some (spot ip i c.head t)) ≡ some (c', n)
        result = refl

  pub nc_insert-Inserted :
      (c' : Cache) × (n : Ptr) × (nc_insert zero_shift c ip ≡ some (c', n)) × Inserted c t ip c' n
  unfolding nc_insert
  nc_insert-Inserted = elim (Bool-cases (ip == key)) [
    | inl same ↦
        let e : key ≡ ip = ground arith in
        (
          c,
          (walk ip t).0,
          begin ∙ insert_at-old zero_shift c ip (walk ip t).0 key at_key same,
          record {
            trie = t;
            valid = h;
            found = lookup_found t (walk ip t).0 (ap (λ k. ((walk ip t).0, k)) e);
            others = λ other ne. refl;
            seen = λ q lt. refl;
          },
        )
    | inr other ↦
        let key_small = AllKeys-walk (λ k. k < 2 ^ 64) ip t h.keys in
        let (i, e, d) =
          first_difference_lem key ip key_small small
            (λ e. false≢true (sym other ∙ ground arith)) in
        (
          c' i d,
          c.fresh,
          begin
              ∙ (insert_at-new zero_shift c ip (walk ip t).0 key at_key i other e ∙ (added i d).0),
          (added i d).1,
        )
  ]
    where
      begin : nc_insert zero_shift c ip ≡ insert_at zero_shift c ip start
      begin = ap (insert_at zero_shift c ip) (descend-IsCache h zero_shift ip)

      at_key : (c.node (walk ip t).0).ip ≡ key
      at_key = walk-key zero_shift c.node ip 64 t h.nodes
