-- ===== src/Negcache/Rebuild.antt =====
-- `negcache_rebuild`: the nodes that are not too old, in a new trie.
use bopm.Prelude.{
  ℕ, ◌+◌, ◌^◌, ◌<◌, ◌≡◌, sym, ap, ◌∙◌, true, Option, none, some, arith, ltb, ◌==◌, if◌then◌else◌,
  inl, inr, Bool-cases, Option-cases, All,
}
use mathlib.Core.Bool.{false≢true}
use bopm.Negcache.{Ptr, Cache, nc_init, negcache_rebuild}
use bopm.Negcache.Bits.{zero_shift}
use bopm.Negcache.Trie.{
  Trie, link, fork, root, walk, lookup, lookup-walk, AllKeys-walk, AllForks-map₂, some_inj,
}
use bopm.Negcache.Forks.{order, has_ptr-order, All-order}
use bopm.Negcache.Insert.{IsCache}
use bopm.Negcache.Times.{Implements, empty, lookup-ip, nc_init-Implements}
use bopm.Negcache.Visit.{keep_all, visit, visit-head, branch-order}
use bopm.Negcache.Kept.{put_kept, keep_all-Implements, put_kept-other, put_kept-here}

-- A time that is recent enough to be kept.
abbrev pub keep_time : (negcache now : ℕ) → Option ℕ → Option ℕ
keep_time negcache now none = none
keep_time negcache now (some seen) = if ltb now (seen + negcache) then some seen else none

-- The times that `negcache_rebuild` keeps. The address 0 is at the new head.
abbrev pub keep_times : (negcache now : ℕ) → (ℕ → Option ℕ) → ℕ → Option ℕ
keep_times negcache now m q = if q == 0 then some 0 else keep_time negcache now (m q)

module _ (negcache now : ℕ) {c : Cache} {m : ℕ → Option ℕ} (h : Implements c m) (p : Ptr) where
  abbrev own : All (λ x. lookup (c.node x).ip h.trie ≡ some x) (order h.trie)
  own = All-order (λ x. lookup (c.node x).ip h.trie ≡ some x) h.trie h.valid.own

  All-own :
      (P : Ptr → Type 0)
      → ((x : Ptr) → (c.head ≡ x → ⊥) → lookup (c.node x).ip h.trie ≡ some x → P x)
      → All P (order h.trie)
  All-own P f = All-order P h.trie (
      AllForks-map₂ (λ x. c.head ≡ x → ⊥) (λ x. lookup (c.node x).ip h.trie ≡ some x) P f h.trie
        h.valid.apart h.valid.own)

  small : All (λ x. (c.node x).ip < 2 ^ 64) (order h.trie)
  small =
      All-own (λ x. (c.node x).ip < 2 ^ 64)
        (λ x apart e.
          let w = lookup-walk (c.node x).ip h.trie x e in
          let lt = AllKeys-walk (λ k. k < 2 ^ 64) (c.node x).ip h.trie h.valid.keys in
          rw (ap (λ w. w.1) w) at lt)

  put_kept-keep_times :
      (q : ℕ) → put_kept negcache now c (order h.trie) empty q ≡ keep_times negcache now m q
  put_kept-keep_times q = elim (Bool-cases (q == 0)) [
    | inl zero_q ↦
        let e : q ≡ 0 = ground arith in
        put_kept-other negcache now c (order h.trie) empty q (
          All-own (λ x. (c.node x).ip ≡ q → ⊥)
            (λ x apart at_x e'. apart (
              some_inj c.head x
                (sym h.valid.zero_at ∙ (ap (λ k. lookup k h.trie) (sym (e' ∙ e)) ∙ at_x)))))
        ∙ rw zero_q
    | inr other ↦
        let nz : (q ≡ 0 → ⊥) = λ e. false≢true (sym other ∙ ground arith) in
        elim (Option-cases (lookup q h.trie)) [
          | inl gone ↦
              put_kept-other negcache now c (order h.trie) empty q (
                All-own (λ x. (c.node x).ip ≡ q → ⊥)
                  (λ x apart at_x e.
                    let no : none ≡ some x =
                      sym gone ∙ (ap (λ k. lookup k h.trie) (sym e) ∙ at_x) in
                    absurd (cc)))
              ∙ rw (other, h.times q, gone)
          | inr (x, at_q) ↦
              put_kept-here negcache now c q x (lookup-ip h.valid q x at_q) (order h.trie) empty
                (All-own (λ y. (c.node y).ip ≡ q → y ≡ x)
                  (λ y apart at_y e.
                    some_inj y x (sym at_y ∙ (ap (λ k. lookup k h.trie) e ∙ at_q))))
                (rw other) (has_ptr-order x h.trie (h.valid.owner q x at_q nz))
              ∙ rw (other, h.times q, at_q)
        ]
  ]

  -- An empty trie is the head alone.
  visit-root :
      (t : Trie)
      → IsCache c t
      → (new : Cache) → visit negcache now c 65 new (root t) ≡ keep_all negcache now c (order t) new
  unfolding keep_all order walk
  visit-root (link x k) valid new =
      let same : x ≡ c.head = ap (λ w. w.0) (lookup-walk 0 (link x k) c.head valid.zero_at) in
      visit-head negcache now c 64 new x same
  visit-root (fork x b l r) valid new =
      let down : ltb (c.node x).b 64 ≡ true = ground (arith, valid.nodes.0, valid.nodes.1) in
      let e =
        branch-order negcache now c (fork x b l r) 65 64 valid.nodes valid.apart (omega arith)
          new in
      rw down at e

  -- `negcache_rebuild` ends, with a cache of the addresses whose time is less than the configured
  -- number of seconds past, each with its time; the address 0 is at the new head with time 0. A
  -- shift by 64 gives 0.
  pub negcache_rebuild-Implements :
      (c' : Cache) × (negcache_rebuild zero_shift negcache now c p ≡ some c')
      × Implements c' (keep_times negcache now m)
  unfolding negcache_rebuild
  negcache_rebuild-Implements =
      let (c', e, h') =
        keep_all-Implements negcache now c (order h.trie) small (nc_init-Implements p) in
      (
        c',
        ap (visit negcache now c 65 (nc_init p)) h.valid.head_root
            ∙ (visit-root h.trie h.valid (nc_init p) ∙ e),
        record {
          trie = h'.trie;
          valid = h'.valid;
          times = λ q. sym (put_kept-keep_times q) ∙ h'.times q;
        },
      )
