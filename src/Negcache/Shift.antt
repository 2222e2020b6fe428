-- ===== src/Negcache/Shift.antt =====
-- On a machine that takes a shift's count modulo 64, as x86-64 does, GETBIT (x, 64) is the lowest bit.
use bopm.Prelude.{
  ℕ, ◌+◌, ◌<◌, ◌≡◌, refl, sym, ap, ◌∙◌, Bool, true, false, ◌&&◌, none, some, arith, ltb, ◌==◌,
  ==_of_ne, inl, inr, Bool-cases,
}
use mathlib.Core.Bool.{false≢true}
use bopm.Negcache.{
  Ptr, Cnode, Cache, bit, getbit, write, nc_search, first_difference, descend_to, new_node, link_to,
  link_at, add_at, insert_at, nc_insert,
}
use bopm.Negcache.Trie.{
  Trie, root, AllKeys, AllPtrs-map, AllPtrs-forks, AllForks-map, AllForks-map₂, AllKeys-walk, walk,
  lookup,
}
use bopm.Negcache.Represents.{walk-key}
use bopm.Negcache.Link.{Frame, Represents-frame}
use bopm.Negcache.Insert.{IsCache, nc_search-lookup, descend-IsCache, insert_at-new}
use bopm.Negcache.Linking.{linked-p, linked-other, linked-field}

abbrev pub low_shift : ℕ → Bool
low_shift x = bit x 0

module _ {c : Cache} {t : Trie} (h : IsCache c t) (ip : ℕ) (odd : bit ip 0 ≡ true)
    (even : AllKeys (λ k. bit k 0 ≡ false) t) where
  abbrev key : ℕ
  key = (walk ip t).1

  even_key : bit key 0 ≡ false
  even_key = AllKeys-walk (λ k. bit k 0 ≡ false) ip t even

  not_key : (ip == key) ≡ false
  not_key = ==_of_ne ip key (λ e. false≢true (sym even_key ∙ (ap (λ k. bit k 0) (sym e) ∙ odd)))

  differs_at_end : first_difference low_shift 64 key ip ≡ some 64
  unfolding first_difference getbit
  differs_at_end = rw (even_key, odd)

  -- The last loop of `nc_insert` ends at once.
  stops_at_head :
      descend_to low_shift 65 c.node ip 64 c.head (c.node c.head).l ≡ some (c.head, root t)
  unfolding descend_to
  stops_at_head =
      let low : (ltb (c.node (root t)).b 64 && ltb 64 (c.node (root t)).b) ≡ false =
        elim (Bool-cases (ltb (c.node (root t)).b 64)) [ inl lt ↦ ground arith | inr ge ↦ rw ge ] in
      rw (h.head_root, h.head_b, low)

  abbrev lost : Cache
  lost = record c {
    node =
        link_to low_shift (write c.node c.fresh (new_node low_shift ip 64 c.fresh (root t))) ip
          c.head c.fresh;
    fresh = c.fresh + 1;
  }

  insert_lost : nc_insert low_shift c ip ≡ some (lost, c.fresh)
  unfolding nc_insert add_at link_at
  insert_lost =
      ap (insert_at low_shift c ip) (descend-IsCache h low_shift ip)
      ∙ (insert_at-new low_shift c ip (walk ip t).0 key (walk-key low_shift c.node ip 64 t h.nodes)
            64 not_key differs_at_end
          ∙ ap (link_at low_shift c ip 64) stops_at_head)

  head_new : c.head ≡ c.fresh → ⊥
  head_new e = absurd (omega (arith, e, h.head_below))

  lost-Frame : Frame c.fresh c.head c.node lost.node
  lost-Frame = record {
    other = linked-other low_shift c.node ip 64 c.fresh c.head (root t) head_new;
    same_b = field (λ k. k.b) (λ k. refl) (λ k. refl);
    same_ip = field (λ k. k.ip) (λ k. refl) (λ k. refl);
  }
    where
      field :
          (f : Cnode → ℕ)
          → ((m : Cnode) → f (record m { r = c.fresh }) ≡ f m)
          → ((m : Cnode) → f (record m { l = c.fresh }) ≡ f m)
          → (q : Ptr) → (q ≡ c.fresh → ⊥)
          → f (lost.node q) ≡ f (c.node q)
      field = linked-field low_shift c.node ip 64 c.fresh c.head (root t) head_new

  -- The new node hangs at the right of the head, where no search goes.
  lost-head : (lost.node c.head).l ≡ (c.node c.head).l
  unfolding getbit
  lost-head =
      ap (λ k. k.l) (linked-p low_shift c.node ip 64 c.fresh c.head (root t) head_new)
      ∙ rw (h.head_b, odd)

  lost-IsCache : IsCache lost t
  lost-IsCache = record {
    head_b = lost-Frame.same_b c.head head_new ∙ h.head_b;
    head_root = lost-head ∙ h.head_root;
    head_below = omega (arith, h.head_below);
    nodes =
        Represents-frame lost-Frame 64 t h.below
          (AllForks-map (λ y. c.head ≡ y → ⊥) (λ y. y ≡ c.head → ⊥) (λ y ne e. ne (sym e)) t
            h.apart)
          h.nodes;
    split = h.split;
    common = h.common;
    distinct = h.distinct;
    apart = h.apart;
    below = AllPtrs-map (λ q. q < c.fresh) (λ q. q < c.fresh + 1) (λ q lt. omega arith) t h.below;
    keys = h.keys;
    own =
        AllForks-map₂ (λ y. y < c.fresh) (λ y. lookup (c.node y).ip t ≡ some y)
          (λ y. lookup (lost.node y).ip t ≡ some y)
          (λ y lt e.
            ap (λ k. lookup k t) (lost-Frame.same_ip y (λ q. absurd (omega (arith, q, lt)))) ∙ e)
          t (AllPtrs-forks (λ q. q < c.fresh) t h.below) h.own;
    zero_at = h.zero_at;
    owner = h.owner;
  }

-- Where a shift by 64 leaves a number as it is, an address whose lowest bit is set, put into a cache
-- of addresses whose lowest bit is clear, is lost: the insertion ends, and afterwards the search
-- does not find the address, while it gives for every address what it gave before, so that the next
-- such address is lost as well.
pub nc_insert-lost :
    (c : Cache) (t : Trie)
    → IsCache c t
    → (ip : ℕ) → bit ip 0 ≡ true
    → AllKeys (λ k. bit k 0 ≡ false) t
    → (c' : Cache) × (n : Ptr) × (nc_insert low_shift c ip ≡ some (c', n))
      × (nc_search low_shift c' ip ≡ some none)
      × ((q : ℕ) → nc_search low_shift c' q ≡ nc_search low_shift c q)
      × IsCache c' t
unfolding lookup
nc_insert-lost c t h ip odd even =
    let h' = lost-IsCache h ip odd even in
    (
      lost h ip odd even,
      c.fresh,
      insert_lost h ip odd even,
      nc_search-lookup h' low_shift ip ∙ ap (λ o. some o) (rw (lookup, not_key h ip odd even)),
      λ q. nc_search-lookup h' low_shift q ∙ sym (nc_search-lookup h low_shift q),
      h',
    )
