-- ===== src/Negcache/Visit.antt =====
-- The order in which `nc_rebuild` visits the nodes of the old trie.
use bopm.Prelude.{
  ℕ, zero, suc, ◌≤◌, ◌≡◌, refl, sym, ap, ◌∙◌, true, false, Option, none, some, List, [], ◌∷◌, ◌++◌,
  arith, ltb, ◌==◌, ==_of_ne, if◌then◌else◌,
}
use bopm.Negcache.{Ptr, Cache, keep_node, and_keep, nc_rebuild}
use bopm.Negcache.Bits.{zero_shift}
use bopm.Negcache.Trie.{Trie, link, fork, root}
use bopm.Negcache.Forks.{order}
use bopm.Negcache.Represents.{Represents}
use bopm.Negcache.Apart.{Apart}

module _ (negcache now : ℕ) (old : Cache) where
  -- The nodes of a list, one after the other.
  unfoldable pub keep_all : List Ptr → Cache → Option Cache
  keep_all [] new = some new
  keep_all (x ∷ xs) new =
      and_keep (keep_node zero_shift negcache now new (old.node x)) (keep_all xs)

  and_keep_assoc :
      (o : Option Cache) (f g : Cache → Option Cache)
      → and_keep o (λ c. and_keep (f c) g) ≡ and_keep (and_keep o f) g
  and_keep_assoc none f g = refl
  and_keep_assoc (some c) f g = refl

  keep_all-append :
      (xs ys : List Ptr) (new : Cache)
      → keep_all (xs ++ ys) new ≡ and_keep (keep_all xs new) (keep_all ys)
  unfolding keep_all
  keep_all-append [] ys new = refl
  keep_all-append (x ∷ xs) ys new =
      ap (and_keep (keep_node zero_shift negcache now new (old.node x)))
        (λ i c. keep_all-append xs ys c i)
      ∙ and_keep_assoc (keep_node zero_shift negcache now new (old.node x)) (keep_all xs)
          (keep_all ys)

  and_keep-some : (o : Option Cache) → and_keep o (λ c. some c) ≡ o
  and_keep-some none = refl
  and_keep-some (some c) = refl

  abbrev pub visit : ℕ → Cache → Ptr → Option Cache
  visit fuel = nc_rebuild zero_shift fuel negcache now old

  -- A branch below a node that tests bit `pb`.
  abbrev branch : ℕ → ℕ → Ptr → Cache → Option Cache
  branch fuel pb x c = if ltb (old.node x).b pb then visit fuel c x else some c

  visit-node :
      (fuel : ℕ) (new : Cache) (x : Ptr)
      → (x ≡ old.head → ⊥)
      → visit (suc fuel) new x
        ≡ and_keep
            (and_keep
              (branch fuel (old.node x).b (old.node x).l new)
              (branch fuel (old.node x).b (old.node x).r))
            (λ c. keep_node zero_shift negcache now c (old.node x))
  unfolding nc_rebuild
  visit-node fuel new x ne = let other = ==_of_ne x old.head ne in rw other

  pub visit-head :
      (fuel : ℕ) (new : Cache) (x : Ptr) → x ≡ old.head → visit (suc fuel) new x ≡ some new
  unfolding nc_rebuild
  visit-head fuel new x e = let here : (x == old.head) ≡ true = ground arith in rw here

  pub branch-order :
      (t : Trie) (fuel pb : ℕ)
      → Represents old.node pb t
      → Apart old.head t
      → pb ≤ fuel
      → (new : Cache) → branch fuel pb (root t) new ≡ keep_all (order t) new
  unfolding order keep_all keep_node
  branch-order (link x k) fuel pb h apart le new =
      let up : ltb (old.node x).b pb ≡ false = ground (arith, h.0) in rw up
  branch-order (fork x b l r) zero pb h apart le new = absurd (omega (arith, h.1))
  branch-order (fork x b l r) (suc fuel) pb h apart le new =
      let down : ltb (old.node x).b pb ≡ true = ground (arith, h.0, h.1) in
      let lower : b ≤ fuel = omega (arith, h.1) in
      let left = branch-order l fuel b h.4 apart.1 lower new in
      let right : branch fuel b (root r) ≡ keep_all (order r) =
        λ i c. branch-order r fuel b h.5 apart.2 lower c i in
      let last : keep_all (x ∷ []) ≡ (λ c. keep_node zero_shift negcache now c (old.node x)) =
        λ i c. and_keep-some (keep_node zero_shift negcache now c (old.node x)) i in
      rw down (
        visit-node fuel new x (λ e. apart.0 (sym e))
        ∙ rw (h.0, h.2, h.3, left, right)
            (sym (
              keep_all-append (order l) (order r ++ x ∷ []) new
              ∙ (ap (and_keep (keep_all (order l) new))
                    (λ i c. keep_all-append (order r) (x ∷ []) c i)
                  ∙ (and_keep_assoc (keep_all (order l) new) (keep_all (order r))
                        (keep_all (x ∷ []))
                      ∙ ap (and_keep (and_keep (keep_all (order l) new) (keep_all (order r))))
                          last)))))
