-- ===== src/Negcache/Linking.antt =====
-- The memory in which `nc_insert` has linked its new node.
use bopm.Prelude.{
  ℕ, ◌<◌, ◌≡◌, refl, sym, ap, ◌∙◌, Bool, true, false, arith, ◌==◌, if◌then◌else◌, inl, inr,
  Bool-cases,
}
use mathlib.Core.Bool.{false≢true}
use bopm.Negcache.{Ptr, Cnode, getbit, write, new_node, link_to}
use bopm.Negcache.Bits.{getbit-bit}
use bopm.Negcache.Link.{Linked}

write-other : (node : Ptr → Cnode) (p q : Ptr) (n : Cnode) → (q ≡ p → ⊥) → write node p n q ≡ node q
write-other node p q n ne = ground arith

write-here : (node : Ptr → Cnode) (p : Ptr) (n : Cnode) → write node p n p ≡ n
write-here node p n = ground arith

module _ (shift : ℕ → Bool) (node : Ptr → Cnode) (ip i n p x : ℕ) (ne : p ≡ n → ⊥) where
  abbrev side : Bool
  side = getbit shift ip (node p).b

  abbrev linked : Ptr → Cnode
  linked = link_to shift (write node n (new_node shift ip i n x)) ip p n

  pub linked-p : linked p ≡ (if side then record (node p) { r = n } else record (node p) { l = n })
  unfolding link_to
  linked-p =
      write-here (write node n (new_node shift ip i n x)) p _
      ∙ ap (λ m. if getbit shift ip m.b then record m { r = n } else record m { l = n })
          (write-other node n p (new_node shift ip i n x) ne)

  linked-n : linked n ≡ new_node shift ip i n x
  unfolding link_to
  linked-n =
      write-other (write node n (new_node shift ip i n x)) p n _ (λ e. ne (sym e))
      ∙ write-here node n (new_node shift ip i n x)

  pub linked-other : (q : Ptr) → (q ≡ n → ⊥) → (q ≡ p → ⊥) → linked q ≡ node q
  unfolding link_to
  linked-other q not_n not_p =
      write-other (write node n (new_node shift ip i n x)) p q _ not_p
      ∙ write-other node n q (new_node shift ip i n x) not_n

  -- A field that the link leaves as it is.
  pub linked-field :
      (f : Cnode → ℕ)
      → ((m : Cnode) → f (record m { r = n }) ≡ f m)
      → ((m : Cnode) → f (record m { l = n }) ≡ f m)
      → (q : Ptr) → (q ≡ n → ⊥)
      → f (linked q) ≡ f (node q)
  linked-field f hr hl q not_n = elim (Bool-cases (q == p)) [
    | inr other ↦ ap f (linked-other q not_n (λ e. false≢true (sym other ∙ ground arith)))
    | inl here ↦
        let e : q ≡ p = ground arith in
        rw e (
          ap f linked-p ∙ elim (Bool-cases side) [
            | inl right ↦ rw right (hr (node p))
            | inr left ↦ rw left (hl (node p))
          ])
  ]

  side_l :
      (b : Bool)
      → (if b then record (node p) { r = n } else record (node p) { l = n }).l
        ≡ (if b then (node p).l else n)
  side_l true = refl
  side_l false = refl

  side_r :
      (b : Bool)
      → (if b then record (node p) { r = n } else record (node p) { l = n }).r
        ≡ (if b then n else (node p).r)
  side_r true = refl
  side_r false = refl

  pub linked-Linked : i < 64 → Linked shift ip i n p x side node linked
  unfolding new_node
  linked-Linked lt =
      let test = getbit-bit shift ip i lt in
      record {
        test = refl;
        new_ip = ap (λ m. m.ip) linked-n;
        new_b = ap (λ m. m.b) linked-n;
        new_l = ap (λ m. m.l) linked-n ∙ ap (λ b. if b then x else n) test;
        new_r = ap (λ m. m.r) linked-n ∙ ap (λ b. if b then n else x) test;
        set_l = ap (λ m. m.l) linked-p ∙ side_l side;
        set_r = ap (λ m. m.r) linked-p ∙ side_r side;
        other = linked-other;
        same_b = linked-field (λ m. m.b) (λ m. refl) (λ m. refl);
        same_ip = linked-field (λ m. m.ip) (λ m. refl) (λ m. refl);
        same_seen = linked-field (λ m. m.seen) (λ m. refl) (λ m. refl);
      }
