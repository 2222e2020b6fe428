-- ===== src/LinkedList/Remove.antt =====
-- What `list_remove` makes of the list that the memory holds.
use bopm.Prelude.{
  ℕ, ◌%◌, ◌^◌, ◌≡◌, refl, sym, ap, ◌∙◌, inl, inr, true, false, none, some, List, [], ◌∷◌, ◌++◌,
  arith, ==_of_ne, length, length-append, ◌==◌,
}
use bopm.LinkedList.{
  Ptr, Node, ListT, Store, write, change, set_next, set_prev, fewer, is_at, remove_head,
  remove_tail, link_back, unlink, with_nodes, returning, list_remove,
}
use bopm.LinkedList.Segment.{
  first, last, Segment, NotIn, Distinct, last-append, Segment-split, Segment-append, Segment-frame,
  change-other, change-All, All-split, Distinct-split, last-cases, is_at-last, snoc_append,
  Segment-set_next, Segment-set_prev,
}
use bopm.LinkedList.Add.{IsList, IsList-write}

fewer_elements :
    (e : ℕ) (xs : List Ptr) (x : Ptr) (ys : List Ptr)
    → e ≡ length (xs ++ x ∷ ys) % 2 ^ 32
    → fewer e ≡ length (xs ++ ys) % 2 ^ 32
fewer_elements e xs x ys h = omega (arith, h, length-append xs (x ∷ ys), length-append xs ys)

module _ (s : Store) (l x : Ptr) where
  abbrev Removed : List Ptr → Type 0
  Removed xs = (s' : Store) × (list_remove s (some l) (some x) ≡ some (s', some x)) × IsList s' l xs

  remove-alone : IsList s l (x ∷ []) → Removed []
  unfolding list_remove remove_head
  remove-alone h =
      let here : (x == x) ≡ true = ground arith in
      (
        record s {
          list =
              write s.list l
                (record { head = none; tail = none; elements = fewer (s.list l).elements });
        },
        rw (h.head, here, h.segment.1),
        IsList-write s s.node l
            (record { head = none; tail = none; elements = fewer (s.list l).elements }) [] refl refl
            (fewer_elements (s.list l).elements [] x [] h.elements) tt tt,
      )

  remove-first : (v : Ptr) (ys : List Ptr) → IsList s l (x ∷ v ∷ ys) → Removed (v ∷ ys)
  unfolding list_remove remove_head
  remove-first v ys h =
      let here : (x == x) ≡ true = ground arith in
      let r : ListT = record {
        head = some v;
        tail = (s.list l).tail;
        elements = fewer (s.list l).elements;
      } in
      (
        record s { node = change s.node v (set_prev none); list = write s.list l r },
        rw (h.head, here, h.segment.1),
        IsList-write s (change s.node v (set_prev none)) l r (v ∷ ys) refl h.tail
            (fewer_elements (s.list l).elements [] x (v ∷ ys) h.elements)
            (Segment-set_prev s.node (some x) none v ys none h.distinct.1.0 h.segment.2)
            h.distinct.1,
      )

  module _ (zs : List Ptr) (u : Ptr) (ys : List Ptr)
      (h : IsList s l ((zs ++ u ∷ []) ++ x ∷ ys)) where
    abbrev xs : List Ptr
    xs = zs ++ u ∷ []

    abbrev parts : Segment s.node none xs (some x) × Segment s.node (last none xs) (x ∷ ys) none
    parts = Segment-split s.node none xs (x ∷ ys) none h.segment

    abbrev apart : NotIn x xs × NotIn x ys × Distinct (xs ++ ys)
    apart = Distinct-split xs x ys h.distinct

    -- `u` stands nowhere else.
    alone : NotIn u zs × NotIn u ys × Distinct (zs ++ ys)
    alone = let d = apart.2 in let e = snoc_append zs u ys in Distinct-split zs u ys (rw e at d)

    not_head : is_at (s.list l).head x ≡ false
    not_head =
        let e : (s.list l).head ≡ first (zs ++ u ∷ x ∷ ys) none =
          h.head ∙ ap (λ zs. first zs none) (snoc_append zs u (x ∷ ys)) in
        rw e (first_other zs apart.0)
      where
        first_other :
            (zs : List Ptr)
            → NotIn x (zs ++ u ∷ [])
            → is_at (first (zs ++ u ∷ x ∷ ys) none) x ≡ false
        first_other [] new = ==_of_ne u x new.0
        first_other (z ∷ zs) new = ==_of_ne z x new.0

    prev_u : (s.node x).prev ≡ some u
    prev_u = parts.1.0 ∙ last-append none zs (u ∷ [])

    same_head : (ws : List Ptr) → (s.list l).head ≡ first (xs ++ ws) none
    same_head ws = h.head ∙ first_same zs
      where
        first_same :
            (zs : List Ptr)
            → first ((zs ++ u ∷ []) ++ x ∷ ys) none ≡ first ((zs ++ u ∷ []) ++ ws) none
        first_same [] = refl
        first_same (z ∷ zs) = refl

  remove-last :
      (zs : List Ptr) (u : Ptr)
      → IsList s l ((zs ++ u ∷ []) ++ x ∷ [])
      → Removed ((zs ++ u ∷ []) ++ [])
  unfolding list_remove remove_tail
  remove-last zs u h =
      let xs = zs ++ u ∷ [] in
      let r : ListT = record {
        head = (s.list l).head;
        tail = some u;
        elements = fewer (s.list l).elements;
      } in
      let here : (x == x) ≡ true = ground arith in
      let at_tail : is_at (s.list l).tail x ≡ true =
        ap (λ q. is_at q x) (h.tail ∙ last-append none xs (x ∷ [])) ∙ here in
      let prev = prev_u zs u [] h in
      let cut =
        Segment-set_next s.node none zs u (some x) none (alone zs u [] h).0 (parts zs u [] h).0 in
      (
        record s { node = change s.node u (set_next none); list = write s.list l r },
        rw (not_head zs u [] h, at_tail, prev),
        IsList-write s (change s.node u (set_next none)) l r (xs ++ []) (same_head zs u [] h [])
            (sym (last-append none xs [] ∙ last-append none zs (u ∷ [])))
            (fewer_elements (s.list l).elements xs x [] h.elements)
            (Segment-append (change s.node u (set_next none)) none xs [] none cut tt)
            (apart zs u [] h).2,
      )

  module _ (zs : List Ptr) (u v : Ptr) (ys : List Ptr)
      (h : IsList s l ((zs ++ u ∷ []) ++ x ∷ v ∷ ys)) where
    abbrev before : List Ptr
    before = zs ++ u ∷ []

    abbrev node₁ : Ptr → Node
    node₁ = change s.node u (set_next (some v))

    abbrev node₂ : Ptr → Node
    node₂ = change node₁ v (set_prev (some u))

    x_u : x ≡ u → ⊥
    x_u e = (All-split (λ y. y ≡ x → ⊥) zs (u ∷ []) (apart zs u (v ∷ ys) h).0).1.0 (sym e)

    unlinked : unlink s.node x (some u) ≡ some node₂
    unfolding unlink
    unlinked =
        ap (λ q. link_back (change s.node u (set_next q)) (change s.node u (set_next q) x))
          (parts zs u (v ∷ ys) h).1.1
        ∙ (ap (link_back node₁) (change-other s.node u x (set_next (some v)) x_u)
            ∙ rw ((parts zs u (v ∷ ys) h).1.1, prev_u zs u (v ∷ ys) h) refl)

    not_tail : is_at (s.list l).tail x ≡ false
    not_tail =
        ap (λ q. is_at q x) (h.tail ∙ last-append none before (x ∷ v ∷ ys))
        ∙ is_at-last (some x) v ys x (apart zs u (v ∷ ys) h).1

    linked : Segment node₂ none (before ++ v ∷ ys) none
    linked =
        let d = Distinct-split before v ys (apart zs u (v ∷ ys) h).2 in
        let front =
          Segment-set_next s.node none zs u (some x) (some v) (alone zs u (v ∷ ys) h).0
            (parts zs u (v ∷ ys) h).0 in
        let back =
          Segment-frame s.node node₁ (some x) (v ∷ ys) none
            (change-All s.node u (set_next (some v)) (v ∷ ys) (alone zs u (v ∷ ys) h).1)
            (parts zs u (v ∷ ys) h).1.2 in
        let joined : Segment node₂ (last none before) (v ∷ ys) none =
          rw (last-append none zs (u ∷ []))
            (Segment-set_prev node₁ (some x) (some u) v ys none d.1 back) in
        Segment-append node₂ none before (v ∷ ys) none
          (Segment-frame node₁ node₂ none before (some v)
            (change-All node₁ v (set_prev (some u)) before d.0) front)
          joined

    remove-inside : Removed (before ++ v ∷ ys)
    unfolding list_remove
    remove-inside =
        let r : ListT = record (s.list l) { elements = fewer (s.list l).elements } in
        (
          record s { node = node₂; list = write s.list l r },
          rw (not_head zs u (v ∷ ys) h, not_tail, prev_u zs u (v ∷ ys) h)
              (ap (λ o. returning x (with_nodes s l o)) unlinked),
          IsList-write s node₂ l r (before ++ v ∷ ys) (same_head zs u (v ∷ ys) h (v ∷ ys))
              (h.tail
                ∙ (last-append none before (x ∷ v ∷ ys) ∙ sym (last-append none before (v ∷ ys))))
              (fewer_elements (s.list l).elements before x (v ∷ ys) h.elements) linked
              (apart zs u (v ∷ ys) h).2,
        )

  -- `list_remove` of a node of a list takes it out, wherever it stands, and reads nothing through NULL.
  pub list_remove-IsList : (xs ys : List Ptr) → IsList s l (xs ++ x ∷ ys) → Removed (xs ++ ys)
  list_remove-IsList xs [] h = elim (last-cases xs) [
    | inl e ↦ let h' : IsList s l ([] ++ x ∷ []) = rw e at h in rw e (remove-alone h')
    | inr (zs, u, e) ↦
        let h' : IsList s l ((zs ++ u ∷ []) ++ x ∷ []) = rw e at h in rw e (remove-last zs u h')
  ]
  list_remove-IsList xs (v ∷ ys) h = elim (last-cases xs) [
    | inl e ↦ let h' : IsList s l ([] ++ x ∷ v ∷ ys) = rw e at h in rw e (remove-first v ys h')
    | inr (zs, u, e) ↦
        let h' : IsList s l ((zs ++ u ∷ []) ++ x ∷ v ∷ ys) = rw e at h in
        rw e (remove-inside zs u v ys h')
  ]
