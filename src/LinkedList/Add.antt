-- ===== src/LinkedList/Add.antt =====
-- What `list_create` and `list_add` make of the list that the memory holds.
use bopm.Prelude.{
  ℕ, ◌+◌, ◌%◌, ◌^◌, ◌≡◌, refl, sym, ap, ◌∙◌, inl, inr, none, some, List, [], ◌∷◌, ◌++◌, arith, All,
  length, length-append,
}
use bopm.LinkedList.{
  Ptr, Node, ListT, Store, write, change, set_next, set_prev, more, list_create, add_behind,
  list_add,
}
use bopm.LinkedList.Segment.{
  first, last, Segment, NotIn, Distinct, last-append, Segment-split, Segment-append, Segment-frame,
  change-other, change-here, All-split, Distinct-split, Distinct-snoc, last-cases,
}

-- The list at `l` is the row of the nodes `xs`.
pub record IsList (s : Store) (l : Ptr) (xs : List Ptr) : Type 0 where
  pub head : (s.list l).head ≡ first xs none
  pub tail : (s.list l).tail ≡ last none xs
  pub elements : (s.list l).elements ≡ length xs % 2 ^ 32
  pub segment : Segment s.node none xs none
  pub distinct : Distinct xs

write-here {ℓ} : {A : Type ℓ} (f : Ptr → A) (p : Ptr) (a : A) → write f p a p ≡ a
write-here f p a = ground arith

pub IsList-write :
    (s : Store) (node : Ptr → Node) (l : Ptr) (r : ListT) (xs : List Ptr)
    → r.head ≡ first xs none
    → r.tail ≡ last none xs
    → r.elements ≡ length xs % 2 ^ 32
    → Segment node none xs none
    → Distinct xs
    → IsList (record s { node = node; list = write s.list l r }) l xs
IsList-write s node l r xs head tail elements segment distinct =
    let e = write-here s.list l r in
    record {
      head = ap (λ k. k.head) e ∙ head;
      tail = ap (λ k. k.tail) e ∙ tail;
      elements = ap (λ k. k.elements) e ∙ elements;
      segment = segment;
      distinct = distinct;
    }

pub list_create-IsList : (s : Store) → IsList (list_create s).0 (list_create s).1 []
unfolding list_create
list_create-IsList s =
    IsList-write (record s { fresh = s.fresh + 1 }) s.node s.fresh
      (record { head = none; tail = none; elements = 0 }) [] refl refl refl tt tt

pub more_elements :
    (e : ℕ) (xs : List Ptr) (n : Ptr)
    → e ≡ length xs % 2 ^ 32
    → more e ≡ length (xs ++ n ∷ []) % 2 ^ 32
more_elements e xs n h = omega (arith, h, length-append xs (n ∷ []))

module _ (s : Store) (l n : Ptr) where
  add_behind-none : IsList s l [] → IsList (add_behind s l n none) l (n ∷ [])
  unfolding add_behind
  add_behind-none h =
      let node = change s.node n (set_next none) in
      let e : change node n (set_prev none) n ≡ set_prev none (set_next none (s.node n)) =
        change-here node n (set_prev none)
        ∙ ap (set_prev none) (change-here s.node n (set_next none)) in
      IsList-write s (change node n (set_prev none)) l
        (record { head = some n; tail = some n; elements = more (s.list l).elements }) (n ∷ []) refl
        refl (more_elements (s.list l).elements [] n h.elements)
        (ap (λ k. k.prev) e, ap (λ k. k.next) e, tt) (tt, tt)

  module _ (zs : List Ptr) (t : Ptr) (h : IsList s l (zs ++ t ∷ []))
      (new : NotIn n (zs ++ t ∷ [])) where
    abbrev node₁ : Ptr → Node
    node₁ = change s.node n (set_prev (some t))

    abbrev node₂ : Ptr → Node
    node₂ = change node₁ t (set_next (some n))

    abbrev node₃ : Ptr → Node
    node₃ = change node₂ n (set_next none)

    t_n : t ≡ n → ⊥
    t_n = (All-split (λ y. y ≡ n → ⊥) zs (t ∷ []) new).1.0

    at_n : node₃ n ≡ set_next none (set_prev (some t) (s.node n))
    at_n =
        change-here node₂ n (set_next none)
        ∙ ap (set_next none) (
            change-other node₁ t n (set_next (some n)) (λ e. t_n (sym e))
            ∙ change-here s.node n (set_prev (some t)))

    at_t : node₃ t ≡ set_next (some n) (s.node t)
    at_t =
        change-other node₂ n t (set_next none) t_n
        ∙ (change-here node₁ t (set_next (some n))
            ∙ ap (set_next (some n)) (change-other s.node n t (set_prev (some t)) t_n))

    elsewhere : (y : Ptr) → (y ≡ n → ⊥) → (y ≡ t → ⊥) → node₃ y ≡ s.node y
    elsewhere y y_n y_t =
        change-other node₂ n y (set_next none) y_n
        ∙ (change-other node₁ t y (set_next (some n)) y_t
            ∙ change-other s.node n y (set_prev (some t)) y_n)

    same : All (λ y. node₃ y ≡ s.node y) zs
    same =
        All-map₂ zs (All-split (λ y. y ≡ n → ⊥) zs (t ∷ []) new).0
          (Distinct-split zs t [] h.distinct).0
      where
        All-map₂ : (ys : List Ptr) → NotIn n ys → NotIn t ys → All (λ y. node₃ y ≡ s.node y) ys
        All-map₂ [] a b = tt
        All-map₂ (y ∷ ys) a b = (elsewhere y a.0 b.0, All-map₂ ys a.1 b.1)

    add_behind-some : IsList (add_behind s l n (some t)) l ((zs ++ t ∷ []) ++ n ∷ [])
    unfolding add_behind
    add_behind-some =
        let parts = Segment-split s.node none zs (t ∷ []) none h.segment in
        let before =
          Segment-append node₃ none zs (t ∷ []) (some n)
            (Segment-frame s.node node₃ none zs (some t) same parts.0)
            (ap (λ k. k.prev) at_t ∙ parts.1.0, ap (λ k. k.next) at_t, tt) in
        IsList-write s node₃ l
          (record { head = (s.list l).head; tail = some n; elements = more (s.list l).elements })
          ((zs ++ t ∷ []) ++ n ∷ []) (h.head ∙ head_same zs)
          (sym (last-append none (zs ++ t ∷ []) (n ∷ [])))
          (more_elements (s.list l).elements (zs ++ t ∷ []) n h.elements)
          (Segment-append node₃ none (zs ++ t ∷ []) (n ∷ []) none before
            (ap (λ k. k.prev) at_n ∙ sym (last-append none zs (t ∷ [])), ap (λ k. k.next) at_n, tt))
          (Distinct-snoc (zs ++ t ∷ []) n new h.distinct)
      where
        head_same :
            (ys : List Ptr) → first (ys ++ t ∷ []) none ≡ first ((ys ++ t ∷ []) ++ n ∷ []) none
        head_same [] = refl
        head_same (y ∷ ys) = refl

-- `list_add` of a node that is not in a list puts it at the end.
pub list_add-IsList :
    (s : Store) (l n : Ptr) (xs : List Ptr)
    → IsList s l xs
    → NotIn n xs
    → IsList (list_add s (some l) (some n)).0 l (xs ++ n ∷ [])
unfolding list_add
list_add-IsList s l n xs h new = elim (last-cases xs) [
  | inl e ↦ let h' : IsList s l [] = rw e at h in rw (e, h'.tail) (add_behind-none s l n h')
  | inr (zs, t, e) ↦
      let h' : IsList s l (zs ++ t ∷ []) = rw e at h in
      let new' : NotIn n (zs ++ t ∷ []) = rw e at new in
      rw (e, h'.tail, last-append none zs (t ∷ [])) (add_behind-some s l n zs t h' new')
]
