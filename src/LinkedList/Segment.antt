-- ===== src/LinkedList/Segment.antt =====
-- A row of nodes in the memory, each linked to the one before it and to the one behind it.
use bopm.Prelude.{
  ◌≡◌, refl, sym, ap, ◌∙◌, ◌⊎◌, inl, inr, true, false, Option, some, List, [], ◌∷◌, ◌++◌, arith,
  ◌==◌, ==_of_ne, All,
}
use bopm.LinkedList.{Ptr, Node, change, set_next, set_prev, is_at}

abbrev pub first : List Ptr → Option Ptr → Option Ptr
first [] q = q
first (x ∷ xs) q = some x

abbrev pub last : Option Ptr → List Ptr → Option Ptr
last p [] = p
last p (x ∷ xs) = last (some x) xs

-- The nodes `xs`, with `p` before them and `q` behind them.
abbrev pub Segment : (Ptr → Node) → Option Ptr → List Ptr → Option Ptr → Type 0
Segment node p [] q = Unit
Segment node p (x ∷ xs) q =
    ((node x).prev ≡ p) × ((node x).next ≡ first xs q) × Segment node (some x) xs q

abbrev pub NotIn : Ptr → List Ptr → Type 0
NotIn x = All (λ y. y ≡ x → ⊥)

abbrev pub Distinct : List Ptr → Type 0
Distinct [] = Unit
Distinct (x ∷ xs) = NotIn x xs × Distinct xs

pub first-append : (xs ys : List Ptr) (q : Option Ptr) → first (xs ++ ys) q ≡ first xs (first ys q)
first-append [] ys q = refl
first-append (x ∷ xs) ys q = refl

pub last-append : (p : Option Ptr) (xs ys : List Ptr) → last p (xs ++ ys) ≡ last (last p xs) ys
last-append p [] ys = refl
last-append p (x ∷ xs) ys = last-append (some x) xs ys

pub Segment-split :
    (node : Ptr → Node) (p : Option Ptr) (xs ys : List Ptr) (q : Option Ptr)
    → Segment node p (xs ++ ys) q
    → Segment node p xs (first ys q) × Segment node (last p xs) ys q
Segment-split node p [] ys q h = (tt, h)
Segment-split node p (x ∷ xs) ys q h =
    let rest = Segment-split node (some x) xs ys q h.2 in
    ((h.0, h.1 ∙ first-append xs ys q, rest.0), rest.1)

pub Segment-append :
    (node : Ptr → Node) (p : Option Ptr) (xs ys : List Ptr) (q : Option Ptr)
    → Segment node p xs (first ys q)
    → Segment node (last p xs) ys q
    → Segment node p (xs ++ ys) q
Segment-append node p [] ys q hx hy = hy
Segment-append node p (x ∷ xs) ys q hx hy =
    (hx.0, hx.1 ∙ sym (first-append xs ys q), Segment-append node (some x) xs ys q hx.2 hy)

pub Segment-frame :
    (node node' : Ptr → Node) (p : Option Ptr) (xs : List Ptr) (q : Option Ptr)
    → All (λ y. node' y ≡ node y) xs
    → Segment node p xs q
    → Segment node' p xs q
Segment-frame node node' p [] q same h = tt
Segment-frame node node' p (x ∷ xs) q same h = (
  ap (λ n. n.prev) same.0 ∙ h.0,
  ap (λ n. n.next) same.0 ∙ h.1,
  Segment-frame node node' (some x) xs q same.1 h.2,
)

pub change-other :
    (node : Ptr → Node) (p q : Ptr) (f : Node → Node) → (q ≡ p → ⊥) → change node p f q ≡ node q
change-other node p q f ne = let other = ==_of_ne q p ne in rw other

pub change-here : (node : Ptr → Node) (p : Ptr) (f : Node → Node) → change node p f p ≡ f (node p)
change-here node p f = let here : (p == p) ≡ true = ground arith in rw here

pub All-map : (P Q : Ptr → Type 0) → ((x : Ptr) → P x → Q x) → (xs : List Ptr) → All P xs → All Q xs
All-map P Q f [] h = tt
All-map P Q f (x ∷ xs) h = (f x h.0, All-map P Q f xs h.1)

pub All-split : (P : Ptr → Type 0) (xs ys : List Ptr) → All P (xs ++ ys) → All P xs × All P ys
All-split P [] ys h = (tt, h)
All-split P (x ∷ xs) ys h = let rest = All-split P xs ys h.1 in ((h.0, rest.0), rest.1)

pub All-append : (P : Ptr → Type 0) (xs ys : List Ptr) → All P xs → All P ys → All P (xs ++ ys)
All-append P [] ys hx hy = hy
All-append P (x ∷ xs) ys hx hy = (hx.0, All-append P xs ys hx.1 hy)

-- Where a node stands in a row without repetitions, it stands nowhere else.
pub Distinct-split :
    (xs : List Ptr) (x : Ptr) (ys : List Ptr)
    → Distinct (xs ++ x ∷ ys)
    → NotIn x xs × NotIn x ys × Distinct (xs ++ ys)
Distinct-split [] x ys d = (tt, d.0, d.1)
Distinct-split (z ∷ xs) x ys d =
    let rest = Distinct-split xs x ys d.1 in
    let parts = All-split (λ y. y ≡ z → ⊥) xs (x ∷ ys) d.0 in
    (
      (λ e. parts.1.0 (sym e), rest.0),
      rest.1,
      (All-append (λ y. y ≡ z → ⊥) xs ys parts.0 parts.1.1, rest.2),
    )

pub Distinct-snoc : (xs : List Ptr) (n : Ptr) → NotIn n xs → Distinct xs → Distinct (xs ++ n ∷ [])
Distinct-snoc [] n new d = (tt, tt)
Distinct-snoc (x ∷ xs) n new d = (
  All-append (λ y. y ≡ x → ⊥) xs (n ∷ []) d.0 (λ e. new.0 (sym e), tt),
  Distinct-snoc xs n new.1 d.1,
)

-- The nodes of a row other than `x` are the same after a change of `x`.
pub change-All :
    (node : Ptr → Node) (x : Ptr) (f : Node → Node) (ys : List Ptr)
    → NotIn x ys
    → All (λ y. change node x f y ≡ node y) ys
change-All node x f ys new =
    All-map (λ y. y ≡ x → ⊥) (λ y. change node x f y ≡ node y) (λ y ne. change-other node x y f ne)
      ys new

pub is_at-first :
    (xs : List Ptr) (u : Ptr) (ys : List Ptr) (x : Ptr) (q : Option Ptr)
    → NotIn x (xs ++ u ∷ ys)
    → is_at (first (xs ++ u ∷ ys) q) x ≡ false
is_at-first [] u ys x q new = ==_of_ne u x new.0
is_at-first (z ∷ xs) u ys x q new = ==_of_ne z x new.0

pub is_at-last :
    (p : Option Ptr) (v : Ptr) (ys : List Ptr) (x : Ptr)
    → NotIn x (v ∷ ys)
    → is_at (last p (v ∷ ys)) x ≡ false
is_at-last p v [] x new = ==_of_ne v x new.0
is_at-last p v (y ∷ ys) x new = is_at-last (some v) y ys x new.1

-- A row is empty or has a last node.
pub last-cases : (xs : List Ptr) → (xs ≡ []) ⊎ ((zs : List Ptr) × (t : Ptr) × (xs ≡ zs ++ t ∷ []))
last-cases [] = inl refl
last-cases (x ∷ xs) = elim (last-cases xs) [
  | inl e ↦ inr ([], x, ap (λ ys. x ∷ ys) e)
  | inr (zs, t, e) ↦ inr (x ∷ zs, t, ap (λ ys. x ∷ ys) e)
]

pub snoc_append : (zs : List Ptr) (u : Ptr) (ys : List Ptr) → (zs ++ u ∷ []) ++ ys ≡ zs ++ u ∷ ys
snoc_append [] u ys = refl
snoc_append (z ∷ zs) u ys = ap (λ xs. z ∷ xs) (snoc_append zs u ys)

-- The last node of a row gets another one behind it.
pub Segment-set_next :
    (node : Ptr → Node) (p : Option Ptr) (zs : List Ptr) (u : Ptr) (q q' : Option Ptr)
    → NotIn u zs
    → Segment node p (zs ++ u ∷ []) q
    → Segment (change node u (set_next q')) p (zs ++ u ∷ []) q'
Segment-set_next node p zs u q q' new h =
    let parts = Segment-split node p zs (u ∷ []) q h in
    let node' = change node u (set_next q') in
    let at_u = change-here node u (set_next q') in
    Segment-append node' p zs (u ∷ []) q'
      (Segment-frame node node' p zs (some u) (change-All node u (set_next q') zs new) parts.0)
      (ap (λ k. k.prev) at_u ∙ parts.1.0, ap (λ k. k.next) at_u, tt)

-- The first node of a row gets another one before it.
pub Segment-set_prev :
    (node : Ptr → Node) (p p' : Option Ptr) (v : Ptr) (ys : List Ptr) (q : Option Ptr)
    → NotIn v ys
    → Segment node p (v ∷ ys) q
    → Segment (change node v (set_prev p')) p' (v ∷ ys) q
Segment-set_prev node p p' v ys q new h =
    let node' = change node v (set_prev p') in
    let at_v = change-here node v (set_prev p') in
    (
      ap (λ k. k.prev) at_v,
      ap (λ k. k.next) at_v ∙ h.1,
      Segment-frame node node' (some v) ys q (change-All node v (set_prev p') ys new) h.2,
    )
