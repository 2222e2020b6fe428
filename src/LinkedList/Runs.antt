-- ===== src/LinkedList/Runs.antt =====
-- From its creation on, a list in memory is a sequence of nodes.
use bopm.Prelude.{
  ◌+◌, ◌%◌, ◌^◌, ◌≡◌, refl, ap, ◌∙◌, inl, inr, Bool, true, false, Option, none, some, List, [], ◌∷◌,
  ◌++◌, arith, length, ◌==◌, if◌then◌else◌, Bool-cases,
}
use mathlib.Core.Bool.{false≢true}
use bopm.LinkedList.{Ptr, Store, list_create, list_add, list_remove, foreach, foreach_prev}
use bopm.LinkedList.Segment.{NotIn}
use bopm.LinkedList.Add.{IsList, list_create-IsList, list_add-IsList}
use bopm.LinkedList.Remove.{list_remove-IsList}
use bopm.LinkedList.Foreach.{rev_append, foreach-Segment, foreach_prev-Segment}

-- A call about one list.
pub data Op : Type 0 where
  add remove : Ptr → Op

abbrev pub and_run : (Store → Option Store) → Option (Store × Option Ptr) → Option Store
and_run next none = none
and_run next (some (s, p)) = next s

unfoldable pub run_ops : List Op → (l : Ptr) → Store → Option Store
run_ops [] l s = some s
run_ops (add n ∷ ops) l s = run_ops ops l (list_add s (some l) (some n)).0
run_ops (remove n ∷ ops) l s = and_run (run_ops ops l) (list_remove s (some l) (some n))

abbrev pub has : Ptr → List Ptr → Bool
has n [] = false
has n (x ∷ xs) = if x == n then true else has n xs

abbrev pub without : Ptr → List Ptr → List Ptr
without n [] = []
without n (x ∷ xs) = if x == n then xs else x ∷ without n xs

abbrev pub members : List Op → List Ptr → List Ptr
members [] xs = xs
members (add n ∷ ops) xs = members ops (xs ++ n ∷ [])
members (remove n ∷ ops) xs = members ops (without n xs)

-- A node is added only while it is not in the list, and removed only while it is.
abbrev pub AreAllowed : List Op → List Ptr → Type 0
AreAllowed [] xs = Unit
AreAllowed (add n ∷ ops) xs = NotIn n xs × AreAllowed ops (xs ++ n ∷ [])
AreAllowed (remove n ∷ ops) xs = (has n xs ≡ true) × AreAllowed ops (without n xs)

without-has :
    (n : Ptr) (xs : List Ptr)
    → has n xs ≡ true
    → (ys : List Ptr) × (zs : List Ptr) × (xs ≡ ys ++ n ∷ zs) × (without n xs ≡ ys ++ zs)
without-has n [] e = absurd (false≢true e)
without-has n (x ∷ xs) e = elim (Bool-cases (x == n)) [
  | inl here ↦ let same : x ≡ n = ground arith in ([], xs, ap (λ y. y ∷ xs) same, rw here)
  | inr other ↦
      let (ys, zs, split, left) = without-has n xs (rw other at e) in
      (x ∷ ys, zs, ap (λ ws. x ∷ ws) split, rw other (ap (λ ws. x ∷ ws) left))
]

run_ops-IsList :
    (ops : List Op) (l : Ptr) (s : Store) (xs : List Ptr)
    → AreAllowed ops xs
    → IsList s l xs
    → (s' : Store) × (run_ops ops l s ≡ some s') × IsList s' l (members ops xs)
unfolding run_ops
run_ops-IsList [] l s xs a h = (s, refl, h)
run_ops-IsList (add n ∷ ops) l s xs a h =
    run_ops-IsList ops l (list_add s (some l) (some n)).0 (xs ++ n ∷ []) a.1
      (list_add-IsList s l n xs h a.0)
run_ops-IsList (remove n ∷ ops) l s xs a h =
    let (ys, zs, split, left) = without-has n xs a.0 in
    let h' : IsList s l (ys ++ n ∷ zs) = rw split at h in
    let (s₁, e, h₁) = list_remove-IsList s l n ys zs h' in
    let h₂ : IsList s₁ l (without n xs) = rw left h₁ in
    let (s₂, e₂, h₃) = run_ops-IsList ops l s₁ (without n xs) a.1 h₂ in
    (s₂, ap (and_run (run_ops ops l)) e ∙ e₂, h₃)

-- A list that `list_create` has made, and on which `list_add` and `list_remove` are called in any
-- order, with nodes that are not in it and nodes that are in it, holds the sequence in which an
-- addition stands at the end and a removal leaves the others in order: no call reads through NULL,
-- LIST_FOREACH visits the sequence, LIST_FOREACH_PREV visits it backwards, and LIST_SIZE is its
-- length modulo 2 ^ 32.
pub run_ops-refines :
    (s : Store) (ops : List Op)
    → AreAllowed ops []
    → (s' : Store) × (run_ops ops (list_create s).1 (list_create s).0 ≡ some s')
      × (foreach (length (members ops [])) s'.node (s'.list (list_create s).1).head
          ≡ some (members ops []))
      × (foreach_prev (length (members ops []) + 0) s'.node (s'.list (list_create s).1).tail
          ≡ some (rev_append (members ops []) []))
      × ((s'.list (list_create s).1).elements ≡ length (members ops []) % 2 ^ 32)
unfolding foreach_prev
run_ops-refines s ops a =
    let xs = members ops [] in
    let (s', e, h) =
      run_ops-IsList ops (list_create s).1 (list_create s).0 [] a (list_create-IsList s) in
    (
      s',
      e,
      rw h.head (foreach-Segment (length xs) s'.node none xs (omega arith) h.segment),
      rw h.tail (foreach_prev-Segment xs 0 s'.node none none [] refl h.segment),
      h.elements,
    )
