-- ===== src/LinkedList/Samples.antt =====
-- Runs of the lists, and their theorem at one of them.
use bopm.Prelude.{◌+◌, ◌%◌, ◌^◌, ◌≡◌, refl, none, some, List, [], ◌∷◌, arith, length}
use bopm.LinkedList.{Store, node_create, list_create, list_remove, foreach, foreach_prev}
use bopm.LinkedList.Foreach.{rev_append}
use bopm.LinkedList.Runs.{Op, add, remove, run_ops, members, run_ops-refines}

abbrev nothing : Store
nothing = record {
  node = λ p. record { next = none; prev = none; value = 0 };
  list = λ p. record { head = none; tail = none; elements = 0 };
  fresh = 1;
}

-- Three nodes.
abbrev nodes : Store
nodes = (node_create (node_create (node_create nothing 10).0 20).0 30).0

-- The middle node is taken out and put at the end.
abbrev ops : List Op
ops = add 1 ∷ add 2 ∷ add 3 ∷ remove 2 ∷ add 2 ∷ []

moved : members ops [] ≡ 1 ∷ 3 ∷ 2 ∷ []
moved = refl

-- A node that is in no list is no node to remove: the call reads through NULL.
not_in_list : list_remove (list_create nodes).0 (some (list_create nodes).1) (some 2) ≡ none
unfolding list_create node_create list_remove
not_in_list = refl

run_ops-refines_example :
    (s' : Store) × (run_ops ops (list_create nodes).1 (list_create nodes).0 ≡ some s')
    × (foreach (length (members ops [])) s'.node (s'.list (list_create nodes).1).head
        ≡ some (members ops []))
    × (foreach_prev (length (members ops []) + 0) s'.node (s'.list (list_create nodes).1).tail
        ≡ some (rev_append (members ops []) []))
    × ((s'.list (list_create nodes).1).elements ≡ length (members ops []) % 2 ^ 32)
run_ops-refines_example = run_ops-refines nodes ops (
  tt,
  (
    (λ e. absurd (omega (arith, e)), tt),
    (
      (λ e. absurd (omega (arith, e)), (λ e. absurd (omega (arith, e)), tt)),
      (refl, ((λ e. absurd (omega (arith, e)), (λ e. absurd (omega (arith, e)), tt)), tt)),
    ),
  ),
)
