-- ===== src/LinkedList.antt =====
-- src/list.c and src/list.h: doubly linked lists of nodes in a memory, and the loops over them.
pub mod Segment
pub mod Add
pub mod Remove
pub mod Foreach
pub mod Runs
mod Samples
use bopm.Prelude.{
  ℕ, zero, suc, ◌+◌, ◌%◌, ◌^◌, Bool, true, false, Option, none, some, List, [], ◌∷◌, ◌==◌,
  if◌then◌else◌,
}

abbrev pub Ptr : Type 0
Ptr = ℕ

-- `node_t`; NULL is `none`, and `data` is `value`.
pub record Node : Type 0 where
  pub next : Option Ptr
  pub prev : Option Ptr
  pub value : ℕ

-- `list_t`; `elements` is an int, kept modulo 2 ^ 32.
pub record ListT : Type 0 where
  pub head : Option Ptr
  pub tail : Option Ptr
  pub elements : ℕ

-- The memory, and the address that the next call of MyMalloc() gives.
pub record Store : Type 0 where
  pub node : Ptr → Node
  pub list : Ptr → ListT
  pub fresh : Ptr

abbrev pub write {ℓ} : {A : Type ℓ} → (Ptr → A) → Ptr → A → Ptr → A
write f p a q = if q == p then a else f q

unfoldable pub node_create : Store → (value : ℕ) → Store × Ptr
node_create s value = (
  record s {
    node = write s.node s.fresh (record { next = none; prev = none; value = value });
    fresh = s.fresh + 1;
  },
  s.fresh,
)

unfoldable pub list_create : Store → Store × Ptr
list_create s = (
  record s {
    list = write s.list s.fresh (record { head = none; tail = none; elements = 0 });
    fresh = s.fresh + 1;
  },
  s.fresh,
)

abbrev pub more : ℕ → ℕ
more elements = (elements + 1) % 2 ^ 32

abbrev pub fewer : ℕ → ℕ
fewer elements = (elements + 4294967295) % 2 ^ 32

abbrev pub set_next : Option Ptr → Node → Node
set_next p n = record n { next = p }

abbrev pub set_prev : Option Ptr → Node → Node
set_prev p n = record n { prev = p }

-- A node is changed.
abbrev pub change : (Ptr → Node) → Ptr → (Node → Node) → Ptr → Node
change node p f = write node p (f (node p))

-- `list_add` for a list with this tail.
unfoldable pub add_behind : Store → (l n : Ptr) → (tail : Option Ptr) → Store
add_behind s l n none = record s {
  node = change (change s.node n (set_next none)) n (set_prev none);
  list =
      write s.list l (record { head = some n; tail = some n; elements = more (s.list l).elements });
}
add_behind s l n (some t) = record s {
  node =
      change (change (change s.node n (set_prev (some t))) t (set_next (some n))) n (set_next none);
  list =
      write s.list l
        (record { head = (s.list l).head; tail = some n; elements = more (s.list l).elements });
}

-- The memory after the call, and what it returns.
unfoldable pub list_add : Store → (list node : Option Ptr) → Store × Option Ptr
unfolding add_behind
list_add s none _ = (s, none)
list_add s (some l) none = (s, none)
list_add s (some l) (some n) = (add_behind s l n (s.list l).tail, some n)

abbrev pub is_at : Option Ptr → Ptr → Bool
is_at none n = false
is_at (some p) n = p == n

-- The head is unlinked: `next` is its next node.
unfoldable pub remove_head : Store → (l : Ptr) → (next : Option Ptr) → Store
remove_head s l none = record s {
  list = write s.list l (record { head = none; tail = none; elements = fewer (s.list l).elements });
}
remove_head s l (some y) = record s {
  node = change s.node y (set_prev none);
  list =
      write s.list l
        (record { head = some y; tail = (s.list l).tail; elements = fewer (s.list l).elements });
}

-- The tail is unlinked: `prev` is the node before it. `none` is an access through NULL.
unfoldable pub remove_tail : Store → (l : Ptr) → (prev : Option Ptr) → Option Store
remove_tail s l none = none
remove_tail s l (some x) = some (record s {
  node = change s.node x (set_next none);
  list =
      write s.list l
        (record { head = (s.list l).head; tail = some x; elements = fewer (s.list l).elements });
})

-- `node->next->prev = node->prev`.
abbrev pub link_back : (Ptr → Node) → Node → Option (Ptr → Node)
link_back node n = elim n.next [ none ↦ none | some y ↦ some (change node y (set_prev n.prev)) ]

-- A node inside is unlinked. The second assignment reads the node again.
unfoldable pub unlink : (Ptr → Node) → (n : Ptr) → (prev : Option Ptr) → Option (Ptr → Node)
unlink node n none = none
unlink node n (some x) =
    let node' = change node x (set_next (node n).next) in link_back node' (node' n)

abbrev pub with_nodes : Store → (l : Ptr) → Option (Ptr → Node) → Option Store
with_nodes s l none = none
with_nodes s l (some node) = some (record s {
  node = node;
  list = write s.list l (record (s.list l) { elements = fewer (s.list l).elements });
})

abbrev pub returning : Ptr → Option Store → Option (Store × Option Ptr)
returning n none = none
returning n (some s) = some (s, some n)

unfoldable pub list_remove : Store → (list node : Option Ptr) → Option (Store × Option Ptr)
unfolding remove_head remove_tail unlink
list_remove s none _ = some (s, none)
list_remove s (some l) none = some (s, none)
list_remove s (some l) (some n) =
    if is_at (s.list l).head n
    then some (remove_head s l (s.node n).next, some n)
    else if is_at (s.list l).tail n
    then returning n (remove_tail s l (s.node n).prev)
    else returning n (with_nodes s l (unlink s.node n (s.node n).prev))

-- The nodes that LIST_FOREACH visits from `pos` on; `none` is a loop that has run out of fuel.
unfoldable pub foreach : (fuel : ℕ) → (Ptr → Node) → (pos : Option Ptr) → Option (List Ptr)
foreach fuel node none = some []
foreach zero node (some p) = none
foreach (suc fuel) node (some p) = elim (foreach fuel node (node p).next) [
  | none ↦ none
  | some ps ↦ some (p ∷ ps)
]

-- LIST_FOREACH_PREV.
unfoldable pub foreach_prev : (fuel : ℕ) → (Ptr → Node) → (pos : Option Ptr) → Option (List Ptr)
foreach_prev fuel node none = some []
foreach_prev zero node (some p) = none
foreach_prev (suc fuel) node (some p) = elim (foreach_prev fuel node (node p).prev) [
  | none ↦ none
  | some ps ↦ some (p ∷ ps)
]
