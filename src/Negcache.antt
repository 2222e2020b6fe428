-- ===== src/Negcache.antt =====
-- src/negcache.c: the addresses that were found clean, in a Patricia trie of nodes that point up at
-- themselves or at nodes above. Memory that is given back by free() is not told from memory in use.
pub mod Bits
pub mod Trie
pub mod Graft
pub mod Forks
pub mod Represents
pub mod Apart
pub mod Link
pub mod Linking
pub mod Insert
pub mod Times
pub mod Refines
pub mod Shift
pub mod Visit
pub mod Kept
pub mod Rebuild
mod Samples
use bopm.Prelude.{
  ℕ, zero, suc, ◌+◌, ◌*◌, ◌/◌, ◌%◌, ◌^◌, ◌≡◌, Bool, true, false, not, ◌&&◌, Option, none, some,
  List, [], ◌∷◌, ltb, leb, ◌==◌, if◌then◌else◌, Bytes,
}

abbrev pub Ptr : Type 0
Ptr = ℕ

-- `struct cnode`. `ip` is an unsigned long of 64 bits.
pub record Cnode : Type 0 where
  pub ip : ℕ
  pub seen : ℕ
  pub b : ℕ
  pub l : Ptr
  pub r : Ptr

-- `nc_head`, the memory, and the address that the next call of MyMalloc() gives.
pub record Cache : Type 0 where
  pub head : Ptr
  pub node : Ptr → Cnode
  pub fresh : Ptr

abbrev pub maxb : ℕ
maxb = 64

-- `((x >> k) & 1)` for `k` below 64.
unfoldable pub bit : ℕ → ℕ → Bool
bit x zero = x % 2 == 1
bit x (suc k) = bit (x / 2) k

-- GETBIT. C leaves a shift by 64 undefined: `shift` is the bit that the machine gives for it.
unfoldable pub getbit : (shift : ℕ → Bool) → ℕ → ℕ → Bool
unfolding bit
getbit shift x k = if ltb k maxb then bit x k else shift x

abbrev pub write : (Ptr → Cnode) → Ptr → Cnode → Ptr → Cnode
write node p n q = if q == p then n else node q

-- `nc_init` for a head that is NULL.
unfoldable pub nc_init : Ptr → Cache
nc_init p = record {
  head = p;
  node = λ q. record { ip = 0; seen = 0; b = maxb; l = p; r = p };
  fresh = p + 1;
}

abbrev pub child : (ℕ → Bool) → (Ptr → Cnode) → ℕ → Ptr → Ptr
child shift node ip x = if getbit shift ip (node x).b then (node x).r else (node x).l

-- The `while` loop of `nc_search`, and the first of `nc_insert`.
unfoldable pub descend : (ℕ → Bool) → (fuel : ℕ) → (Ptr → Cnode) → ℕ → (p x : Ptr) → Option Ptr
unfolding getbit
descend shift zero node ip p x = none
descend shift (suc fuel) node ip p x =
    let below = descend shift fuel node ip x (child shift node ip x) in
    if ltb (node x).b (node p).b then below else some x

-- `if (ip == x->ip)` behind the loop. `none` is a loop that has run out of fuel, `some none` NULL.
unfoldable pub found_at : Cache → ℕ → Option Ptr → Option (Option Ptr)
found_at c ip none = none
found_at c ip (some x) = some (if ip == (c.node x).ip then some x else none)

unfoldable pub nc_search : (ℕ → Bool) → Cache → ℕ → Option (Option Ptr)
unfolding descend found_at
nc_search shift c ip = found_at c ip (descend shift (maxb + 1) c.node ip c.head (c.node c.head).l)

abbrev pub same_bit : Bool → Bool → Bool
same_bit true b = b
same_bit false b = not b

-- `while (GETBIT (t->ip, i) == GETBIT (ip, i)) i--;` from `i` down; `none` where `i` would fall
-- below 0.
unfoldable pub first_difference : (ℕ → Bool) → ℕ → ℕ → ℕ → Option ℕ
unfolding getbit
first_difference shift zero x y =
    if same_bit (getbit shift x zero) (getbit shift y zero) then none else some zero
first_difference shift (suc i) x y =
    let lower = first_difference shift i x y in
    if same_bit (getbit shift x (suc i)) (getbit shift y (suc i)) then lower else some (suc i)

-- The last loop of `nc_insert`, which also ends at a node that tests bit `i` or one below.
unfoldable pub descend_to :
    (ℕ → Bool) → (fuel : ℕ) → (Ptr → Cnode) → ℕ → ℕ → (p x : Ptr) → Option (Ptr × Ptr)
unfolding getbit
descend_to shift zero node ip i p x = none
descend_to shift (suc fuel) node ip i p x =
    let below = descend_to shift fuel node ip i x (child shift node ip x) in
    if ltb (node x).b (node p).b && ltb i (node x).b then below else some (p, x)

-- The new node `n` for bit `i`, with `x` on its other side.
unfoldable pub new_node : (ℕ → Bool) → (ip i n x : ℕ) → Cnode
unfolding getbit
new_node shift ip i n x = record {
  ip = ip;
  seen = 0;
  b = i;
  l = if getbit shift ip i then x else n;
  r = if getbit shift ip i then n else x;
}

-- `if (GETBIT (ip, p->b)) p->r = t; else p->l = t;`
unfoldable pub link_to : (ℕ → Bool) → (Ptr → Cnode) → ℕ → (p n : Ptr) → Ptr → Cnode
unfolding getbit
link_to shift node ip p n =
    write node p
      (if getbit shift ip (node p).b then record (node p) { r = n } else record (node p) { l = n })

-- `nc_insert` behind its last loop.
unfoldable pub link_at : (ℕ → Bool) → Cache → (ip i : ℕ) → Option (Ptr × Ptr) → Option (Cache × Ptr)
unfolding link_to new_node
link_at shift c ip i none = none
link_at shift c ip i (some (p, x)) = some (
  record c {
    node = link_to shift (write c.node c.fresh (new_node shift ip i c.fresh x)) ip p c.fresh;
    fresh = c.fresh + 1;
  },
  c.fresh,
)

-- Behind the loop over the bits.
unfoldable pub add_at : (ℕ → Bool) → Cache → (ip : ℕ) → Option ℕ → Option (Cache × Ptr)
unfolding descend_to link_at
add_at shift c ip none = none
add_at shift c ip (some i) =
    link_at shift c ip i (descend_to shift (maxb + 1) c.node ip i c.head (c.node c.head).l)

-- Behind the first loop.
unfoldable pub insert_at : (ℕ → Bool) → Cache → (ip : ℕ) → Option Ptr → Option (Cache × Ptr)
unfolding first_difference add_at
insert_at shift c ip none = none
insert_at shift c ip (some t) =
    if ip == (c.node t).ip
    then some (c, t)
    else add_at shift c ip (first_difference shift maxb (c.node t).ip ip)

-- The node of an address; `none` is a loop that has run out of fuel, or out of bits.
unfoldable pub nc_insert : (ℕ → Bool) → Cache → ℕ → Option (Cache × Ptr)
unfolding descend insert_at
nc_insert shift c ip =
    insert_at shift c ip (descend shift (maxb + 1) c.node ip c.head (c.node c.head).l)

-- `now - n->seen <= OptionsItem->negcache`, of signed numbers.
unfoldable pub is_recent : (negcache now : ℕ) → Cnode → Bool
is_recent negcache now n = leb now (n.seen + negcache)

unfoldable pub recent_at : (negcache now : ℕ) → Cache → Option (Option Ptr) → Option (Option Ptr)
unfolding is_recent
recent_at negcache now c none = none
recent_at negcache now c (some none) = some none
recent_at negcache now c (some (some n)) =
    some (if is_recent negcache now (c.node n) then some n else none)

unfoldable pub check_neg_cache : (ℕ → Bool) → (negcache now : ℕ) → Cache → ℕ → Option (Option Ptr)
unfolding nc_search recent_at
check_neg_cache shift negcache now c ip =
    if negcache == 0 then some none else recent_at negcache now c (nc_search shift c ip)

abbrev pub set_seen : Cache → Ptr → ℕ → Cache
set_seen c n time = record c { node = write c.node n (record (c.node n) { seen = time }) }

unfoldable pub seen_at : (time : ℕ) → Option (Cache × Ptr) → Option Cache
seen_at time none = none
seen_at time (some (c, n)) = some (set_seen c n time)

-- `address` is what inet_pton() makes of the string.
unfoldable pub negcache_insert :
    (ℕ → Bool) → (now : ℕ) → Cache → (address : Option ℕ) → Option Cache
unfolding nc_insert seen_at
negcache_insert shift now c none = some c
negcache_insert shift now c (some ip) = seen_at now (nc_insert shift c ip)

-- The end of `nc_rebuild`: a node that is not too old enters the new trie, with its time.
unfoldable pub keep_node : (ℕ → Bool) → (negcache now : ℕ) → Cache → Cnode → Option Cache
unfolding nc_insert seen_at
keep_node shift negcache now new n =
    if ltb now (n.seen + negcache) then seen_at n.seen (nc_insert shift new n.ip) else some new

abbrev pub and_keep : Option Cache → (Cache → Option Cache) → Option Cache
and_keep none next = none
and_keep (some new) next = next new

-- `nc_rebuild` below a node of the old trie.
unfoldable pub nc_rebuild :
    (ℕ → Bool) → (fuel negcache now : ℕ) → (old new : Cache) → (n : Ptr) → Option Cache
unfolding keep_node
nc_rebuild shift zero negcache now old new n = none
nc_rebuild shift (suc fuel) negcache now old new n =
    let down : Cache → Ptr → Option Cache = nc_rebuild shift fuel negcache now old in
    let left : Cache → Option Cache = λ c.
      if ltb (old.node (old.node n).l).b (old.node n).b then down c (old.node n).l else some c in
    let right : Cache → Option Cache = λ c.
      if ltb (old.node (old.node n).r).b (old.node n).b then down c (old.node n).r else some c in
    if n == old.head
    then some new
    else and_keep (and_keep (left new) right) (λ c. keep_node shift negcache now c (old.node n))

-- `negcache_rebuild`; `p` is the address that MyMalloc() gives for the new head.
unfoldable pub negcache_rebuild : (ℕ → Bool) → (negcache now : ℕ) → Cache → (p : Ptr) → Option Cache
unfolding nc_rebuild nc_init
negcache_rebuild shift negcache now c p =
    nc_rebuild shift (maxb + 1) negcache now c (nc_init p) (c.node c.head).l
