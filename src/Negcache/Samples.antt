-- ===== src/Negcache/Samples.antt =====
-- Runs of the negative cache, and its theorems at concrete addresses.
use bopm.Prelude.{ℕ, ◌≡◌, refl, Bool, true, false, Option, none, some, List, [], ◌∷◌, arith}
use bopm.Negcache.{
  Ptr, Cache, bit, nc_init, nc_insert, nc_search, check_neg_cache, negcache_rebuild,
}
use bopm.Negcache.Bits.{zero_shift}
use bopm.Negcache.Trie.{link}
use bopm.Negcache.Insert.{IsCache}
use bopm.Negcache.Times.{Implements, empty, is_live, is_found, nc_init-IsCache, nc_init-Implements}
use bopm.Negcache.Refines.{Entry, insert_all, put_all, insert_all-refines}
use bopm.Negcache.Rebuild.{keep_times, negcache_rebuild-Implements}
use bopm.Negcache.Shift.{low_shift, nc_insert-lost}

-- 10.0.0.1 at time 100, 10.0.0.2 at time 200, and 10.0.0.1 again at time 300.
abbrev entries : List Entry
entries = (100, 16777226) ∷ (200, 33554442) ∷ (300, 16777226) ∷ []

abbrev found_later : (now ip : ℕ) → Option Cache → Bool
found_later now ip none = false
found_later now ip (some c) = elim (check_neg_cache zero_shift 150 now c ip) [
  | none ↦ false
  | some n ↦ is_found (some n)
]

found_after_insertion : found_later 400 16777226 (insert_all entries (nc_init 0)) ≡ true
unfolding insert_all nc_init check_neg_cache
found_after_insertion = refl

too_old : found_later 400 33554442 (insert_all entries (nc_init 0)) ≡ false
unfolding insert_all nc_init check_neg_cache
too_old = refl

insert_all-refines_example :
    (c : Cache) × (insert_all entries (nc_init 0) ≡ some c)
    × ((negcache now ip : ℕ)
        → (n : Option Ptr) × (check_neg_cache zero_shift negcache now c ip ≡ some n)
          × (is_found (some n) ≡ is_live negcache now (put_all entries empty ip)))
insert_all-refines_example =
    insert_all-refines 0 entries (omega arith, (omega arith, (omega arith, tt)))

-- 1.2.3.4 on a machine that stores its low byte first.
nc_insert-lost_example :
    (c : Cache) × (n : Ptr) × (nc_insert low_shift (nc_init 0) 67305985 ≡ some (c, n))
    × (nc_search low_shift c 67305985 ≡ some none)
    × ((q : ℕ) → nc_search low_shift c q ≡ nc_search low_shift (nc_init 0) q)
    × IsCache c (link 0 0)
unfolding bit
nc_insert-lost_example =
    nc_insert-lost (nc_init 0) (link 0 0) (nc_init-IsCache 0) 67305985 refl refl

abbrev rebuilt : (c : Option Cache) → (ip : ℕ) → Bool
rebuilt none ip = false
rebuilt (some c) ip = elim (negcache_rebuild zero_shift 150 400 c 7) [
  | none ↦ false
  | some c' ↦ found_later 400 ip (some c')
]

-- A rebuild at time 400 keeps the address of time 300 and drops that of time 200.
rebuild_keeps : rebuilt (insert_all entries (nc_init 0)) 16777226 ≡ true
unfolding insert_all nc_init check_neg_cache negcache_rebuild
rebuild_keeps = refl

negcache_rebuild-Implements_example :
    (c' : Cache) × (negcache_rebuild zero_shift 150 400 (nc_init 0) 7 ≡ some c')
    × Implements c' (keep_times 150 400 empty)
negcache_rebuild-Implements_example = negcache_rebuild-Implements 150 400 (nc_init-Implements 0) 7
