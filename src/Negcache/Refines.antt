-- ===== src/Negcache/Refines.antt =====
-- From the start of the program, the cache behaves as a map from addresses to times.
use bopm.Prelude.{ℕ, ◌^◌, ◌<◌, ◌≡◌, refl, ap, ◌∙◌, Option, some, List, [], ◌∷◌, All}
use bopm.Negcache.{Ptr, Cache, nc_init, check_neg_cache, negcache_insert, and_keep}
use bopm.Negcache.Bits.{zero_shift}
use bopm.Negcache.Times.{
  Implements, put, empty, is_live, is_found, nc_init-Implements, negcache_insert-Implements,
  check_neg_cache-Implements,
}

-- An insertion: the time, and the address.
abbrev pub Entry : Type 0
Entry = ℕ × ℕ

abbrev pub IsAddress : Entry → Type 0
IsAddress (now, ip) = ip < 2 ^ 64

unfoldable pub insert_all : List Entry → Cache → Option Cache
unfolding negcache_insert
insert_all [] c = some c
insert_all ((now, ip) ∷ entries) c =
    and_keep (negcache_insert zero_shift now c (some ip)) (insert_all entries)

unfoldable pub put_all : List Entry → (ℕ → Option ℕ) → ℕ → Option ℕ
put_all [] m = m
put_all ((now, ip) ∷ entries) m = put_all entries (put ip now m)

pub insert_all-Implements :
    (entries : List Entry) {c : Cache} {m : ℕ → Option ℕ}
    → All IsAddress entries
    → Implements c m
    → (c' : Cache) × (insert_all entries c ≡ some c') × Implements c' (put_all entries m)
unfolding insert_all put_all
insert_all-Implements [] {c} a h = (c, refl, h)
insert_all-Implements ((now, ip) ∷ entries) {c} a h =
    let (c₁, e₁, h₁) = negcache_insert-Implements h ip now a.0 in
    let (c₂, e₂, h₂) = insert_all-Implements entries a.1 h₁ in
    (c₂, ap (λ o. and_keep o (insert_all entries)) e₁ ∙ e₂, h₂)

-- After `nc_init` and any row of insertions of addresses of 64 bits, at any times, the search at any
-- present time and for any address ends, and finds it exactly if the cache is on and the time of
-- the address's last insertion is not longer past than the configuration allows. (The address 0
-- counts as inserted at time 0.) A shift by 64 gives 0.
pub insert_all-refines :
    (p : Ptr) (entries : List Entry)
    → All IsAddress entries
    → (c : Cache) × (insert_all entries (nc_init p) ≡ some c)
      × ((negcache now ip : ℕ)
          → (n : Option Ptr) × (check_neg_cache zero_shift negcache now c ip ≡ some n)
            × (is_found (some n) ≡ is_live negcache now (put_all entries empty ip)))
insert_all-refines p entries a =
    let (c, e, h) = insert_all-Implements entries a (nc_init-Implements p) in
    (c, e, λ negcache now ip. check_neg_cache-Implements zero_shift h negcache now ip)
