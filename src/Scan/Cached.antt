-- ===== src/Scan/Cached.antt =====
-- A user who connects while the negative cache holds the addresses of earlier scans.
use bopm.Prelude.{
  ℕ, ◌≡◌, ap, ◌∙◌, Bool, false, ◌&&◌, Option, none, some, List, [], arith, All, ltb, if◌then◌else◌,
  Bytes,
}
use bopm.Negcache.{Ptr, Cache, nc_init, check_neg_cache}
use bopm.Negcache.Bits.{zero_shift}
use bopm.Negcache.Times.{empty, is_live, is_found}
use bopm.Negcache.Refines.{Entry, IsAddress, insert_all, put_all, insert_all-refines}
use bopm.Scan.Setup.{Setup}
use bopm.Scan.Connect.{Outside, User, cached_address, scan_user, scan_connect}

abbrev is_cached : Option (Option Ptr) → Bool
is_cached none = false
is_cached (some n) = is_found (some n)

-- The scanner's surroundings at a time, with the cache in its place.
abbrev pub with_cache : Outside → (negcache now : ℕ) → Cache → Outside
with_cache o negcache now c = record o {
  check_neg_cache = λ ip. is_cached (check_neg_cache zero_shift negcache now c ip);
}

off_or_live :
    (negcache now : ℕ) (time : Option ℕ)
    → (ltb 0 negcache && is_live negcache now time) ≡ is_live negcache now time
off_or_live negcache now none = ground arith
off_or_live negcache now (some seen) = ground arith

-- After `nc_init` and any row of insertions of addresses of 64 bits, a user whose address is well
-- formed is passed over by `scan_connect`, with nothing done at all, if the cache is on and the
-- address's last insertion is not longer past than the configuration allows; any other such user
-- goes on to the exempt list and the scans. A shift by 64 gives 0.
pub scan_connect-cached :
    (p : Ptr) (entries : List Entry)
    → All IsAddress entries
    → (o : Outside) (setup : Setup) (user : User) (msg : Bytes) (now ip : ℕ)
    → o.inet_pton user.ip ≡ some ip
    → (c : Cache) × (insert_all entries (nc_init p) ≡ some c)
      × (scan_connect (with_cache o setup.options.negcache now c) setup user msg ≡ (
          if is_live setup.options.negcache now (put_all entries empty ip)
          then (none, [])
          else scan_user (with_cache o setup.options.negcache now c) setup user msg))
unfolding scan_connect cached_address
scan_connect-cached p entries a o setup user msg now ip e =
    let (c, stored, search) = insert_all-refines p entries a in
    let (n, found, live) = search setup.options.negcache now ip in
    let test : (ltb 0 setup.options.negcache
          && is_cached (check_neg_cache zero_shift setup.options.negcache now c ip))
        ≡ is_live setup.options.negcache now (put_all entries empty ip) =
      ap (λ r. ltb 0 setup.options.negcache && is_cached r) found
      ∙ (ap (λ b. ltb 0 setup.options.negcache && b) live
          ∙ off_or_live setup.options.negcache now (put_all entries empty ip)) in
    (c, stored, rw (e, test))
