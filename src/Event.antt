-- ===== src/Event.antt =====
-- What the program does to the world outside a scan, in the order in which it does it.
use bopm.Prelude.{ℕ, ◌+◌, ◌≡◌, List, [], ◌∷◌, ◌++◌, Bytes, arith}
use bopm.Config.{ProtocolType}

-- What `scan_irckline` comes to: a line that is sent, the use of bytes that were never written or
-- lie outside the buffer, or a loop that never ends.
pub data Kline : Type 0 where
  line : Bytes → Kline
  undefined endless : Kline

pub data Event : Type 0 where
  -- a line passed to send()
  sent : Bytes → Event
  -- the ban that `scan_irckline` sends
  klined : Kline → Event
  -- `opm_scan` and `opm_end` for the scanner of this name
  submitted : Bytes → Event
  ended : Bytes → Event
  -- `negcache_insert`
  cached : Bytes → Event
  -- a query passed to the resolver
  queried : Bytes → Event
  -- an email piped to sendmail
  mailed : Bytes → Event
  -- a line of the scan log
  logged : Bytes → Event
  -- `stats_openproxy`, `stats_dnsblrecv` for the blacklist of this index, `stats_dnsblsend`
  proxy_counted : ProtocolType → Event
  listed_counted : ℕ → Event
  report_counted : Event
  -- `scan_free`
  freed : Event

abbrev is_klined : Event → ℕ
is_klined (klined _) = 1
is_klined (sent _) = 0
is_klined _ = 0

abbrev is_cached : Event → ℕ
is_cached (cached _) = 1
is_cached (sent _) = 0
is_cached _ = 0

abbrev is_freed : Event → ℕ
is_freed freed = 1
is_freed (sent _) = 0
is_freed _ = 0

abbrev pub total : (Event → ℕ) → List Event → ℕ
total f [] = 0
total f (e ∷ es) = f e + total f es

pub total-append :
    (f : Event → ℕ) (xs ys : List Event) → total f (xs ++ ys) ≡ total f xs + total f ys
total-append f [] ys = omega arith
total-append f (x ∷ xs) ys = omega (arith, total-append f xs ys)

-- How often a run bans, stores the address in the negative cache, and frees its scan.
abbrev pub klines : List Event → ℕ
klines = total is_klined

abbrev pub caches : List Event → ℕ
caches = total is_cached

abbrev pub frees : List Event → ℕ
frees = total is_freed
