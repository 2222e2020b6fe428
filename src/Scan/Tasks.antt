-- ===== src/Scan/Tasks.antt =====
-- What `scan_connect` starts: the count of a scan's tasks is the number that was accepted.
use bopm.Prelude.{
  ℕ, ◌+◌, ◌≤◌, ◌<◌, ◌≡◌, refl, ◌⊎◌, inl, inr, Bool, true, false, ◌&&◌, ◌||◌, Option, none, some,
  List, [], ◌∷◌, arith, ltb, lt→ltb, ◌==◌, if◌then◌else◌, Bool-cases, Option-cases, Bytes, length,
  ap, ◌∙◌,
}
use bopm.Config.{BlacklistConf}
use bopm.Event.{Event}
use bopm.Irc.Send.{snprintf, msg_len_max}
use bopm.Scan.Setup.{ScanStruct, ScannerStruct, Setup, increase, user_mask}
use bopm.Scan.Connect.{
  OpmReply, opm_success, no_protocols, bad_addr, other_code, Outside, User, is_match,
  scan_checkexempt, scan_create, try_masks, try_scanners, start_tasks, free_if_idle, cached_address,
  scan_connect,
}
use bopm.Dnsbl.Lookup.{
  Resolver, Getip, started, fd_limit, failed, lookup_name, count_query, query_all, dnsbl_add,
}

-- The queries that are not refused.
abbrev pub is_asked : Getip → ℕ
is_asked failed = 0
is_asked _ = 1

abbrev pub queries : Resolver → ℕ → List BlacklistConf → ℕ
queries r s_addr [] = 0
queries r s_addr (bl ∷ rest) =
    is_asked (r.firedns_getip (lookup_name s_addr bl.name)) + queries r s_addr rest

abbrev pub all_queries : Resolver → Option ℕ → List BlacklistConf → ℕ
all_queries r none blacklists = 0
all_queries r (some s_addr) blacklists = queries r s_addr blacklists

-- The scanners that have a mask which matches the user, and that libopm takes.
abbrev pub any_match : List Bytes → Bytes → Bool
any_match [] mask = false
any_match (scsmask ∷ rest) mask = is_match scsmask mask || any_match rest mask

abbrev pub is_success : OpmReply → Bool
is_success opm_success = true
is_success _ = false

abbrev pub accepted : (Bytes → Bytes → OpmReply) → (mask ip : Bytes) → List ScannerStruct → ℕ
accepted opm_scan mask ip [] = 0
accepted opm_scan mask ip (scs ∷ rest) =
    (if any_match scs.masks mask && is_success (opm_scan scs.name ip) then 1 else 0)
    + accepted opm_scan mask ip rest

-- A scan with `n` more tasks, and otherwise the same.
abbrev pub more_tasks : ScanStruct → ℕ → ScanStruct
more_tasks ss n = record ss { scans = ss.scans + n }

pub more_tasks-eq : (ss : ScanStruct) (m n : ℕ) → m ≡ n → more_tasks ss m ≡ more_tasks ss n
more_tasks-eq ss m n e = ap (λ k. more_tasks ss k) e

pub no_more : (ss : ScanStruct) → ss ≡ more_tasks ss 0
no_more ss = ap (λ (k : ℕ). record ss { scans = k }) (omega arith)

pub twice_more :
    (ss : ScanStruct) (m n : ℕ) → more_tasks (more_tasks ss m) n ≡ more_tasks ss (m + n)
twice_more ss m n = ap (λ (k : ℕ). record ss { scans = k }) (omega arith)

pub increase-more : (ss : ScanStruct) → ss.scans + 1 < 65536 → increase ss ≡ more_tasks ss 1
increase-more ss h = ap (λ (k : ℕ). record ss { scans = k }) (omega arith)

count_query-more :
    (reply : Getip) (ss : ScanStruct)
    → ss.scans + is_asked reply < 65536
    → count_query reply ss ≡ more_tasks ss (is_asked reply)
unfolding count_query
count_query-more started ss h = increase-more ss h
count_query-more fd_limit ss h = increase-more ss h
count_query-more failed ss h = no_more ss

query_all-more :
    (r : Resolver) (s_addr : ℕ) (blacklists : List BlacklistConf) (ss : ScanStruct)
    → ss.scans + queries r s_addr blacklists < 65536
    → (query_all r s_addr blacklists ss).0 ≡ more_tasks ss (queries r s_addr blacklists)
unfolding query_all
query_all-more r s_addr [] ss h = no_more ss
query_all-more r s_addr (bl ∷ rest) ss h =
    let reply = r.firedns_getip (lookup_name s_addr bl.name) in
    rw (count_query-more reply ss (omega arith)) (
      query_all-more r s_addr rest (more_tasks ss (is_asked reply)) (omega arith)
      ∙ twice_more ss (is_asked reply) (queries r s_addr rest))

pub dnsbl_add-more :
    (r : Resolver) (setup : Setup) (ss : ScanStruct)
    → ss.scans + all_queries r (r.inet_aton ss.ip) setup.opm.blacklists < 65536
    → (dnsbl_add r setup ss).0
      ≡ more_tasks ss (all_queries r (r.inet_aton ss.ip) setup.opm.blacklists)
unfolding dnsbl_add
dnsbl_add-more r setup ss h = elim (Option-cases (r.inet_aton ss.ip)) [
  | inl e ↦ rw (e, dnsbl_add) (no_more ss)
  | inr (s_addr, e) ↦
      rw (e, dnsbl_add) (query_all-more r s_addr setup.opm.blacklists ss (rw e at h))
]

abbrev one_if : Bool → ℕ
one_if b = if b then 1 else 0

one_if-false : (b : Bool) → one_if (b && false) ≡ 0
one_if-false true = refl
one_if-false false = refl

one_if-le : (b : Bool) → one_if b ≤ 1
one_if-le true = omega arith
one_if-le false = omega arith

try_masks-more :
    (reply : OpmReply) (scanner mask : Bytes) (masks : List Bytes) (ss : ScanStruct)
    → ss.scans + 1 < 65536
    → (try_masks reply scanner mask masks ss).0
      ≡ more_tasks ss (one_if (any_match masks mask && is_success reply))
unfolding try_masks
try_masks-more reply scanner mask [] ss h = no_more ss
try_masks-more opm_success scanner mask (m ∷ masks) ss h = elim (Bool-cases (is_match m mask)) [
  | inl hit ↦ rw hit (increase-more ss h)
  | inr miss ↦ rw miss (try_masks-more opm_success scanner mask masks ss h)
]
try_masks-more no_protocols scanner mask (m ∷ masks) ss h = elim (Bool-cases (is_match m mask)) [
  | inl hit ↦ rw hit (
      try_masks-more no_protocols scanner mask masks ss h
      ∙ more_tasks-eq ss _ _ (one_if-false (any_match masks mask)))
  | inr miss ↦ rw miss (try_masks-more no_protocols scanner mask masks ss h)
]
try_masks-more bad_addr scanner mask (m ∷ masks) ss h = elim (Bool-cases (is_match m mask)) [
  | inl hit ↦ rw hit (no_more ss)
  | inr miss ↦ rw miss (try_masks-more bad_addr scanner mask masks ss h)
]
try_masks-more other_code scanner mask (m ∷ masks) ss h = elim (Bool-cases (is_match m mask)) [
  | inl hit ↦ rw hit (no_more ss)
  | inr miss ↦ rw miss (try_masks-more other_code scanner mask masks ss h)
]

try_scanners-more :
    (opm_scan : Bytes → Bytes → OpmReply) (mask : Bytes) (scanners : List ScannerStruct)
    (ss : ScanStruct)
    → ss.scans + length scanners < 65536
    → (try_scanners opm_scan mask scanners ss).0
      ≡ more_tasks ss (accepted opm_scan mask ss.ip scanners)
unfolding try_scanners
try_scanners-more opm_scan mask [] ss h = no_more ss
try_scanners-more opm_scan mask (scs ∷ rest) ss h =
    let taken = one_if (any_match scs.masks mask && is_success (opm_scan scs.name ss.ip)) in
    rw (try_masks-more (opm_scan scs.name ss.ip) scs.name mask scs.masks ss (omega arith)) (
      try_scanners-more opm_scan mask rest (more_tasks ss taken) (
        omega (arith, one_if-le (any_match scs.masks mask && is_success (opm_scan scs.name ss.ip))))
      ∙ twice_more ss taken (accepted opm_scan mask ss.ip rest))

start_tasks-more :
    (o : Outside) (setup : Setup) (mask : Bytes) (ss : ScanStruct)
    → ss.scans
        + all_queries o.resolver (o.resolver.inet_aton ss.ip) setup.opm.blacklists
        + length setup.scanners
      < 65536
    → (start_tasks o setup mask ss).0
      ≡ more_tasks ss (
          all_queries o.resolver (o.resolver.inet_aton ss.ip) setup.opm.blacklists
          + accepted o.opm_scan mask ss.ip setup.scanners)
unfolding start_tasks
start_tasks-more o setup mask ss h =
    let asked = all_queries o.resolver (o.resolver.inet_aton ss.ip) setup.opm.blacklists in
    rw (dnsbl_add-more o.resolver setup ss (omega arith)) (
      try_scanners-more o.opm_scan mask setup.scanners (more_tasks ss asked) (omega arith)
      ∙ twice_more ss asked (accepted o.opm_scan mask ss.ip setup.scanners))

-- `nick!user@host` and `nick!user@ip`, cut to 512 bytes.
abbrev pub full_mask : User → Bytes
full_mask user = snprintf msg_len_max (user_mask user.nick user.username user.hostname)

abbrev pub full_ipmask : User → Bytes
full_ipmask user = snprintf msg_len_max (user_mask user.nick user.username user.ip)

-- The tasks of a user's scan: the queries and the scanners that are accepted.
abbrev pub tasks : Outside → Setup → User → ℕ
tasks o setup user =
    all_queries o.resolver (o.resolver.inet_aton user.ip) setup.opm.blacklists
    + accepted o.opm_scan (full_mask user) user.ip setup.scanners

-- With the cache on, an address that is malformed or cached is not scanned: nothing is done at all.
-- Nor is anything done for a user whom the exempt list names.
pub scan_connect-skips :
    (o : Outside) (setup : Setup) (user : User) (msg : Bytes)
    → ((0 < setup.options.negcache) × (cached_address o (o.inet_pton user.ip) ≡ true))
      ⊎ (scan_checkexempt setup.exempt_masks (full_mask user) (full_ipmask user) ≡ true)
    → scan_connect o setup user msg ≡ (none, [])
unfolding scan_connect
scan_connect-skips o setup user msg (inl (on, e)) =
    let on' : ltb 0 setup.options.negcache ≡ true = lt→ltb _ _ on in rw (on', e)
scan_connect-skips o setup user msg (inr exempt) =
    elim (Bool-cases (ltb 0 setup.options.negcache && cached_address o (o.inet_pton user.ip))) [
      | inl e ↦ rw e
      | inr e ↦ rw (e, exempt)
    ]

-- A user who is not exempt, and whose address, where the cache is on, is well formed and not cached,
-- gets a scan whose count of open tasks is the number of queries that the resolver took and of
-- scanners that have a mask which matches and whose scan libopm took; where that is 0 the scan is
-- freed at once. The blacklists and scanners are fewer than 65536 together, so that the count does
-- not wrap.
pub scan_connect-tasks :
    (o : Outside) (setup : Setup) (user : User) (msg : Bytes)
    → (ltb 0 setup.options.negcache && cached_address o (o.inet_pton user.ip)) ≡ false
    → scan_checkexempt setup.exempt_masks (full_mask user) (full_ipmask user) ≡ false
    → all_queries o.resolver (o.resolver.inet_aton user.ip) setup.opm.blacklists
        + length setup.scanners
      < 65536
    → (scan_connect o setup user msg).0 ≡ (
        if tasks o setup user == 0
        then none
        else some (more_tasks (scan_create user msg) (tasks o setup user)))
unfolding scan_connect
scan_connect-tasks o setup user msg e exempt h =
    rw (e, exempt)
      (freed_or_more (start_tasks o setup (full_mask user) (scan_create user msg))
        (tasks o setup user)
        (start_tasks-more o setup (full_mask user) (scan_create user msg) (omega arith)))
  where
    freed_or_more :
        (r : ScanStruct × List Event) (n : ℕ)
        → r.0 ≡ more_tasks (scan_create user msg) n
        → (free_if_idle r).0 ≡ (if n == 0 then none else some (more_tasks (scan_create user msg) n))
    freed_or_more (ss, events) n same = rw same (ground arith)
