-- ===== src/Scan/Connect.antt =====
-- `scan_connect`, `scan_create`, `scan_checkexempt`, `scan_init` and `scan_timer` of src/scan.c.
use bopm.Prelude.{
  ℕ, ◌+◌, ◌*◌, Bool, true, false, ◌&&◌, ◌||◌, Option, none, some, List, [], ◌∷◌, ◌++◌, ltb, leb,
  ◌==◌, if◌then◌else◌, Bytes, str_case_eq,
}
use bopm.Config.{UserConf, ScannerConf}
use bopm.Irc.Send.{snprintf, msg_len_max}
use bopm.Match.{Outcome, returned, overrun, match}
use bopm.Event.{Event, submitted, freed}
use bopm.Scan.Setup.{ScanStruct, ScannerStruct, Setup, increase, user_mask}
use bopm.Dnsbl.Lookup.{Resolver, dnsbl_add}

-- What `opm_scan` returns, as far as the source tells its codes apart.
pub data OpmReply : Type 0 where
  opm_success no_protocols bad_addr other_code : OpmReply

-- The calls that `scan_connect` makes to the outside: the resolver, inet_pton(), libopm's
-- `opm_scan` for a scanner and an address, and whether `check_neg_cache` finds an address.
pub record Outside : Type 0 where
  pub resolver : Resolver
  pub inet_pton : Bytes → Option ℕ
  pub opm_scan : (scanner ip : Bytes) → OpmReply
  pub check_neg_cache : ℕ → Bool

-- `match (mask, name)` as a condition. Where it reads in front of an empty mask it answers 0, as
-- long as that read does not trap.
abbrev pub answers : Outcome → Bool
answers (returned b) = b
answers overrun = false

unfoldable pub is_match : Bytes → Bytes → Bool
is_match mask name = answers (match mask name)

unfoldable pub scan_checkexempt : List Bytes → Bytes → Bytes → Bool
scan_checkexempt [] mask ipmask = false
scan_checkexempt (exempt_mask ∷ rest) mask ipmask =
    if is_match exempt_mask mask || is_match exempt_mask ipmask
    then true
    else scan_checkexempt rest mask ipmask

-- `user[0]` to `user[3]`.
pub record User : Type 0 where
  pub nick : Bytes
  pub username : Bytes
  pub hostname : Bytes
  pub ip : Bytes

unfoldable pub scan_create : User → Bytes → ScanStruct
scan_create user msg = record {
  irc_nick = some user.nick;
  irc_username = some user.username;
  irc_hostname = some user.hostname;
  ip = user.ip;
  proof = some msg;
  scans = 0;
  positive = false;
  manual_target = none;
}

-- The loop over one scanner's masks. After OPM_ERR_NOPROTOCOLS it goes on with the next mask.
unfoldable pub try_masks :
    OpmReply → Bytes → Bytes → List Bytes → ScanStruct → ScanStruct × List Event
try_masks reply scanner mask [] ss = (ss, [])
try_masks reply scanner mask (scsmask ∷ rest) ss =
    let (ss', events) = try_masks reply scanner mask rest ss in
    if is_match scsmask mask
    then elim reply [
      | opm_success ↦ (increase ss, submitted scanner ∷ [])
      | no_protocols ↦ (ss', submitted scanner ∷ events)
      | bad_addr ↦ (ss, submitted scanner ∷ [])
      | other_code ↦ (ss, submitted scanner ∷ [])
    ]
    else (ss', events)

-- The loop over the scanners.
unfoldable pub try_scanners :
    (Bytes → Bytes → OpmReply) → Bytes → List ScannerStruct → ScanStruct → ScanStruct × List Event
unfolding try_masks
try_scanners opm_scan mask [] ss = (ss, [])
try_scanners opm_scan mask (scs ∷ rest) ss =
    let (ss', events) = try_masks (opm_scan scs.name ss.ip) scs.name mask scs.masks ss in
    let (ss'', more) = try_scanners opm_scan mask rest ss' in (ss'', events ++ more)

-- `dnsbl_add` is called where there is a blacklist; without one it would do nothing.
unfoldable pub start_tasks : Outside → Setup → Bytes → ScanStruct → ScanStruct × List Event
unfolding dnsbl_add try_scanners
start_tasks o setup mask ss =
    let (ss', queries) = dnsbl_add o.resolver setup ss in
    let (ss'', scans) = try_scanners o.opm_scan mask setup.scanners ss' in (ss'', queries ++ scans)

-- `if (ss->scans == 0) scan_free (ss);`
unfoldable pub free_if_idle : ScanStruct × List Event → Option ScanStruct × List Event
free_if_idle (ss, events) =
    if ss.scans == 0 then (none, events ++ freed ∷ []) else (some ss, events)

-- What follows the look into the negative cache.
unfoldable pub scan_user : Outside → Setup → User → Bytes → Option ScanStruct × List Event
unfolding scan_create start_tasks free_if_idle scan_checkexempt user_mask
scan_user o setup user msg =
    let mask = snprintf msg_len_max (user_mask user.nick user.username user.hostname) in
    let ipmask = snprintf msg_len_max (user_mask user.nick user.username user.ip) in
    if scan_checkexempt setup.exempt_masks mask ipmask
    then (none, [])
    else free_if_idle (start_tasks o setup mask (scan_create user msg))

unfoldable pub cached_address : Outside → Option ℕ → Bool
cached_address o none = true
cached_address o (some address) = o.check_neg_cache address

unfoldable pub scan_connect : Outside → Setup → User → Bytes → Option ScanStruct × List Event
unfolding cached_address scan_user
scan_connect o setup user msg =
    if ltb 0 setup.options.negcache && cached_address o (o.inet_pton user.ip)
    then (none, [])
    else scan_user o setup user msg

-- The masks of one user block, if it names the scanner.
unfoldable pub names_scanner : Bytes → List Bytes → Bool
names_scanner name [] = false
names_scanner name (scannername ∷ rest) =
    if str_case_eq scannername name then true else names_scanner name rest

unfoldable pub link_masks : Bytes → List UserConf → List Bytes
unfolding names_scanner
link_masks name [] = []
link_masks name (uc ∷ rest) =
    if names_scanner name uc.scanners
    then uc.masks ++ link_masks name rest
    else link_masks name rest

-- The list `SCANNERS` that `scan_init` builds. What it passes to libopm is not modelled.
unfoldable pub scan_init : List ScannerConf → List UserConf → List ScannerStruct
unfolding link_masks
scan_init [] users = []
scan_init (sc ∷ rest) users =
    record { name = sc.name; masks = link_masks sc.name users } ∷ scan_init rest users

abbrev pub neg_cache_rebuild : ℕ
neg_cache_rebuild = 60 * 60 * 12

-- `scan_timer`: the new counter, and whether the negative cache is rebuilt.
unfoldable pub scan_timer : ℕ → ℕ → ℕ × Bool
scan_timer negcache nc_counter =
    if ltb 0 negcache
    then if leb neg_cache_rebuild nc_counter then (0, true) else (nc_counter + 1, false)
    else (nc_counter, false)
