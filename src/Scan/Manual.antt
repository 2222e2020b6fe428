-- ===== src/Scan/Manual.antt =====
-- `scan_manual` of src/scan.c: a scan that an operator asks for in a channel.
use bopm.Prelude.{
  Bool, true, false, Option, none, some, List, [], ◌∷◌, ◌++◌, ◌==◌, if◌then◌else◌, Bytes, codes,
  space, split_at, str_case_eq,
}
use bopm.Config.{ChannelConf}
use bopm.Irc.Send.{irc_send}
use bopm.Event.{Event, sent, submitted, freed}
use bopm.Scan.Setup.{ScanStruct, ScannerStruct, Setup, increase}
use bopm.Scan.Connect.{OpmReply, opm_success, no_protocols, bad_addr, other_code, Outside}
use bopm.Dnsbl.Lookup.{dnsbl_add}

-- `PRIVMSG %s :` in front of a text.
abbrev pub tell : ChannelConf → Bytes → Event
tell target text = sent (irc_send (codes "PRIVMSG " ++ (target.name ++ (codes " :" ++ text))))

-- The parameter up to its first space, and what stands behind that, if there is one.
unfoldable pub ip_and_scanner : Bytes → Bytes × Option Bytes
ip_and_scanner param = elim (split_at space param) [
  | none ↦ (param, none)
  | some (ip, scannername) ↦ (ip, some scannername)
]

unfoldable pub is_wanted : Option Bytes → Bytes → Bool
is_wanted none name = true
is_wanted (some scannername) name = str_case_eq scannername name

unfoldable pub manual_reply :
    OpmReply → ChannelConf → ScannerStruct → ScanStruct → ScanStruct × List Event
manual_reply opm_success target scs ss = (increase ss, submitted scs.name ∷ [])
manual_reply no_protocols target scs ss = (ss, submitted scs.name ∷ [])
manual_reply bad_addr target scs ss = (
  ss,
  submitted scs.name
      ∷ tell target
          (codes "OPM -> Bad address " ++ (ss.ip ++ (codes " [" ++ (scs.name ++ codes "]"))))
      ∷ [],
)
manual_reply other_code target scs ss = (
  ss,
  submitted scs.name
      ∷ tell target
          (codes "OPM -> Unknown error " ++ (ss.ip ++ (codes " [" ++ (scs.name ++ codes "]"))))
      ∷ [],
)

-- The loop over the scanners; with a name, over those that bear it, in any case of letters.
unfoldable pub manual_scanners :
    (Bytes → Bytes → OpmReply)
    → Option Bytes
    → ChannelConf
    → List ScannerStruct
    → ScanStruct
    → ScanStruct × List Event
unfolding is_wanted manual_reply
manual_scanners opm_scan scannername target [] ss = (ss, [])
manual_scanners opm_scan scannername target (scs ∷ rest) ss =
    let (ss', events) =
      if is_wanted scannername scs.name
      then manual_reply (opm_scan scs.name ss.ip) target scs ss
      else (ss, []) in
    let (ss'', more) = manual_scanners opm_scan scannername target rest ss' in
    (ss'', events ++ more)

unfoldable pub manual_create : Bytes → ChannelConf → ScanStruct
manual_create ip target = record {
  irc_nick = none;
  irc_username = none;
  irc_hostname = none;
  ip = ip;
  proof = none;
  scans = 0;
  positive = false;
  manual_target = some target;
}

abbrev begun : ChannelConf → Bytes → Option Bytes → Event
begun target ip none =
    tell target (codes "CHECK -> Checking '" ++ (ip ++ codes "' for open proxies on all scanners"))
begun target ip (some name) =
    tell target
      (codes "CHECK -> Checking '" ++ (ip ++ (codes "' for open proxies [" ++ (name ++ codes "]"))))

abbrev no_scanner : ChannelConf → Option Bytes → List Event
no_scanner target none = []
no_scanner target (some name) =
    tell target (
      codes "CHECK -> No such scanner '"
      ++ (name ++ (codes "', or '" ++ (name ++ codes "' has 0 protocols."))))
    ∷ []

-- The end of `scan_manual`.
unfoldable pub abort_if_idle :
    ChannelConf → Option Bytes → ScanStruct × List Event → Option ScanStruct × List Event
abort_if_idle target scannername (ss, events) =
    if ss.scans == 0
    then (
      none,
      events
          ++ (no_scanner target scannername
              ++ (tell target
                    (codes "CHECK -> No scans active on '" ++ (ss.ip ++ codes "', aborting scan."))
                  ∷ freed
                  ∷ [])),
    )
    else (some ss, events)

unfoldable pub manual_tasks :
    Outside → Setup → ChannelConf → Option Bytes → ScanStruct → ScanStruct × List Event
unfolding dnsbl_add manual_scanners
manual_tasks o setup target scannername ss =
    let (ss', queries) = dnsbl_add o.resolver setup ss in
    let (ss'', scans) = manual_scanners o.opm_scan scannername target setup.scanners ss' in
    (ss'', begun target ss.ip scannername ∷ (queries ++ scans))

-- Behind the resolution of the name. Where that fails, the `scan_struct` that was allocated before
-- it is not freed.
unfoldable pub manual_resolved :
    Outside
    → Setup
    → ChannelConf
    → (error_text ip : Bytes) → Option Bytes
    → Option Bytes
    → Option ScanStruct × List Event
unfolding manual_tasks abort_if_idle manual_create
manual_resolved o setup target error_text ip scannername none = (
  none,
  tell target (codes "CHECK -> Error resolving host '" ++ (ip ++ (codes "': " ++ error_text))) ∷ [],
)
manual_resolved o setup target error_text ip scannername (some address) =
    abort_if_idle target scannername
      (manual_tasks o setup target scannername (manual_create address target))

-- `resolve` is firedns_resolveip4() followed by inet_ntoa(), `error_text` the string of its error.
unfoldable pub scan_manual :
    Outside
    → Setup
    → (resolve : Bytes → Option Bytes) → (error_text : Bytes) → Option Bytes
    → ChannelConf
    → Option ScanStruct × List Event
unfolding ip_and_scanner manual_resolved
scan_manual o setup resolve error_text none target =
    (none, tell target (codes "OPM -> Invalid parameters.") ∷ [])
scan_manual o setup resolve error_text (some param) target =
    let (ip, scannername) = ip_and_scanner param in
    manual_resolved o setup target error_text ip scannername (resolve ip)
