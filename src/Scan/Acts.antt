-- ===== src/Scan/Acts.antt =====
-- What each callback of a scan does before a task ends: it bans at most once, and neither caches nor
-- frees.
use bopm.Prelude.{
  ℕ, ◌+◌, ◌≡◌, refl, Bool, true, false, Option, none, some, List, [], ◌∷◌, ◌++◌, arith, Bytes,
}
use bopm.Config.{ChannelConf}
use bopm.Event.{Event, klines, caches, frees, total-append}
use bopm.Scan.Setup.{ScanStruct, ScannerStruct, Setup, Remote, scan_gettype}
use bopm.Scan.Finish.{end_scans, scan_positive}
use bopm.Scan.Callbacks.{
  OpmError, max_read, bind, no_fd, other_error, scan_log, open_proxy_found, open_proxy_checked,
  open_proxy_act, scan_open_proxy, scan_negotiation_failed, scan_timeout, error_events, error_act,
  scan_handle_error,
}
use bopm.Dnsbl.Report.{dnsbl_report}

abbrev pub bit : Bool → ℕ
bit true = 1
bit false = 0

abbrev pub is_some {ℓ} : {A : Type ℓ} → Option A → Bool
is_some none = false
is_some (some _) = true

-- The events are about neither a ban, nor the cache, nor the end of the scan.
abbrev pub Quiet : List Event → Type 0
Quiet events = (klines events ≡ 0) × (caches events ≡ 0) × (frees events ≡ 0)

pub Quiet-append : (xs ys : List Event) → Quiet xs → Quiet ys → Quiet (xs ++ ys)
Quiet-append xs ys q r = (
  omega (arith, total-append _ xs ys),
  omega (arith, total-append _ xs ys),
  omega (arith, total-append _ xs ys),
)

end_scans-Quiet : (scanners : List ScannerStruct) → Quiet (end_scans scanners)
end_scans-Quiet [] = (refl, refl, refl)
end_scans-Quiet (s ∷ scanners) = omega (arith, end_scans-Quiet scanners)

-- `ss'` is `ss` with at most `positive` set, which it is together with a ban, and only for a scan
-- that is not manual.
pub record Act (ss ss' : ScanStruct) (events : List Event) : Type 0 where
  pub scans : ss'.scans ≡ ss.scans
  pub manual : ss'.manual_target ≡ ss.manual_target
  pub bans : klines events + bit ss.positive ≡ bit ss'.positive
  pub uncached : caches events ≡ 0
  pub unfreed : frees events ≡ 0
  pub unbanned : is_some ss.manual_target ≡ true → ss'.positive ≡ ss.positive

abbrev pub ActOf : ScanStruct → ScanStruct × List Event → Type 0
ActOf ss (ss', events) = Act ss ss' events

pub Quiet-Act : (ss : ScanStruct) (events : List Event) → Quiet events → Act ss ss events
Quiet-Act ss events q = record {
  scans = refl;
  manual = refl;
  bans = omega arith;
  uncached = q.1;
  unfreed = q.2;
  unbanned = λ _. refl;
}

pub Act-append :
    {ss ss' : ScanStruct} (front events back : List Event)
    → Quiet front
    → Act ss ss' events
    → Quiet back
    → Act ss ss' (front ++ (events ++ back))
Act-append front events back q a r = record {
  scans = a.scans;
  manual = a.manual;
  bans = omega (arith, a.bans, total-append _ front (events ++ back), total-append _ events back);
  uncached =
      omega (arith, a.uncached, total-append _ front (events ++ back), total-append _ events back);
  unfreed =
      omega (arith, a.unfreed, total-append _ front (events ++ back), total-append _ events back);
  unbanned = a.unbanned;
}

pub scan_positive-Act :
    (setup : Setup) (ss : ScanStruct) (kline type : Bytes)
    → ss.manual_target ≡ none
    → ActOf ss (scan_positive setup ss kline type)
unfolding scan_positive
scan_positive-Act setup ss kline type m = ground (arith, end_scans-Quiet setup.scanners)

scan_log-Quiet :
    (setup : Setup) (stamp : Bytes) (remote : Remote) (ss : ScanStruct)
    → Quiet (scan_log setup stamp remote ss)
unfolding scan_log
scan_log-Quiet setup stamp remote ss = ground arith

dnsbl_report-Quiet :
    (piped : Bool) (setup : Setup) (remote : Remote) (ss : ScanStruct)
    → Quiet (dnsbl_report piped setup remote ss)
unfolding dnsbl_report
dnsbl_report-Quiet piped setup remote ss = ground arith

open_proxy_found-Act :
    (piped : Bool) (setup : Setup) (scanner : Bytes) (remote : Remote) (ss : ScanStruct)
    → ss.manual_target ≡ none
    → ActOf ss (open_proxy_found piped setup scanner remote ss)
unfolding open_proxy_found
open_proxy_found-Act piped setup scanner remote ss m =
    let banned = scan_positive setup ss setup.irc.kline (scan_gettype remote.protocol) in
    Act-append [] banned.1 _ (refl, refl, refl)
      (scan_positive-Act setup ss setup.irc.kline (scan_gettype remote.protocol) m)
      (Quiet-append (dnsbl_report piped setup remote banned.0) _
        (dnsbl_report-Quiet piped setup remote banned.0) (refl, refl, refl))

open_proxy_checked-Act :
    (target scanner : Bytes) (remote : Remote) (ss : ScanStruct)
    → ActOf ss (open_proxy_checked target scanner remote ss)
unfolding open_proxy_checked
open_proxy_checked-Act target scanner remote ss = Quiet-Act ss _ (refl, refl, refl)

open_proxy_act-Act :
    (piped : Bool) (setup : Setup) (scanner : Bytes) (remote : Remote) (target : Option ChannelConf)
    (ss : ScanStruct)
    → ss.manual_target ≡ target
    → ActOf ss (open_proxy_act piped setup scanner remote target ss)
unfolding open_proxy_act
open_proxy_act-Act piped setup scanner remote none ss e =
    open_proxy_found-Act piped setup scanner remote ss e
open_proxy_act-Act piped setup scanner remote (some target) ss e =
    open_proxy_checked-Act target.name scanner remote ss

pub scan_open_proxy-Act :
    (piped : Bool) (setup : Setup) (stamp scanner : Bytes) (remote : Remote) (ss : ScanStruct)
    → ActOf ss (scan_open_proxy piped setup stamp scanner remote ss)
unfolding scan_open_proxy
scan_open_proxy-Act piped setup stamp scanner remote ss =
    Act-append (scan_log setup stamp remote ss)
      (open_proxy_act piped setup scanner remote ss.manual_target ss).1 _
      (scan_log-Quiet setup stamp remote ss)
      (open_proxy_act-Act piped setup scanner remote ss.manual_target ss refl) (refl, refl, refl)

pub scan_negotiation_failed-Act :
    (setup : Setup) (stamp : Bytes) (remote : Remote) (ss : ScanStruct)
    → ActOf ss (scan_negotiation_failed setup stamp remote ss)
unfolding scan_negotiation_failed
scan_negotiation_failed-Act setup stamp remote ss =
    Quiet-Act ss _ (scan_log-Quiet setup stamp remote ss)

pub scan_timeout-Act :
    (setup : Setup) (stamp : Bytes) (remote : Remote) (ss : ScanStruct)
    → ActOf ss (scan_timeout setup stamp remote ss)
unfolding scan_timeout
scan_timeout-Act setup stamp remote ss = Quiet-Act ss _ (scan_log-Quiet setup stamp remote ss)

error_events-Quiet :
    (err : OpmError) (target scanner : Bytes) (bytes_read : ℕ) (remote : Remote) (ip : Bytes)
    → Quiet (error_events err target scanner bytes_read remote ip)
unfolding error_events
error_events-Quiet max_read target scanner bytes_read remote ip = (refl, refl, refl)
error_events-Quiet no_fd target scanner bytes_read remote ip = (refl, refl, refl)
error_events-Quiet bind target scanner bytes_read remote ip = (refl, refl, refl)
error_events-Quiet other_error target scanner bytes_read remote ip = (refl, refl, refl)

error_act-Quiet :
    (err : OpmError) (scanner : Bytes) (bytes_read : ℕ) (remote : Remote) (ip : Bytes)
    (target : Option ChannelConf)
    → Quiet (error_act err scanner bytes_read remote ip target)
unfolding error_act
error_act-Quiet err scanner bytes_read remote ip none = (refl, refl, refl)
error_act-Quiet err scanner bytes_read remote ip (some target) =
    error_events-Quiet err target.name scanner bytes_read remote ip

pub scan_handle_error-Act :
    (err : OpmError) (scanner : Bytes) (bytes_read : ℕ) (remote : Remote) (ss : ScanStruct)
    → ActOf ss (scan_handle_error err scanner bytes_read remote ss)
unfolding scan_handle_error
scan_handle_error-Act err scanner bytes_read remote ss =
    Quiet-Act ss _ (error_act-Quiet err scanner bytes_read remote ss.ip ss.manual_target)
