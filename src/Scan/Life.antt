-- ===== src/Scan/Life.antt =====
-- The life of one scan: the callbacks about it, in any order, until its last task has ended.
use bopm.Prelude.{ℕ, Bool, Option, none, some, List, [], ◌∷◌, ◌++◌, Bytes}
use bopm.Config.{BlacklistConf}
use bopm.Event.{Event}
use bopm.Scan.Setup.{ScanStruct, Setup, Remote}
use bopm.Scan.Callbacks.{
  OpmError, scan_open_proxy, scan_negotiation_failed, scan_timeout, scan_end, scan_handle_error,
}
use bopm.Dnsbl.Answer.{FirednsResult, dnsbl_result}

-- A callback with its arguments.
pub data Callback : Type 0 where
  open_proxy : (piped : Bool) (stamp scanner : Bytes) → Remote → Callback
  negotiation_failed : (stamp : Bytes) → Remote → Callback
  timed_out : (stamp : Bytes) → Remote → Callback
  failed : OpmError → (scanner : Bytes) → (bytes_read : ℕ) → Remote → Callback
  scan_ended : Callback
  answered : (i : ℕ) → BlacklistConf → FirednsResult → Callback

-- The callbacks that end a task of the scan: one of its scanners, or one of its queries.
abbrev pub ends_task : Callback → ℕ
ends_task scan_ended = 1
ends_task (answered i bl res) = 1
ends_task (open_proxy piped stamp scanner remote) = 0
ends_task (negotiation_failed stamp remote) = 0
ends_task (timed_out stamp remote) = 0
ends_task (failed err scanner bytes_read remote) = 0

-- The scan after a callback, and what was done. `none` in place of the scan: it is freed.
unfoldable pub callback : Setup → Callback → ScanStruct → Option (Option ScanStruct × List Event)
callback setup (open_proxy piped stamp scanner remote) ss =
    let (ss', events) = scan_open_proxy piped setup stamp scanner remote ss in
    some (some ss', events)
callback setup (negotiation_failed stamp remote) ss =
    let (ss', events) = scan_negotiation_failed setup stamp remote ss in some (some ss', events)
callback setup (timed_out stamp remote) ss =
    let (ss', events) = scan_timeout setup stamp remote ss in some (some ss', events)
callback setup (failed err scanner bytes_read remote) ss =
    let (ss', events) = scan_handle_error err scanner bytes_read remote ss in
    some (some ss', events)
callback setup scan_ended ss = some (scan_end setup ss)
callback setup (answered i bl res) ss = dnsbl_result setup i bl res ss

abbrev pub Result : Type 0
Result = Option (Option ScanStruct × List Event)

unfoldable pub add_events : List Event → Result → Result
add_events events none = none
add_events events (some (left, later)) = some (left, events ++ later)

unfoldable pub and_then : Result → (Option ScanStruct → Result) → Result
and_then none next = none
and_then (some (left, events)) next = add_events events (next left)

-- A row of callbacks. `none` is a fault: a write outside a buffer, or a callback about a scan that
-- is freed.
unfoldable pub run : Setup → List Callback → Option ScanStruct → Result
unfolding and_then add_events
run setup [] left = some (left, [])
run setup (c ∷ cs) none = none
run setup (c ∷ cs) (some ss) = and_then (callback setup c ss) (run setup cs)
