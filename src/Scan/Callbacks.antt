-- ===== src/Scan/Callbacks.antt =====
-- The callbacks of src/scan.c that libopm makes about one scan. `scanner` is the name of the
-- scanner to which the callback belongs, `stamp` the present time as strftime() prints it.
use bopm.Prelude.{
  ℕ, Bool, Option, none, some, List, [], ◌∷◌, ◌++◌, if◌then◌else◌, Bytes, codes, decimal,
}
use bopm.Config.{ChannelConf}
use bopm.Irc.Send.{irc_send, irc_send_channels}
use bopm.Event.{Event, sent, logged, proxy_counted}
use bopm.Scan.Setup.{ScanStruct, Setup, Remote, printed, user_mask, remote_text, scan_gettype}
use bopm.Scan.Finish.{scan_positive}
use bopm.Dnsbl.Answer.{finish_one}
use bopm.Dnsbl.Report.{dnsbl_report}

-- `[%s] %s:%d (%s) "%s"` and a newline.
unfoldable pub scan_log : Setup → Bytes → Remote → ScanStruct → List Event
unfolding scan_gettype printed
scan_log setup stamp remote ss =
    if setup.scanlog
    then logged (
        codes "["
        ++ (stamp
            ++ (codes "] "
                ++ (ss.ip
                    ++ (codes ":"
                        ++ (decimal remote.port
                            ++ (codes " ("
                                ++ (scan_gettype remote.protocol
                                    ++ (codes ") \"" ++ (printed ss.proof ++ codes "\"\n"))))))))))
      ∷ []
    else []

-- `scan_open_proxy` for a user who connected.
unfoldable pub open_proxy_found :
    (piped : Bool) → Setup → Bytes → Remote → ScanStruct → ScanStruct × List Event
unfolding scan_positive dnsbl_report irc_send_channels printed user_mask remote_text
open_proxy_found piped setup scanner remote ss =
    let (ss', banned) = scan_positive setup ss setup.irc.kline (scan_gettype remote.protocol) in
    (
      ss',
      banned
          ++ (dnsbl_report piped setup remote ss'
              ++ (sent (
                    irc_send_channels setup.irc_channels (
                      codes "OPEN PROXY -> "
                      ++ (user_mask (printed ss'.irc_nick) (printed ss'.irc_username)
                            (printed ss'.irc_hostname)
                          ++ (codes " " ++ remote_text ss'.ip remote scanner))))
                  ∷ [])),
    )

-- `scan_open_proxy` for a manual scan.
unfoldable pub open_proxy_checked : Bytes → Bytes → Remote → ScanStruct → ScanStruct × List Event
unfolding irc_send remote_text
open_proxy_checked target scanner remote ss = (
  ss,
  sent (
        irc_send (
          codes "PRIVMSG "
          ++ (target ++ (codes " :CHECK -> OPEN PROXY " ++ remote_text ss.ip remote scanner))))
      ∷ [],
)

-- The two branches of `scan_open_proxy`, on `ss->manual_target`.
unfoldable pub open_proxy_act :
    (piped : Bool)
    → Setup
    → (scanner : Bytes) → Remote
    → Option ChannelConf
    → ScanStruct
    → ScanStruct × List Event
open_proxy_act piped setup scanner remote none ss = open_proxy_found piped setup scanner remote ss
open_proxy_act piped setup scanner remote (some target) ss =
    open_proxy_checked target.name scanner remote ss

unfoldable pub scan_open_proxy :
    (piped : Bool) → Setup → (stamp scanner : Bytes) → Remote → ScanStruct → ScanStruct × List Event
unfolding open_proxy_act open_proxy_found open_proxy_checked scan_log
scan_open_proxy piped setup stamp scanner remote ss =
    let (ss', events) = open_proxy_act piped setup scanner remote ss.manual_target ss in
    (ss', scan_log setup stamp remote ss ++ (events ++ proxy_counted remote.protocol ∷ []))

-- Both callbacks only write to the log.
unfoldable pub scan_negotiation_failed :
    Setup → Bytes → Remote → ScanStruct → ScanStruct × List Event
unfolding scan_log
scan_negotiation_failed setup stamp remote ss = (ss, scan_log setup stamp remote ss)

unfoldable pub scan_timeout : Setup → Bytes → Remote → ScanStruct → ScanStruct × List Event
unfolding scan_log
scan_timeout setup stamp remote ss = (ss, scan_log setup stamp remote ss)

unfoldable pub scan_end : Setup → ScanStruct → Option ScanStruct × List Event
unfolding finish_one
scan_end setup ss = finish_one setup (ss, [])

-- The codes `OPM_ERR_…` that `scan_handle_error` tells apart.
pub data OpmError : Type 0 where
  max_read bind no_fd other_error : OpmError

unfoldable pub error_events :
    OpmError → (target scanner : Bytes) → (bytes_read : ℕ) → Remote → Bytes → List Event
unfolding irc_send remote_text
error_events max_read target scanner bytes_read remote ip =
    sent (
      irc_send (
        codes "PRIVMSG "
        ++ (target
            ++ (codes " :CHECK -> Negotiation failed "
                ++ (remote_text ip remote scanner
                    ++ (codes " (" ++ (decimal bytes_read ++ codes " bytes read)")))))))
    ∷ []
error_events no_fd target scanner bytes_read remote ip =
    sent (
      irc_send (
        codes "PRIVMSG "
        ++ (target
            ++ (codes " :CHECK -> Scan failed "
                ++ (remote_text ip remote scanner
                    ++ codes " (file descriptor allocation error)")))))
    ∷ []
error_events bind target scanner bytes_read remote ip = []
error_events other_error target scanner bytes_read remote ip = []

-- The code of `scan_handle_error`, on `ss->manual_target`.
unfoldable pub error_act : OpmError → Bytes → ℕ → Remote → Bytes → Option ChannelConf → List Event
error_act err scanner bytes_read remote ip none = []
error_act err scanner bytes_read remote ip (some target) =
    error_events err target.name scanner bytes_read remote ip

unfoldable pub scan_handle_error :
    OpmError → Bytes → ℕ → Remote → ScanStruct → ScanStruct × List Event
unfolding error_act error_events
scan_handle_error err scanner bytes_read remote ss =
    (ss, error_act err scanner bytes_read remote ss.ip ss.manual_target)
