-- ===== src/Dnsbl/Answer.antt =====
-- `dnsbl_positive` and `dnsbl_result` of src/dnsbl.c.
use bopm.Prelude.{
  ℕ, ◌+◌, Bool, true, false, not, ◌&&◌, Option, none, some, List, [], ◌∷◌, ◌++◌, ltb, ◌==◌,
  if◌then◌else◌, Bytes, codes, length, drop,
}
use bopm.Config.{ChannelConf, BlacklistConf}
use bopm.Irc.Send.{irc_send, irc_send_channels}
use bopm.Event.{Event, sent, listed_counted}
use bopm.Scan.Setup.{ScanStruct, Setup, decrease, printed, user_mask}
use bopm.Dnsbl.Types.{text_type}
use bopm.Scan.Finish.{scan_positive, scan_checkfinished}

abbrev pub is_empty : Bytes → Bool
is_empty [] = true
is_empty (_ ∷ _) = false

-- ` appears in BL zone %s (%s)`
unfoldable pub zone_text : BlacklistConf → Bytes → Bytes
zone_text bl text = codes " appears in BL zone " ++ (bl.name ++ (codes " (" ++ (text ++ codes ")")))

-- The part of `dnsbl_positive` behind the text, on `ss->manual_target`. `i` is the blacklist's place
-- in the configuration.
unfoldable pub announce :
    Setup → ℕ → BlacklistConf → Bytes → Option ChannelConf → ScanStruct → ScanStruct × List Event
unfolding zone_text irc_send irc_send_channels printed user_mask
announce setup i bl text (some target) ss = (
  ss,
  sent (
        irc_send (
          codes "PRIVMSG "
          ++ (target.name ++ (codes " :CHECK -> DNSBL -> " ++ (ss.ip ++ zone_text bl text)))))
      ∷ listed_counted i
      ∷ [],
)
announce setup i bl text none ss =
    let kline = if is_empty bl.kline then setup.irc.kline else bl.kline in
    let (ss', events) = scan_positive setup ss kline text in
    if ss.positive then (ss, listed_counted i ∷ []) else (
      ss',
      events
          ++ (sent (
                irc_send_channels setup.irc_channels (
                  codes "DNSBL -> "
                  ++ (user_mask (printed ss.irc_nick) (printed ss.irc_username)
                        (printed ss.irc_hostname)
                      ++ zone_text bl text)))
              ∷ listed_counted i
              ∷ []),
    )

unfoldable pub positive_text :
    Setup → ℕ → BlacklistConf → Option Bytes → ScanStruct → Option (ScanStruct × List Event)
positive_text setup i bl none ss = none
positive_text setup i bl (some text) ss =
    if is_empty text && not bl.ban_unknown
    then some (ss, [])
    else some (announce setup i bl text ss.manual_target ss)

unfoldable pub dnsbl_positive :
    Setup → ℕ → BlacklistConf → ℕ → ScanStruct → Option (ScanStruct × List Event)
unfolding text_type positive_text announce
dnsbl_positive setup i bl type ss = positive_text setup i bl (text_type bl.type bl.reply type) ss

-- `fdns_errno` at the answer, as far as the source tells its values apart.
pub data FdnsError : Type 0 where
  no_error nxdomain timeout other_error : FdnsError

-- `struct firedns_result`: the name that was looked up, and the first and the last byte of `text`;
-- with `fdns_errno` and the string that firedns_strerror() gives for it.
pub record FirednsResult : Type 0 where
  pub lookup : Bytes
  pub first : ℕ
  pub last : ℕ
  pub fdns_errno : FdnsError
  pub error_text : Bytes

-- The report that an address is not listed, which only a manual scan makes.
unfoldable pub not_listed : Option ChannelConf → (ip lookup : Bytes) → List Event
unfolding irc_send
not_listed none ip lookup = []
not_listed (some target) ip lookup =
    let zone = if ltb (length ip) (length lookup) then drop (length ip + 1) lookup else lookup in
    sent (
      irc_send (
        codes "PRIVMSG "
        ++ (target.name
            ++ (codes " :CHECK -> DNSBL -> "
                ++ (ip ++ (codes " does not appear in BL zone " ++ zone))))))
    ∷ []

unfoldable pub lookup_error : Setup → FirednsResult → FdnsError → List Event
unfolding irc_send_channels
lookup_error setup res timeout = []
lookup_error setup res _ =
    sent (
      irc_send_channels setup.irc_channels
        (codes "DNSBL -> Lookup error on " ++ (res.lookup ++ (codes ": " ++ res.error_text))))
    ∷ []

-- What is done with the answer before the scan's count falls.
unfoldable pub judge :
    Setup
    → ℕ
    → BlacklistConf
    → FirednsResult
    → FdnsError
    → ScanStruct
    → Option (ScanStruct × List Event)
unfolding dnsbl_positive not_listed lookup_error
judge setup i bl res no_error ss = dnsbl_positive setup i bl res.last ss
judge setup i bl res nxdomain ss =
    if res.first == 0
    then some (ss, not_listed ss.manual_target ss.ip res.lookup)
    else some (ss, lookup_error setup res nxdomain)
judge setup i bl res timeout ss = some (ss, lookup_error setup res timeout)
judge setup i bl res other_error ss = some (ss, lookup_error setup res other_error)

-- `ss->scans--; scan_checkfinished (ss);` behind what has happened so far.
unfoldable pub finish_one : Setup → ScanStruct × List Event → Option ScanStruct × List Event
unfolding scan_checkfinished
finish_one setup (ss, events) =
    let (left, last) = scan_checkfinished setup (decrease ss) in (left, events ++ last)

unfoldable pub finish_judged :
    Setup → Option (ScanStruct × List Event) → Option (Option ScanStruct × List Event)
finish_judged setup none = none
finish_judged setup (some judged) = some (finish_one setup judged)

-- `none` is an access outside `text_type`.
unfoldable pub dnsbl_result :
    Setup → ℕ → BlacklistConf → FirednsResult → ScanStruct → Option (Option ScanStruct × List Event)
unfolding judge finish_judged finish_one
dnsbl_result setup i bl res ss = finish_judged setup (judge setup i bl res res.fdns_errno ss)
