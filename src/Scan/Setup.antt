-- ===== src/Scan/Setup.antt =====
-- The `scan_struct` and the `scanner_struct` of src/scan.h, and what a running program holds fixed.
use bopm.Prelude.{ℕ, ◌+◌, ◌%◌, ◌^◌, Bool, Option, none, some, List, ◌++◌, Bytes, codes, decimal}
use bopm.Config.{
  ChannelConf, IrcConf, OptionsConf, OpmConf, ProtocolType, http, httppost, socks4, socks5, wingate,
  router, unknown,
}

-- Of a manual scan the first three fields and `proof` are NULL. `scans` is an `unsigned short`, and
-- `positive` one that is only set to 0 and 1. The fields of `remote` that libopm fills are
-- arguments of the callbacks.
pub record ScanStruct : Type 0 where
  pub irc_nick : Option Bytes
  pub irc_username : Option Bytes
  pub irc_hostname : Option Bytes
  pub ip : Bytes
  pub proof : Option Bytes
  pub scans : ℕ
  pub positive : Bool
  pub manual_target : Option ChannelConf

pub record ScannerStruct : Type 0 where
  pub name : Bytes
  pub masks : List Bytes

-- The configuration, the global `SCANNERS`, the text `IRC_CHANNELS`, the masks of `ExemptItem`, the
-- program's version, and whether a scan log is configured and open.
pub record Setup : Type 0 where
  pub irc : IrcConf
  pub options : OptionsConf
  pub opm : OpmConf
  pub scanners : List ScannerStruct
  pub irc_channels : Bytes
  pub exempt_masks : List Bytes
  pub version : Bytes
  pub scanlog : Bool

-- The fields `port` and `protocol` of libopm's remote at a callback.
pub record Remote : Type 0 where
  pub port : ℕ
  pub protocol : ProtocolType

abbrev pub u16 : ℕ
u16 = 2 ^ 16

-- `scans++` and `scans--` of an `unsigned short`.
abbrev pub increase : ScanStruct → ScanStruct
increase ss = record ss { scans = (ss.scans + 1) % u16 }

abbrev pub decrease : ScanStruct → ScanStruct
decrease ss = record ss { scans = (ss.scans + 65535) % u16 }

unfoldable pub scan_gettype : ProtocolType → Bytes
scan_gettype http = codes "HTTP"
scan_gettype httppost = codes "HTTPPOST"
scan_gettype socks4 = codes "SOCKS4"
scan_gettype socks5 = codes "SOCKS5"
scan_gettype wingate = codes "WINGATE"
scan_gettype router = codes "ROUTER"
scan_gettype unknown = codes "undefined"

-- `%s` with an argument that may be NULL, as glibc prints it.
unfoldable pub printed : Option Bytes → Bytes
printed none = codes "(null)"
printed (some text) = text

-- `%s!%s@%s`
unfoldable pub user_mask : Bytes → Bytes → Bytes → Bytes
user_mask nick user host = nick ++ (codes "!" ++ (user ++ (codes "@" ++ host)))

-- `%s:%d (%s) [%s]`
unfoldable pub remote_text : Bytes → Remote → Bytes → Bytes
unfolding scan_gettype
remote_text ip remote scanner =
    ip
    ++ (codes ":"
        ++ (decimal remote.port
            ++ (codes " ("
                ++ (scan_gettype remote.protocol ++ (codes ") [" ++ (scanner ++ codes "]"))))))
