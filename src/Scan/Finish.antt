-- ===== src/Scan/Finish.antt =====
-- `scan_positive`, `scan_negative`, `scan_checkfinished` and `scan_free` of src/scan.c.
use bopm.Prelude.{
  true, Option, none, some, List, [], ◌∷◌, ◌++◌, ltb, ◌==◌, if◌then◌else◌, Bytes, codes,
}
use bopm.Config.{ChannelConf}
use bopm.Irc.Send.{irc_send}
use bopm.Event.{Event, sent, klined, ended, cached, freed}
use bopm.Scan.Setup.{ScanStruct, ScannerStruct, Setup}
use bopm.Scan.Kline.{scan_irckline}

-- `opm_end` for every scanner.
abbrev pub end_scans : List ScannerStruct → List Event
end_scans [] = []
end_scans (scs ∷ rest) = ended scs.name ∷ end_scans rest

unfoldable pub scan_positive : Setup → ScanStruct → Bytes → Bytes → ScanStruct × List Event
scan_positive setup ss kline type = if ss.positive then (ss, []) else (
  record ss { positive = true },
  klined (scan_irckline ss kline type) ∷ end_scans setup.scanners,
)

unfoldable pub scan_negative : Setup → ScanStruct → List Event
scan_negative setup ss = if ltb 0 setup.options.negcache then cached ss.ip ∷ [] else []

-- What `scan_checkfinished` does with a finished scan, on `ss->manual_target`.
unfoldable pub finish_events : Setup → Option ChannelConf → ScanStruct → List Event
unfolding scan_negative irc_send
finish_events setup (some target) ss =
    sent (
      irc_send (
        codes "PRIVMSG "
        ++ (target.name ++ (codes " :CHECK -> All tests on " ++ (ss.ip ++ codes " completed.")))))
    ∷ []
finish_events setup none ss = if ss.positive then [] else scan_negative setup ss

-- `none` once the scan is freed. `scans` is unsigned, so `scans <= 0` is a test for 0.
unfoldable pub scan_checkfinished : Setup → ScanStruct → Option ScanStruct × List Event
unfolding finish_events
scan_checkfinished setup ss =
    if ss.scans == 0
    then (none, finish_events setup ss.manual_target ss ++ freed ∷ [])
    else (some ss, [])
