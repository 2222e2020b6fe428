-- ===== src/Dnsbl/Report.antt =====
-- `dnsbl_report` of src/dnsbl.c: the email about an open proxy.
use bopm.Prelude.{◌||◌, Bool, List, [], ◌∷◌, ◌++◌, if◌then◌else◌, Bytes, codes, decimal}
use bopm.Irc.Send.{irc_send_channels, snprintf}
use bopm.Event.{Event, sent, mailed, report_counted}
use bopm.Scan.Setup.{ScanStruct, Setup, Remote, printed, scan_gettype}
use bopm.Dnsbl.Answer.{is_empty}

abbrev end_line : Bytes
end_line = 10 ∷ []

-- The email, in a buffer of 4096 bytes.
unfoldable pub report_text : Setup → Remote → ScanStruct → Bytes
unfolding scan_gettype printed
report_text setup remote ss = snprintf 4096 (
    codes "From: "
    ++ (setup.irc.nick
        ++ (codes " <"
            ++ (setup.opm.dnsbl_from
                ++ (codes ">"
                    ++ (end_line
                        ++ (codes "To: "
                            ++ (setup.opm.dnsbl_to
                                ++ (end_line
                                    ++ (codes "Subject: BOPM Report"
                                        ++ (end_line
                                            ++ (codes "X-BOPM-Version: "
                                                ++ (setup.version
                                                    ++ (end_line
                                                        ++ (end_line
                                                            ++ (scan_gettype remote.protocol
                                                            ++ (codes ": "
                                                            ++ (ss.ip
                                                            ++ (codes ":"
                                                            ++ (decimal remote.port
                                                            ++ (end_line
                                                            ++ (end_line
                                                            ++ (printed ss.proof
                                                            ++ end_line)))))))))))))))))))))))

-- `piped` tells whether popen() succeeds. The address of a scan is never NULL.
unfoldable pub dnsbl_report : (piped : Bool) → Setup → Remote → ScanStruct → List Event
unfolding report_text irc_send_channels
dnsbl_report piped setup remote ss =
    if is_empty setup.opm.dnsbl_to || is_empty setup.opm.dnsbl_from || is_empty setup.opm.sendmail
    then []
    else if piped
    then mailed (report_text setup remote ss) ∷ report_counted ∷ []
    else sent (
        irc_send_channels setup.irc_channels (
          codes "I was trying to create a pipe to'"
          ++ (snprintf 512 (setup.opm.sendmail ++ codes " -t")
              ++ codes "' to send a DNSBL report, and it failed! I'll give up for now.")))
      ∷ []
