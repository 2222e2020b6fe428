-- ===== src/Stats/Samples.antt =====
-- The counts and the report after some events.
use bopm.Prelude.{◌≡◌, refl, false, none, some, List, [], ◌∷◌, arith, codes, decimal, decimal_02}
use bopm.Config.{BlacklistConf, a_bitmask, wingate}
use bopm.Event.{Event, proxy_counted, listed_counted, report_counted, freed, total}
use bopm.Irc.Send.{irc_send}
use bopm.Misc.Time.{dissect_time}
use bopm.Stats.{stats_init, stats_proxies, stats_connect, count_events, stats_output}
use bopm.Stats.Fds.{Dup, used, ebadf, eintr, emfile, fdstats_output, count_fds, count_fds-endless}
use bopm.Stats.Counts.{is_report, is_proxy, with_counts, state_of, count_events_lem}

abbrev zone : BlacklistConf
zone = record {
  name = codes "bl.example";
  kline = [];
  type = a_bitmask;
  ban_unknown = false;
  reply = [];
  stats_recv = 0;
}

abbrev events : List Event
events =
    proxy_counted wingate ∷ listed_counted 0 ∷ freed ∷ proxy_counted wingate ∷ report_counted ∷ []

stats_reported :
    stats_output
      (λ n t. codes "0.50")
      160
      (codes "#bopm")
      (stats_connect (count_events events (stats_init 100 (zone ∷ []))))
    ≡ codes "PRIVMSG #bopm :Uptime: 1 minute, 0 seconds\n"
      ∷ codes "PRIVMSG #bopm :DNSBL: 1 successful lookups from bl.example\n"
      ∷ codes "PRIVMSG #bopm :DNSBL: 1 reports sent\n"
      ∷ codes "PRIVMSG #bopm :Found 2 (WINGATE) open.\n"
      ∷ codes "PRIVMSG #bopm :Number of connects: 1 (0.50/minute)\n"
      ∷ []
unfolding stats_output stats_connect count_events stats_init stats_proxies dissect_time irc_send
    decimal decimal_02
stats_reported = refl

count_events_lem_example :
    count_events events (stats_init 100 (zone ∷ []))
    ≡ state_of 100
        (total is_report events)
        (λ type. total (is_proxy type) events)
        (with_counts events 0 (zone ∷ []))
count_events_lem_example = count_events_lem events 100 (zone ∷ []) (omega arith, tt)

-- Of four descriptors two are in use; a signal interrupts the second call.
abbrev answers : List Dup
answers = used ∷ eintr ∷ ebadf ∷ used ∷ ebadf ∷ []

fd_report :
    fdstats_output (codes "#bopm") [] (some 4) answers
    ≡ some (irc_send (codes "PRIVMSG #bopm :Total open FD: 2/4"))
unfolding fdstats_output count_fds decimal
fd_report = refl

-- RLIM_INFINITY.
count_fds-endless_example : count_fds 18446744073709551615 (used ∷ emfile ∷ []) 0 0 ≡ none
count_fds-endless_example =
    count_fds-endless 18446744073709551615 (used ∷ emfile ∷ []) 0 0 (omega arith) (omega arith)
