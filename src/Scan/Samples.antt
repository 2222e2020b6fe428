-- ===== src/Scan/Samples.antt =====
-- A run of one scan, and the theorems about scans at that run.
use bopm.Prelude.{
  ◌+◌, ◌≤◌, ◌≡◌, refl, inr, false, not, ◌&&◌, none, some, List, [], ◌∷◌, ◌++◌, arith, ◌==◌,
  if◌then◌else◌, codes,
}
use bopm.Config.{ChannelConf, IrcConf, BlacklistConf, UserConf, ScannerConf, a_bitmask, http}
use bopm.Irc.Send.{irc_send}
use bopm.Event.{Event, line, undefined, endless, klines, caches, frees}
use bopm.Match.{match}
use bopm.Negcache.{Cache, nc_init}
use bopm.Negcache.Times.{empty, is_live}
use bopm.Negcache.Refines.{insert_all, put_all}
use bopm.Scan.Setup.{ScanStruct, Setup, Remote, user_mask}
use bopm.Scan.Kline.{kline_table, format_loop, scan_irckline}
use bopm.Scan.Expand.{
  expand, value_of, scan_irckline-expand, format_loop-endless, scan_irckline-unwritten,
}
use bopm.Scan.Connect.{
  Outside, User, opm_success, scan_checkexempt, scan_connect, scan_create, scan_init,
  cached_address, is_match, scan_user,
}
use bopm.Scan.Tasks.{more_tasks, tasks, scan_connect-tasks}
use bopm.Scan.Cached.{with_cache, scan_connect-cached}
use bopm.Config.Defaults.{default_irc}
use bopm.Irc.Send.{newline}
use bopm.Scan.Banned.{ban_text, scan_irckline-default}
use bopm.Scan.Exempt.{Linked, scan_init-Linked}
use bopm.Scan.Manual.{scan_manual, manual_create, ip_and_scanner}
use bopm.Scan.ManualTasks.{wanted, scan_manual-tasks}
use bopm.Scan.Life.{Callback, open_proxy, scan_ended, answered, run}
use bopm.Scan.Acts.{bit, is_some}
use bopm.Scan.Steps.{cache_count}
use bopm.Scan.Lifetime.{any_open, run_lem}
use bopm.Dnsbl.Answer.{FirednsResult, no_error}
use bopm.Dnsbl.Types.{text_type}
use bopm.Dnsbl.Lookup.{started}

abbrev zone : BlacklistConf
zone = record {
  name = codes "bl.example";
  kline = [];
  type = a_bitmask;
  ban_unknown = false;
  reply = record { number = 2; type = codes "proxy" } ∷ [];
  stats_recv = 0;
}

abbrev irc_conf : IrcConf
irc_conf = record {
  nick = codes "bopm";
  username = codes "bopm";
  realname = codes "bopm";
  server = codes "irc.example";
  port = 6667;
  password = [];
  vhost = [];
  nickserv = [];
  oper = codes "bopm x";
  mode = codes "+c";
  away = [];
  connregex = [];
  kline = codes "KLINE *@%i :open %t";
  channels = [];
  performs = [];
}

abbrev setup : Setup
setup = record {
  irc = irc_conf;
  options = record { negcache = 3600; dns_fdlimit = 64; pidfile = []; scanlog = [] };
  opm = record { blacklists = zone ∷ []; dnsbl_from = []; dnsbl_to = []; sendmail = [] };
  scanners = record { name = codes "default"; masks = codes "*!*@*" ∷ [] } ∷ [];
  irc_channels = codes "#bopm";
  exempt_masks = codes "*!*@trusted" ∷ [];
  version = codes "3.1";
  scanlog = false;
}

abbrev user : User
user = record {
  nick = codes "joe";
  username = codes "j";
  hostname = codes "host.example";
  ip = codes "10.0.0.1";
}

abbrev scan : ScanStruct
scan = more_tasks (scan_create user (codes "connect")) 2

abbrev listed : FirednsResult
listed = record {
  lookup = codes "1.0.0.10.bl.example";
  first = 127;
  last = 2;
  fdns_errno = no_error;
  error_text = [];
}

abbrev remote : Remote
remote = record { port = 8080; protocol = http }

-- The blacklist answers between the discovery of an open proxy and the end of the scanner.
abbrev callbacks : List Callback
callbacks =
    open_proxy false (codes "now") (codes "default") remote
    ∷ answered 0 zone listed
    ∷ scan_ended
    ∷ []

listed-fits : text_type zone.type zone.reply listed.last ≡ some (codes "proxy")
unfolding text_type
listed-fits = refl

run_lem_example :
    (events : List Event) × (run setup callbacks (some scan) ≡ some (none, events))
    × (frees events ≡ 1)
    × (klines events ≤ bit (not (is_some scan.manual_target)))
    × (bit (any_open callbacks && not (is_some scan.manual_target)) ≤ klines events)
    × (caches events ≡ cache_count setup (is_some scan.manual_target) (klines events == 1))
unfolding scan_create
run_lem_example =
    run_lem setup callbacks scan refl (omega arith) (omega arith)
      (omega arith, (omega arith, (omega arith, refl)))
      (tt, ((codes "proxy", listed-fits), (tt, tt)))

abbrev outside : Outside
outside = record {
  resolver = record { inet_aton = λ _. some 16777226; firedns_getip = λ _. started };
  inet_pton = λ _. some 16777226;
  opm_scan = λ _ _. opm_success;
  check_neg_cache = λ _. false;
}

scan_connect-tasks_example : (scan_connect outside setup user (codes "connect")).0 ≡ (
    if tasks outside setup user == 0
    then none
    else some (more_tasks (scan_create user (codes "connect")) (tasks outside setup user)))
unfolding scan_checkexempt is_match match cached_address user_mask
scan_connect-tasks_example =
    scan_connect-tasks outside setup user (codes "connect") refl refl (omega arith)

-- 10.0.0.1, which was found clean 50 seconds ago.
scan_connect-cached_example :
    (c : Cache) × (insert_all ((100, 16777226) ∷ []) (nc_init 0) ≡ some c)
    × (scan_connect (with_cache outside setup.options.negcache 150 c) setup user (codes "connect")
        ≡ (if is_live setup.options.negcache 150 (put_all ((100, 16777226) ∷ []) empty 16777226)
            then (none, [])
            else scan_user
                (with_cache outside setup.options.negcache 150 c)
                setup
                user
                (codes "connect")))
scan_connect-cached_example =
    scan_connect-cached 0 ((100, 16777226) ∷ []) (omega arith, tt) outside setup user
      (codes "connect") 150 16777226 refl

abbrev channel : ChannelConf
channel = record { name = codes "#bopm"; key = []; invite = [] }

scan_manual-tasks_example :
    (scan_manual outside setup
      (λ _. some (codes "10.0.0.1"))
      []
      (some (codes "host default"))
      channel).0
    ≡ (let n =
          1
          + wanted outside.opm_scan
              (ip_and_scanner (codes "host default")).1
              (codes "10.0.0.1")
              setup.scanners in
        if n == 0 then none else some (more_tasks (manual_create (codes "10.0.0.1") channel) n))
scan_manual-tasks_example =
    scan_manual-tasks outside setup (λ _. some (codes "10.0.0.1")) [] (codes "host default") channel
      (codes "10.0.0.1") refl (omega arith)

abbrev scanner_block : ScannerConf
scanner_block = record {
  name = codes "default";
  protocols = record { type = http; port = 8080 } ∷ [];
  vhost = [];
  fd = 64;
  target_ip = codes "10.0.0.9";
  target_port = 6667;
  timeout = 30;
  max_read = 4096;
  target_string = [];
}

abbrev user_block : UserConf
user_block = record { masks = codes "*!*@*" ∷ []; scanners = codes "Default" ∷ [] }

scan_init-Linked_example :
    Linked (scanner_block ∷ []) (user_block ∷ []) (scan_init (scanner_block ∷ []) (user_block ∷ []))
scan_init-Linked_example = scan_init-Linked (scanner_block ∷ []) (user_block ∷ [])

kline_sent :
    scan_irckline scan (codes "KLINE *@%i :open %t") (codes "HTTP")
    ≡ line (codes "KLINE *@10.0.0.1 :open HTTP\n")
unfolding scan_irckline scan_create irc_send
kline_sent = refl

scan_irckline-expand_example :
    scan_irckline scan (codes "K%i") (codes "HTTP")
    ≡ line (irc_send (expand (kline_table scan (codes "HTTP")) (codes "K%i")))
unfolding expand value_of kline_table scan_create
scan_irckline-expand_example =
    scan_irckline-expand scan (codes "HTTP") b'K' (codes "%i") (tt, (tt, (tt, (tt, (tt, tt))))) refl
      (inr (refl, refl, tt)) (omega arith) (omega arith)

format_loop-endless_example :
    format_loop 1000
      (kline_table scan (codes "HTTP"))
      (codes "KLINE " ++ b'%' ∷ [])
      0
      (record { text = []; terminated = false })
    ≡ endless
format_loop-endless_example =
    format_loop-endless 1000 scan (codes "HTTP") (codes "KLINE ")
      (refl, (refl, (refl, (refl, (refl, (refl, tt)))))) (omega arith)

scan_irckline-unwritten_example :
    scan_irckline scan (codes "%n is banned") (codes "HTTP") ≡ undefined
unfolding kline_table scan_create
scan_irckline-unwritten_example =
    scan_irckline-unwritten scan (codes "HTTP") b'n' (codes " is banned")
      (omega arith, (omega arith, (omega arith, (omega arith, (omega arith, tt))))) refl refl

scan_irckline-default_example :
    scan_irckline (scan_create user (codes "connect")) default_irc.kline (codes "HTTP")
    ≡ line (ban_text user ++ newline ∷ [])
scan_irckline-default_example =
    scan_irckline-default user (codes "connect") (codes "HTTP") (omega arith)
