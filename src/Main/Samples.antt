-- ===== src/Main/Samples.antt =====
-- Rounds of the loop, and their theorem at one of them.
use bopm.Config.{ChannelConf, IrcConf}
use bopm.Config.Defaults.{default_options, default_opm}
use bopm.Scan.Setup.{Setup}
use bopm.Scan.Connect.{bad_addr, Outside}
use bopm.Scan.Manual.{scan_manual}
use bopm.Dnsbl.Lookup.{started}
use bopm.Stats.{stats_init}
use bopm.Commands.{done, command_parse, command_userhost}
use bopm.Prelude.{◌≡◌, ◌≢◌, refl, true, false, none, some, [], ◌∷◌, ◌++◌, arith, codes}
use bopm.Negcache.{nc_init}
use bopm.Commands.Queue.{IsValid}
use bopm.Irc.Connection.{Host, connected, nothing, irc_cycle, introduction}
use bopm.Main.{Bot, bot_init, sig_alrm, do_signal, cache_fault, Setting, Answers, main_round}
use bopm.Main.Calls.{
  Told, scanned, check_message, idle, check_call, run_call, command_parse-scan_manual,
}
use bopm.Main.Runs.{Reach, start, signalled, gone_round, Reach-main_round}

abbrev conf : IrcConf
conf = record {
  nick = codes "bopm";
  username = codes "bopm";
  realname = codes "Monitor";
  server = codes "irc.example";
  port = 6667;
  password = [];
  vhost = [];
  nickserv = [];
  oper = [];
  mode = [];
  away = [];
  connregex = [];
  kline = [];
  channels = [];
  performs = [];
}

-- A clean address is remembered for an hour.
abbrev setup : Setup
setup = record {
  irc = conf;
  options = record default_options { negcache = 3600 };
  opm = default_opm;
  scanners = [];
  irc_channels = codes "#bopm";
  exempt_masks = [];
  version = codes "3.1.3";
  scanlog = false;
}

abbrev setting : Setting
setting = record { setup = setup; regexec = λ _. none; is_debug = false }

abbrev outside : Outside
outside = record {
  resolver = record { inet_aton = λ _. some 16777226; firedns_getip = λ _. started };
  inet_pton = λ _. some 16777226;
  opm_scan = λ _ _. bad_addr;
  check_neg_cache = λ _. false;
}

abbrev quiet : Answers
quiet = record {
  outside = outside;
  handler_sends = λ _. true;
  clean = [];
  lines = [];
  line_sends = λ _. true;
  can_exec = false;
  is_ping_sent = true;
}

abbrev host : Host
host = record {
  resolve = λ _. some 16777226;
  socket = some 5;
  inet_pton = λ _. true;
  bind = true;
  connect = connected;
  send = λ _. true;
}

abbrev connected_bot : Bot
connected_bot = record (bot_init 3600 0) {
  link = record {
    fd = 5;
    last = 1000;
    last_reconnect = 0;
    raw = [];
    channels = [];
    nc_head = some (nc_init 0);
  };
}

-- The first round connects, and an alarm comes behind it.
abbrev alarmed : Reach setting (record connected_bot { is_alarmed = true }) 1000
unfolding main_round irc_cycle introduction do_signal bot_init
alarmed =
    signalled
      (gone_round (start 0 1000) host 0 1000 nothing quiet connected_bot _ (omega arith)
        (λ text. omega arith) refl)
      sig_alrm (record connected_bot { is_alarmed = true }) refl

-- A scan of 10.0.0.1 ends in the round behind it, in which the send() of its handlers fails.
abbrev scan_ends : Answers
scan_ends = record quiet {
  clean = codes "10.0.0.1" ∷ [];
  lines = codes "PRIVMSG #bopm :done" ∷ [];
  line_sends = λ _. false;
}

Reach-main_round_example :
    IsValid 1000 (bot_init 3600 0).commands
    × (main_round setting host 0 1001 nothing scan_ends (record connected_bot { is_alarmed = true })
        ≢ cache_fault)
unfolding bot_init
Reach-main_round_example =
    Reach-main_round host 0 1001 nothing scan_ends alarmed (omega arith) (λ text. omega arith)

abbrev told : Told
told = record {
  outside = outside;
  resolve = λ _. some (codes "10.0.0.1");
  error_text = [];
  rate = λ _ _. [];
  limit = none;
  answers = [];
}

abbrev channel : ChannelConf
channel = record { name = codes "#bopm"; key = []; invite = [] }

command_parse-scan_manual_example :
    (command_userhost
        (codes "joe" ++ b'*' ∷ b'=' ∷ codes "+joe@host")
        (command_parse 100
          (check_message (codes "bopm") (codes "10.0.0.1"))
          channel
          (codes "joe")
          (idle 0)).0
      ≡ done (idle 0) (check_call (codes "joe") (codes "10.0.0.1") channel ∷ []))
    × (run_call told setup 101
          (stats_init 0 [])
          (check_call (codes "joe") (codes "10.0.0.1") channel)
        ≡ scanned (
            scan_manual told.outside setup told.resolve told.error_text
              (some (codes "10.0.0.1"))
              channel))
command_parse-scan_manual_example =
    command_parse-scan_manual (codes "bopm") (codes "joe") (codes "10.0.0.1") (codes "+joe@host")
      channel 100 101 0 told setup (stats_init 0 []) (refl, (refl, (refl, (refl, tt))))
      (refl, (refl, (refl, (refl, tt))))
