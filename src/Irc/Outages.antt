-- ===== src/Irc/Outages.antt =====
-- Runs of the connection of src/irc.c, and its theorems at concrete states.
use bopm.Prelude.{
  ℕ, map, ◌≡◌, refl, true, false, none, some, List, [], ◌∷◌, arith, leb, if◌then◌else◌, codes,
  length,
}
use bopm.Config.{ChannelConf, IrcConf}
use bopm.Irc.Connection.{
  Link, said, opened, irc_timer, Host, ConnectReply, connected, refused, nothing, arrived, went,
  introduction, irc_cycle, init_cache, target_list,
}
use bopm.Irc.Outage.{Reach, start, cycled, ticked, said_lines, AreSpaced, Reach-AreSpaced}
use bopm.Irc.Silence.{run_timer, irc_timer-returns}
use bopm.Irc.Targets.{join_names, target_list-join}

abbrev channels : List ChannelConf
channels =
    record { name = codes "#bopm"; key = []; invite = [] }
    ∷ record { name = codes "#ops"; key = []; invite = [] }
    ∷ []

abbrev conf : IrcConf
conf = record {
  nick = codes "bopm";
  username = codes "bopm";
  realname = codes "Monitor";
  server = codes "irc.example";
  port = 6667;
  password = [];
  vhost = [];
  nickserv = [];
  oper = [];
  mode = [];
  away = [];
  connregex = [];
  kline = [];
  channels = channels;
  performs = [];
}

abbrev host : ConnectReply → Host
host reply = record {
  resolve = λ _. some 16777226;
  socket = some 5;
  inet_pton = λ _. true;
  bind = true;
  connect = reply;
  send = λ _. true;
}

abbrev link : (fd last last_reconnect : ℕ) → Link
link fd last last_reconnect = record {
  fd = fd;
  last = last;
  last_reconnect = last_reconnect;
  raw = [];
  channels = codes "#bopm,#ops";
  nc_head = none;
}

-- The server closes the connection, and refuses the next one; the PING of the timer 30 seconds later
-- is not sent, and the bot gives up again.
abbrev outage : Reach conf 0 (link 0 1000 1480) 1480 (1480 ∷ 1010 ∷ [])
unfolding irc_cycle introduction irc_timer
outage =
    ticked
      (said_lines
        (cycled
          (cycled
            (cycled (start 1000) (host connected) 0 1000 nothing (link 5 1000 0)
              (opened 5 ∷ map said (introduction conf)) none (omega arith) refl)
            (host connected) 0 1010 (arrived [] false) (link 0 1000 1010) _ none (omega arith) refl)
          (host refused) 0 1011 nothing (link 5 1000 1010) _ none (omega arith) refl)
        (λ n. false) 1012 (codes "AWAY" ∷ []) (omega arith))
      false 1480 (omega arith)

Reach-AreSpaced_example : AreSpaced (1480 ∷ 1010 ∷ [])
Reach-AreSpaced_example = Reach-AreSpaced outage

abbrev silent_link : Link
silent_link =
    (irc_timer true 1900 (run_timer ((1400, true) ∷ (1500, false) ∷ []) (link 4 1000 900))).0

-- The second PING is not sent.
irc_timer-returns_example :
    (silent_link.fd ≡ 0)
    × (irc_cycle (host connected) conf 0 0 2000 nothing silent_link
        ≡ went
            (record silent_link {
              fd = 5;
              last = 2000;
              channels = codes "#bopm,#ops";
              nc_head = init_cache 0 0 silent_link.nc_head;
            })
            (opened 5 ∷ map said (introduction conf))
            none)
unfolding target_list
irc_timer-returns_example =
    irc_timer-returns (host connected) conf 0 0 nothing (link 4 1000 900)
      ((1400, true) ∷ (1500, false) ∷ []) true 1900 2000 5 (codes "#bopm,#ops")
      (omega arith, (omega arith, tt)) (omega arith) (omega arith) refl refl refl refl refl
      (λ n. refl)

target_list-join_example :
    target_list channels (some [])
    ≡ (if leb (length (join_names channels)) 512 then some (join_names channels) else none)
target_list-join_example = target_list-join channels
