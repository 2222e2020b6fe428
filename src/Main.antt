-- ===== src/Main.antt =====
-- src/main.c: the loop over the cycles, with the signals. It puts src/irc.c, src/opercmd.c,
-- src/scan.c and src/negcache.c together; the options, the pid file and the logs are left out.
pub mod Sound
pub mod Rounds
pub mod Runs
pub mod Calls
mod Samples
use bopm.Prelude.{
  ℕ, suc, ◌+◌, Bool, true, false, Option, none, some, List, [], ◌∷◌, ◌++◌, ◌==◌, if◌then◌else◌,
  Bytes, map,
}
use bopm.Event.{Event}
use bopm.Negcache.{Cache, negcache_insert, negcache_rebuild, check_neg_cache}
use bopm.Negcache.Bits.{zero_shift}
use bopm.Commands.{
  State, Call, Reply, done, overrun, command_init, command_parse, command_timer, command_userhost,
}
use bopm.Irc.Slices.{RegMatches}
use bopm.Irc.Handlers.{
  Request, send_line, parse_command, userhost, connect, restart, undefined, on_line,
}
use bopm.Irc.Connection.{
  Link, Act, irc_timer, transmit, transmit_all, init_cache, Host, Poll, Turn, stopped, raw_overrun,
  target_overrun, went, irc_cycle,
}
use bopm.Scan.Setup.{ScanStruct, Setup}
use bopm.Scan.Connect.{Outside, User, scan_connect, scan_timer}
use bopm.Scan.Cached

-- The state of the parts, `nc_counter` of `scan_timer`, RESTART, REOPEN and ALARMED.
pub record Bot : Type 0 where
  pub link : Link
  pub commands : State
  pub nc_counter : ℕ
  pub is_restart : Bool
  pub is_reopen : Bool
  pub is_alarmed : Bool

-- The start of the loop, behind `config_load`, whose call of `scan_init` makes the negative cache;
-- `p` is the address that MyMalloc() gives for its head.
unfoldable pub bot_init : (negcache p : ℕ) → Bot
unfolding init_cache
bot_init negcache p = record {
  link = record {
    fd = 0;
    last = 0;
    last_reconnect = 0;
    raw = [];
    channels = [];
    nc_head = init_cache negcache p none;
  };
  commands = command_init;
  nc_counter = 0;
  is_restart = false;
  is_reopen = false;
  is_alarmed = false;
}

pub data Signal : Type 0 where
  sig_alrm sig_int sig_usr1 : Signal

-- `none` is `exit (0)`.
unfoldable pub do_signal : Signal → Bot → Option Bot
do_signal sig_alrm bot = some (record bot { is_alarmed = true })
do_signal sig_int bot = none
do_signal sig_usr1 bot = some (record bot { is_reopen = true })

-- What a round does: acts on the connection, calls of the handlers of commands, and what the calls
-- of `scan_connect` do.
pub data Work : Type 0 where
  on_link : Act → Work
  called : Call → Work
  scanned : Option ScanStruct × List Event → Work

-- A round of the loop: the process ends or is replaced, reads or writes outside a buffer, uses a
-- cache that is not there or never comes back from it, or goes on.
pub data Round : Type 0 where
  ended buffer_fault cache_fault : Round
  goes_on : Bot → List Work → Round

abbrev pub add_work : List Work → Round → Round
add_work work ended = ended
add_work work buffer_fault = buffer_fault
add_work work cache_fault = cache_fault
add_work work (goes_on bot later) = goes_on bot (work ++ later)

abbrev pub then_round : Round → (Bot → Round) → Round
then_round ended next = ended
then_round buffer_fault next = buffer_fault
then_round cache_fault next = cache_fault
then_round (goes_on bot work) next = add_work work (next bot)

unfoldable pub after_reply : Bot → Reply → Round
after_reply bot (done s calls) = goes_on (record bot { commands = s }) (map called calls)
after_reply bot overrun = buffer_fault

-- The configuration, with its regular expression, and whether OPT_DEBUG is set.
pub record Setting : Type 0 where
  pub setup : Setup
  pub regexec : Bytes → Option RegMatches
  pub is_debug : Bool

-- What a round meets from outside, besides its cycle: what is around the scanner, how the calls of
-- send() for the handlers of a line end, the addresses of the scans that end without a proxy, the
-- lines that the handlers of commands and the callbacks of the scans send and how send() ends for
-- each, whether execve() replaces the process, and how send() ends for the PING of `irc_timer`.
pub record Answers : Type 0 where
  pub outside : Outside
  pub handler_sends : ℕ → Bool
  pub clean : List Bytes
  pub lines : List Bytes
  pub line_sends : ℕ → Bool
  pub can_exec : Bool
  pub is_ping_sent : Bool

abbrev pub with_link : Bot → Link × List Act → Round
with_link bot (link, acts) = goes_on (record bot { link = link }) (map on_link acts)

abbrev pub send_reply : (is_sent : Bool) → (now : ℕ) → Bot → Option Bytes → Round
send_reply is_sent now bot none = goes_on bot []
send_reply is_sent now bot (some text) = with_link bot (transmit is_sent now text bot.link)

-- Whether `check_neg_cache` on `nc_head` comes back. It reads through a NULL only for a well-formed
-- address.
unfoldable pub search_ends : (negcache now : ℕ) → Option Cache → (address : Option ℕ) → Bool
search_ends negcache now head none = true
search_ends negcache now none (some ip) = negcache == 0
search_ends negcache now (some c) (some ip) = elim (check_neg_cache zero_shift negcache now c ip) [
  | none ↦ false
  | some n ↦ true
]

abbrev pub with_head : Outside → (negcache now : ℕ) → Option Cache → Outside
with_head o negcache now none = o
with_head o negcache now (some c) = Cached.with_cache o negcache now c

-- `scan_connect`, with the search in the cache.
unfoldable pub connect_scan : Setting → Outside → (now : ℕ) → Bot → User → (msg : Bytes) → Round
unfolding search_ends scan_connect
connect_scan w o now bot user msg =
    let negcache : ℕ = w.setup.options.negcache in
    if search_ends negcache now bot.link.nc_head (o.inet_pton user.ip)
    then goes_on bot
        (scanned (scan_connect (with_head o negcache now bot.link.nc_head) w.setup user msg) ∷ [])
    else cache_fault

-- What the handler of a line asks for.
unfoldable pub request : Setting → Outside → (is_sent : Bool) → (now : ℕ) → Bot → Request → Round
unfolding after_reply connect_scan transmit
request w o is_sent now bot (send_line text) = send_reply is_sent now bot (some text)
request w o is_sent now bot (parse_command command target irc_nick) =
    let (s, text) = command_parse now command target irc_nick bot.commands in
    send_reply is_sent now (record bot { commands = s }) text
request w o is_sent now bot (userhost reply) = after_reply bot (command_userhost reply bot.commands)
request w o is_sent now bot (connect user msg) = connect_scan w o now bot user msg
request w o is_sent now bot restart = goes_on (record bot { is_restart = true }) []
request w o is_sent now bot undefined = buffer_fault

unfoldable pub requests :
    Setting → Outside → (send : ℕ → Bool) → (now : ℕ) → List Request → Bot → Round
unfolding request
requests w o send now [] bot = goes_on bot []
requests w o send now (r ∷ rest) bot =
    then_round (request w o (send 0) now bot r) (requests w o (λ n. send (suc n)) now rest)

unfoldable pub on_turn : Setting → Answers → (now : ℕ) → Bot → Turn → Round
unfolding requests
on_turn w a now bot stopped = ended
on_turn w a now bot raw_overrun = buffer_fault
on_turn w a now bot target_overrun = buffer_fault
on_turn w a now bot (went link acts none) = with_link bot (link, acts)
on_turn w a now bot (went link acts (some line)) = add_work (map on_link acts) (
    requests w a.outside a.handler_sends now (on_line w.setup.irc w.setup.version w.regexec line)
      (record bot { link = link }))

abbrev pub with_cache : Bot → Option Cache → Round
with_cache bot none = cache_fault
with_cache bot (some c) = goes_on (record bot { link = record bot.link { nc_head = some c } }) []

-- `negcache_insert` on `nc_head`. It reads through a NULL only for a well-formed address.
unfoldable pub insert_clean : (now : ℕ) → Bot → Option Cache → (address : Option ℕ) → Round
insert_clean now bot none none = goes_on bot []
insert_clean now bot none (some ip) = cache_fault
insert_clean now bot (some c) address = with_cache bot (negcache_insert zero_shift now c address)

-- The scans that end without a proxy, with what inet_pton() makes of their addresses.
unfoldable pub insert_all_clean : (now : ℕ) → List (Option ℕ) → Bot → Round
unfolding insert_clean
insert_all_clean now [] bot = goes_on bot []
insert_all_clean now (address ∷ rest) bot =
    then_round (insert_clean now bot bot.link.nc_head address) (insert_all_clean now rest)

-- `if (OptionsItem->negcache > 0)` of `scan_negative`.
unfoldable pub store_negatives : Setting → Answers → (now : ℕ) → Bot → Round
unfolding insert_all_clean
store_negatives w a now bot =
    if w.setup.options.negcache == 0
    then goes_on bot []
    else insert_all_clean now (map a.outside.inet_pton a.clean) bot

-- The lines of the handlers of commands and of the callbacks.
unfoldable pub send_lines : Answers → (now : ℕ) → Bot → Round
unfolding transmit_all
send_lines a now bot = with_link bot (transmit_all a.line_sends now a.lines bot.link)

-- `if (RESTART)`; `can_exec` says that execve() replaces the process.
unfoldable pub restart_or_go : Setting → (can_exec : Bool) → Bot → Round
restart_or_go w can_exec bot =
    if bot.is_restart
    then if w.is_debug
      then ended
      else if can_exec
      then ended
      else goes_on (record bot { is_restart = false }) []
    else goes_on bot []

unfoldable pub rebuild : Setting → (p now : ℕ) → Bot → Option Cache → Round
rebuild w p now bot none = cache_fault
rebuild w p now bot (some c) =
    with_cache bot (negcache_rebuild zero_shift w.setup.options.negcache now c p)

-- `scan_timer`, with the cache.
unfoldable pub tick_scan : Setting → (p now : ℕ) → Bot → Round
unfolding rebuild
tick_scan w p now bot =
    let (counter, is_time) = scan_timer w.setup.options.negcache bot.nc_counter in
    let bot' : Bot = record bot { nc_counter = counter } in
    if is_time then rebuild w p now bot' bot'.link.nc_head else goes_on bot' []

abbrev pub tick_commands : (now : ℕ) → Bot → Round
tick_commands now bot =
    goes_on (record bot { commands = command_timer now bot.commands; is_alarmed = false }) []

-- `if (ALARMED)`.
unfoldable pub timers : Setting → (is_ping_sent : Bool) → (p now : ℕ) → Bot → Round
unfolding tick_scan irc_timer
timers w is_ping_sent p now bot =
    if bot.is_alarmed
    then then_round
        (then_round (with_link bot (irc_timer is_ping_sent now bot.link)) (tick_scan w p now))
        (tick_commands now)
    else goes_on bot []

-- One round of the loop of `main`. `p` is an address that MyMalloc() gives.
unfoldable pub main_round : Setting → Host → (p now : ℕ) → Poll → Answers → Bot → Round
unfolding on_turn store_negatives send_lines restart_or_go timers irc_cycle
main_round w host p now poll a bot =
    let negcache : ℕ = w.setup.options.negcache in
    then_round
      (then_round
        (then_round
          (then_round
            (on_turn w a now bot (irc_cycle host w.setup.irc negcache p now poll bot.link))
            (store_negatives w a now))
          (send_lines a now))
        (restart_or_go w a.can_exec))
      (λ b. timers w a.is_ping_sent p now (record b { is_reopen = false }))
