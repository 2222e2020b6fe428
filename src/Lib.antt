-- ===== src/Lib.antt =====
-- A model of the Blitzed Open Proxy Monitor (BOPM), an IRC bot that tests each connecting user for
-- an open proxy and bans the users on whose hosts it finds one.
--
-- The program. The bot reads lines from an IRC server and cuts each into its parameters (Irc). A
-- notice of a connection makes it start a scan of the user (Scan): one query in each DNS blacklist
-- (Dnsbl) and one test by each scanner that has a mask which matches the user (Match), unless the
-- negative cache knows the user's address as clean (Negcache). Their answers come back as
-- callbacks, in any order; the first that finds a proxy bans the user, and the last one frees the
-- scan. An operator asks for a scan or for statistics (Stats) by a command in a channel, which
-- waits in a queue until the server has told whether its sender is an operator (Commands).
--
-- The files.
--   Prelude: the names that all share; lists over native numbers; C strings as lists of bytes, with
--     strcmp(), strcasecmp(), strchr() and `%d`.
--   Config (src/config.h): the records of the configuration; Config.Defaults (src/config.c) what
--     they hold before bopm.conf is read.
--   Event: what the program does to the outside, in order, so that it can be counted.
--   Match (src/match.c): `match`, one step of its loop a definition, with its limit of 512 calls,
--     and `collapse`; Match.Spec says what a mask means.
--   Irc (src/irc.c): Irc.Send holds `irc_send` and `irc_send_channels`, Irc.Read the loop of
--     `irc_read`, Irc.Parse the cutting of `irc_parse`, Irc.Userinfo `userinfo_create` and
--     `get_channel`, Irc.Handlers the handlers `m_…` and their dispatch, Irc.Slices how `m_notice`
--     takes a user out of a text; Irc.Lines and Irc.Notice follow whole lines, Irc.Notice with the
--     lemmas of Irc.Offsets. Irc.Connection has the connection itself, from `irc_init` to
--     `irc_reconnect` and `irc_timer`; Irc.Outage follows its runs as a relation of steps,
--     Irc.Silence a server that says nothing, Irc.Targets the list of channels.
--   Commands (src/opercmd.c): the state is the queue `COMMANDS` and the counter of `command_timer`;
--     `command_parse`, `command_timer` and `command_userhost` are the steps.
--   Scan (src/scan.c): Scan.Setup has `scan_struct`; Scan.Connect `scan_connect` and `scan_init`,
--     Scan.Manual `scan_manual`, Scan.Callbacks and Scan.Finish the callbacks of libopm and what
--     ends a scan, Scan.Kline `scan_irckline`. Scan.Life runs a row of callbacks about one scan,
--     with no scan in place of a freed one; Scan.Acts, Scan.Answers, Scan.Steps and Scan.Lifetime
--     reason about such a run, Scan.Tasks and Scan.ManualTasks about the start of a scan,
--     Scan.Expand about the ban, Scan.Banned about the ban of the default configuration.
--   Dnsbl (src/dnsbl.c): Dnsbl.Lookup has `dnsbl_add`, Dnsbl.Types the text of a listing in its
--     buffer of 128 bytes, Dnsbl.Answer `dnsbl_positive` and `dnsbl_result`, Dnsbl.Report
--     `dnsbl_report`.
--   Main (src/main.c): `main_round` is a round of the loop, in which the turns of the connection,
--     the requests of the lines, the start and the ends of scans, what is sent and the timers come
--     together; Main.Runs follows the rounds and the signals between them, Main.Calls has the
--     handlers of commands (src/opercmd.c). The life of each scan is in Scan.
--   Negcache (src/negcache.c): the negative cache, a Patricia trie whose nodes stand in a memory.
--     Negcache.Trie is the trie that the nodes stand for (Negcache.Represents), Negcache.Insert
--     shows that an insertion keeps it and Negcache.Times that its times are a map;
--     Negcache.Refines and Negcache.Rebuild follow whole runs, Negcache.Shift a machine's shift by
--     64, and Scan.Cached a user who connects while the cache holds earlier addresses.
--   LinkedList (src/list.c, src/list.h): doubly linked lists in a memory; LinkedList.Segment says
--     what a row of nodes is, LinkedList.Add and LinkedList.Remove what the calls make of it,
--     LinkedList.Foreach what the loops visit and LinkedList.Runs that all of it is a sequence.
--   Misc (src/misc.c): `dissect_time`.
--   Stats (src/stats.c): the counters and `stats_output`; Stats.Fds has `fdstats_output`.
--   The modules named Samples run the definitions on concrete data.
--
-- Conventions. A C string is the list of its bytes, a `list_t *` the list of its data. Counters
-- keep the width of their C type: an unsigned short modulo 2 ^ 16, an unsigned int modulo 2 ^ 32. A
-- text that snprintf() writes is cut to its buffer. A call of the log, of malloc() or of free()
-- leaves no trace, but for the end of a scan; output under OPT_DEBUG is left out, as by default. An
-- access outside a buffer is a value of the result type, and so is a loop that never ends.
--
-- Bounds and fuel. `match` runs on its own limit of 512 calls, which the code has. The loop of
-- `scan_irckline` has 65536 * 512 rounds as fuel: a position below 65536 for each of at most 511
-- lengths of the message, so that a loop that takes more comes back to a state it was in. The loops
-- of `dissect_time` have the time as fuel, from which each round takes at least 1. The loops down
-- the negative cache have 65 rounds as fuel: the bits that the nodes test fall from 64, and a round
-- that meets no lower bit is the last. `decimal` has a number's size as fuel for its digits.
--
-- Parameters: what the system answers about sockets (also whether each send() fails), the resolver
-- (src/firedns.c is a copy of the library firedns), libopm, the offsets of regexec(), inet_aton()
-- and inet_pton(), the clock, the printing of a float, and what the machine makes of the shift of
-- 64 bits by 64 in src/negcache.c, which C leaves undefined. libopm's callbacks about a scan come
-- one after another, none inside another.
--
-- Not modelled: reading bopm.conf (src/config-parser.y, src/config-lexer.l), the circular lists of
-- src/dlclist.c, which nothing uses, the start of the process, and the log and portability code
-- (src/main.c before its loop, src/log.c, src/malloc.c, src/inet.c, src/compat.c, src/snprintf.c).
pub mod Commands
pub mod Config
pub mod Dnsbl
pub mod Event
pub mod Irc
pub mod LinkedList
pub mod Main
pub mod Match
pub mod Misc
pub mod Negcache
pub mod Prelude
pub mod Scan
pub mod Stats
