-- ===== src/Irc/Connection.antt =====
-- src/irc.c: `irc_cycle`, `irc_init`, `irc_connect`, `irc_reconnect`, `irc_timer` and the end of
-- `irc_read`. The clock stands still within a call. What send() answers is a parameter.
use bopm.Prelude.{
  ℕ, suc, ◌+◌, Bool, true, false, not, ◌&&◌, Option, none, some, List, [], ◌∷◌, ◌++◌, ltb, leb,
  ◌==◌, if◌then◌else◌, Bytes, codes, length, take,
}
use bopm.Config.{ChannelConf, IrcConf}
use bopm.Negcache.{Cache, nc_init}
use bopm.Irc.Send.{msg_len_max, irc_send}
use bopm.Irc.Read.{Reading, whole, partial, overrun, irc_read}

-- IRC_FD, IRC_LAST, IRC_LASTRECONNECT, IRC_RAW, IRC_CHANNELS and `nc_head`.
pub record Link : Type 0 where
  pub fd : ℕ
  pub last : ℕ
  pub last_reconnect : ℕ
  pub raw : Bytes
  pub channels : Bytes
  pub nc_head : Option Cache

pub data Act : Type 0 where
  said : Bytes → Act
  slept reconnecting : Act
  closed opened : ℕ → Act

abbrev pub reconnect_interval : ℕ
reconnect_interval = 30

abbrev pub nodata_timeout : ℕ
nodata_timeout = 900

-- `time (&IRC_LAST)` behind a call.
abbrev pub since : (present : ℕ) → Link × List Act → Link × List Act
since present (k, acts) = (record k { last = present }, acts)

abbrev pub close_fd : ℕ → List Act
close_fd fd = if ltb 0 fd then closed fd ∷ [] else []

-- The log line of the end is `reconnecting`.
unfoldable pub irc_reconnect : (present : ℕ) → Link → Link × List Act
irc_reconnect present k =
    if ltb present (k.last_reconnect + reconnect_interval)
    then (k, slept ∷ [])
    else (record k { last_reconnect = present; fd = 0 }, close_fd k.fd ++ reconnecting ∷ [])

-- The call of send() in `irc_send`, with what it answers; `false` is a -1.
unfoldable pub transmit : (is_sent : Bool) → (present : ℕ) → Bytes → Link → Link × List Act
unfolding irc_reconnect
transmit true present bytes k = (k, said bytes ∷ [])
transmit false present bytes k = irc_reconnect present k

abbrev pub with_acts : List Act → Link × List Act → Link × List Act
with_acts acts (k, later) = (k, acts ++ later)

-- Calls of `irc_send` one behind the other; `send` says how each of them ends.
unfoldable pub transmit_all :
    (send : ℕ → Bool) → (present : ℕ) → List Bytes → Link → Link × List Act
unfolding transmit
transmit_all send present [] k = (k, [])
transmit_all send present (bytes ∷ rest) k =
    let r = transmit (send 0) present bytes k in
    with_acts r.1 (transmit_all (λ n. send (suc n)) present rest r.0)

unfoldable pub irc_timer : (is_sent : Bool) → (present : ℕ) → Link → Link × List Act
unfolding irc_reconnect transmit
irc_timer is_sent present k =
    if leb (k.last + nodata_timeout) present
    then since present (irc_reconnect present k)
    else if leb (k.last + 450) present
    then transmit is_sent present (irc_send (codes "PING :BOPM")) k
    else (k, [])

-- `strncat (IRC_CHANNELS, text, MSGLENMAX)`; `none` is a store behind the array of 513 bytes.
unfoldable pub str_n_cat : Option Bytes → Bytes → Option Bytes
str_n_cat none text = none
str_n_cat (some buf) text =
    let longer = buf ++ take msg_len_max text in
    if ltb (length longer) msg_len_max then some longer else none

-- The loop at the end of `irc_init`. The assignment to IRC_CHANNELS[MSGLENMAX] behind it, which lies
-- one byte behind the array, is left out.
unfoldable pub target_list : List ChannelConf → Option Bytes → Option Bytes
unfolding str_n_cat
target_list [] buf = buf
target_list (chan ∷ []) buf = str_n_cat buf chan.name
target_list (chan ∷ (next ∷ rest)) buf =
    target_list (next ∷ rest) (str_n_cat (str_n_cat buf chan.name) (codes ","))

pub data ConnectReply : Type 0 where
  connected already_connected in_progress refused : ConnectReply

-- What the system answers: firedns_resolveip4(), socket(), inet_pton(), bind() and connect(),
-- and each call of send() in `irc_connect`.
pub record Host : Type 0 where
  pub resolve : Bytes → Option ℕ
  pub socket : Option ℕ
  pub inet_pton : Bytes → Bool
  pub bind : Bool
  pub connect : ConnectReply
  pub send : ℕ → Bool

abbrev pub inaddr_none : ℕ
inaddr_none = 4294967295

pub data Init : Type 0 where
  -- `exit (EXIT_FAILURE)`
  exited : Init
  -- the channels do not fit their array
  channels_overrun : Init
  ready : Link → List Act → Init

abbrev pub has_address : Option ℕ → Bool
has_address none = false
has_address (some address) = not (address == inaddr_none)

abbrev pub can_bind : Host → Bytes → Bool
can_bind host vhost = if ltb 0 (length vhost) then host.inet_pton vhost && host.bind else true

unfoldable pub with_channels : Link → (fd : ℕ) → Option Bytes → Init
with_channels k fd none = channels_overrun
with_channels k fd (some channels) =
    ready (record k { fd = fd; channels = channels })
      ((if k.fd == 0 then [] else closed k.fd ∷ []) ++ opened fd ∷ [])

unfoldable pub with_socket : Host → IrcConf → Link → Option ℕ → Init
unfolding with_channels target_list
with_socket host conf k none = exited
with_socket host conf k (some fd) =
    if can_bind host conf.vhost
    then with_channels k fd (target_list conf.channels (some []))
    else exited

unfoldable pub irc_init : Host → IrcConf → Link → Init
unfolding with_socket
irc_init host conf k =
    if has_address (host.resolve conf.server) then with_socket host conf k host.socket else exited

-- The lines that introduce the bot to the server.
unfoldable pub introduction : IrcConf → List Bytes
introduction conf =
    irc_send (codes "NICK " ++ conf.nick)
    ∷ ((if ltb 0 (length conf.password) then irc_send (codes "PASS " ++ conf.password) ∷ [] else [])
        ++ irc_send (
            codes "USER "
            ++ (conf.username
                ++ (codes " "
                    ++ (conf.username
                        ++ (codes " " ++ (conf.username ++ (codes " :" ++ conf.realname)))))))
          ∷ [])

unfoldable pub irc_connect :
    ConnectReply → (send : ℕ → Bool) → IrcConf → (now : ℕ) → Link → Link × List Act
unfolding irc_reconnect introduction transmit_all
irc_connect connected send conf now k = since now (transmit_all send now (introduction conf) k)
irc_connect already_connected send conf now k = (k, [])
irc_connect in_progress send conf now k = (k, [])
irc_connect refused send conf now k = irc_reconnect now k

-- What select() and read() give: an error, nothing, or bytes, after which read() fails; `again` says
-- that errno is EAGAIN then.
pub data Poll : Type 0 where
  select_failed nothing : Poll
  arrived : (input : Bytes) → (again : Bool) → Poll

-- What one turn of `irc_cycle` comes to; the line is what `irc_parse` gets.
pub data Turn : Type 0 where
  stopped raw_overrun target_overrun : Turn
  went : Link → List Act → (line : Option Bytes) → Turn

-- `irc_parse` takes the time of a line that is not empty.
abbrev pub heard : (now : ℕ) → Bytes → Link → Link
heard now [] k = record k { raw = [] }
heard now (c ∷ line) k = record k { raw = []; last = now }

unfoldable pub after_read : (now : ℕ) → Link → (again : Bool) → Reading → Turn
unfolding irc_reconnect
after_read now k again (whole line left) = went (heard now line k) [] (some line)
after_read now k again (partial raw) =
    if again
    then went (record k { raw = raw }) [] none
    else let after = irc_reconnect now k in went (record after.0 { raw = [] }) after.1 none
after_read now k again overrun = raw_overrun

unfoldable pub after_select : (now : ℕ) → Link → Poll → Turn
unfolding after_read irc_read
after_select now k select_failed = went k [] none
after_select now k nothing = went k [] none
after_select now k (arrived input again) = after_read now k again (irc_read k.raw input)

unfoldable pub after_init : Host → IrcConf → (now : ℕ) → Init → Turn
unfolding irc_connect
after_init host conf now exited = stopped
after_init host conf now channels_overrun = target_overrun
after_init host conf now (ready k acts) =
    let after = irc_connect host.connect host.send conf now k in went after.0 (acts ++ after.1) none

-- `p` is the address that MyMalloc() gives for the head of the negative cache.
unfoldable pub init_cache : (negcache p : ℕ) → Option Cache → Option Cache
unfolding nc_init
init_cache negcache p none = if ltb 0 negcache then some (nc_init p) else none
init_cache negcache p (some c) = some c

unfoldable pub irc_cycle : Host → IrcConf → (negcache p now : ℕ) → Poll → Link → Turn
unfolding irc_init after_init after_select init_cache
irc_cycle host conf negcache p now poll k =
    if k.fd == 0
    then after_init host conf now
        (irc_init host conf (record k { nc_head = init_cache negcache p k.nc_head }))
    else after_select now k poll
