-- ===== src/Commands.antt =====
-- src/opercmd.c: the queue of commands that wait until a USERHOST reply shows whether their sender
-- is an IRC operator.
pub mod Queue
pub mod Timer
pub mod Parse
pub mod Userhost
pub mod Reach
mod Samples
use bopm.Prelude.{
  ℕ, zero, suc, ◌+◌, ◌-◌, ◌%◌, ◌^◌, Bool, true, false, Option, none, some, List, [], ◌∷◌, ◌++◌, ltb,
  leb, ◌==◌, if◌then◌else◌, Bytes, codes, space, length, get_elem?, str_eq, str_case_eq, split_at,
}
use mathlib.Core.Option
use bopm.Config.{ChannelConf}
use bopm.Irc.Send.{irc_send}

-- The handlers `cmd_check`, `cmd_stat` and `cmd_fdstat`.
pub data Handler : Type 0 where
  cmd_check cmd_stat cmd_fdstat : Handler

abbrev pub command_table : List (Bytes × Handler)
command_table =
    (codes "CHECK", cmd_check)
    ∷ (codes "SCAN", cmd_check)
    ∷ (codes "STAT", cmd_stat)
    ∷ (codes "STATS", cmd_stat)
    ∷ (codes "STATUS", cmd_stat)
    ∷ (codes "FDSTAT", cmd_fdstat)
    ∷ []

-- `type` is an index of the table, `param` may be NULL, `added` the time at which the command was queued.
pub record Command : Type 0 where
  pub type : ℕ
  pub param : Option Bytes
  pub irc_nick : Bytes
  pub target : ChannelConf
  pub added : ℕ

abbrev pub command_max : ℕ
command_max = 64

abbrev pub command_interval : ℕ
command_interval = 10

abbrev pub command_timeout : ℕ
command_timeout = 180

-- `COMMANDS`, oldest first, and the `static unsigned short interval` of `command_timer`.
pub record State : Type 0 where
  pub commands : List Command
  pub interval : ℕ

pub command_init : State
command_init = record { commands = []; interval = 0 }

-- DupString() of the parameters, or NULL.
unfoldable pub command_create : ℕ → (param : Option Bytes) → Bytes → ChannelConf → ℕ → Command
command_create type param irc_nick target now = record {
  type = type;
  param = param;
  irc_nick = irc_nick;
  target = target;
  added = now;
}

-- The loop of `command_timer`: it stops at the first command that has not timed out. The
-- subtraction stops at 0, where the source's is negative: neither is above the timeout.
unfoldable pub expire : ℕ → List Command → List Command
expire present [] = []
expire present (cs ∷ rest) =
    if ltb command_timeout (present - cs.added) then expire present rest else cs ∷ rest

unfoldable pub command_timer : ℕ → State → State
unfolding expire
command_timer present s =
    if ltb s.interval command_interval
    then record s { interval = (s.interval + 1) % 2 ^ 16 }
    else record { commands = expire present s.commands; interval = 0 }

-- The loop of `command_parse` over the table, from the index `i`: what it adds to the queue.
unfoldable pub lookup_from :
    (name : Bytes) → (ℕ → Command) → ℕ → List (Bytes × Handler) → List Command
lookup_from name create i [] = []
lookup_from name create i ((command, _) ∷ table) =
    if str_case_eq name command
    then create i ∷ lookup_from name create (i + 1) table
    else lookup_from name create (i + 1) table

-- What stands behind the first space, split into a name and its parameters.
unfoldable pub name_and_param : Bytes → Bytes × Bytes
name_and_param command = elim (split_at space command) [
  | none ↦ (command, [])
  | some (name, param) ↦ (name, param)
]

-- `command_parse`: the new state, and the line that is sent, if any. `command` is the whole
-- message, from the bot's name on, and `irc_nick` is `source_p->irc_nick`.
enqueue : ℕ → ChannelConf → Bytes → State → Bytes × Bytes → State × Option Bytes
enqueue now target irc_nick s (name, param) = (
  record s {
    commands =
        s.commands
        ++ lookup_from name (λ i. command_create i (some param) irc_nick target now) 0
            command_table;
  },
  some (irc_send (codes "USERHOST " ++ irc_nick)),
)

pub command_parse : ℕ → Bytes → ChannelConf → Bytes → State → State × Option Bytes
unfolding enqueue lookup_from name_and_param command_create
command_parse now command target irc_nick s =
    if leb command_max (length s.commands) then (s, none) else elim (split_at space command) [
      | none ↦ (s, none)
      | some (_, rest) ↦ enqueue now target irc_nick s (name_and_param rest)
    ]

-- A call of a handler by `command_userhost`.
pub record Call : Type 0 where
  pub type : ℕ
  pub param : Option Bytes
  pub source : Bytes
  pub target : ChannelConf

unfoldable pub handler : ℕ → Option Handler
handler type = Option.map (λ entry. entry.1) (get_elem? command_table type)

abbrev pub call_of : Command → Call
call_of cs = record { type = cs.type; param = cs.param; source = cs.irc_nick; target = cs.target }

-- What a reply to USERHOST comes to. `overrun` is the read in front of the reply's first byte.
pub data Reply : Type 0 where
  done : State → List Call → Reply
  overrun : Reply

-- The nick in front of `=`, and whether the operator's `*` stands behind it.
unfoldable pub nick_and_flag : Bytes → Option (Bytes × Bool)
nick_and_flag [] = none
nick_and_flag (c ∷ []) = if c == b'*' then some ([], true) else some (c ∷ [], false)
nick_and_flag (c ∷ d ∷ rest) = elim (nick_and_flag (d ∷ rest)) [
  | none ↦ none
  | some (nick, oper) ↦ some (c ∷ nick, oper)
]

-- The loop of `command_userhost`: the commands that stay, and the calls that are made.
unfoldable pub run_commands : Bytes → Bool → List Command → List Command × List Call
run_commands nick oper [] = ([], [])
run_commands nick oper (cs ∷ rest) =
    let (left, calls) = run_commands nick oper rest in
    if str_eq cs.irc_nick nick
    then (left, (if oper then call_of cs ∷ calls else calls))
    else (cs ∷ left, calls)

unfoldable pub finish_userhost : State → Option (Bytes × Bool) → Reply
finish_userhost s none = overrun
finish_userhost s (some (nick, oper)) =
    let (left, calls) = run_commands nick oper s.commands in
    done (record s { commands = left }) calls

unfoldable pub command_userhost : Bytes → State → Reply
unfolding nick_and_flag run_commands finish_userhost
command_userhost reply s = elim (split_at b'=' reply) [
  | none ↦ done s []
  | some (before, _) ↦ finish_userhost s (nick_and_flag before)
]
