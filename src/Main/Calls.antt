-- ===== src/Main/Calls.antt =====
-- The handlers of src/opercmd.c, which hand an operator's command to the scans and the statistics.
use bopm.Prelude.{
  ℕ, ◌≡◌, refl, ap, ◌∙◌, Option, none, some, List, [], ◌∷◌, ◌++◌, arith, Bytes, codes, space,
  str_case_eq, split_at, str_eq_self, Lacks,
}
use bopm.Config.{ChannelConf}
use bopm.Commands.{
  State, Call, Handler, cmd_check, cmd_stat, cmd_fdstat, handler, command_parse, command_userhost,
  command_create, name_and_param, command_table, done,
}
use bopm.Commands.Parse.{index_of, queued, command_parse-queues}
use bopm.Commands.Userhost.{command_userhost_lem}
use bopm.Event.{Event}
use bopm.Scan.Setup.{ScanStruct, Setup}
use bopm.Scan.Connect.{Outside}
use bopm.Scan.Manual.{scan_manual}
use bopm.Stats
use bopm.Stats.Fds.{Dup, fdstats_output}

-- What the handlers are told from outside, besides the scanner's surroundings: how names resolve and
-- with which error, how the float of `stats_output` is printed, and what getrlimit() and dup() give.
pub record Told : Type 0 where
  pub outside : Outside
  pub resolve : Bytes → Option Bytes
  pub error_text : Bytes
  pub rate : ℕ → ℕ → Bytes
  pub limit : Option ℕ
  pub answers : List Dup

-- A manual scan, lines that are sent, `fdstats_output` that does not end, or no handler.
pub data Effect : Type 0 where
  scanned : Option ScanStruct × List Event → Effect
  lines : List Bytes → Effect
  endless no_handler : Effect

abbrev pub one_line : Option Bytes → Effect
one_line none = endless
one_line (some text) = lines (text ∷ [])

unfoldable pub call_handler :
    Told
    → Setup
    → (now : ℕ) → Stats.State
    → Option Handler
    → (param : Option Bytes) → ChannelConf
    → Effect
call_handler told setup now stats none param target = no_handler
call_handler told setup now stats (some cmd_check) param target =
    scanned (scan_manual told.outside setup told.resolve told.error_text param target)
call_handler told setup now stats (some cmd_stat) param target =
    lines (Stats.stats_output told.rate now target.name stats)
call_handler told setup now stats (some cmd_fdstat) param target =
    one_line (fdstats_output target.name told.error_text told.limit told.answers)

unfoldable pub run_call : Told → Setup → (now : ℕ) → Stats.State → Call → Effect
unfolding call_handler handler
run_call told setup now stats call =
    call_handler told setup now stats (handler call.type) call.param call.target

-- The message `bot check param`, behind the bot's name.
abbrev pub check_message : (bot param : Bytes) → Bytes
check_message bot param = bot ++ space ∷ (codes "check" ++ space ∷ param)

abbrev pub idle : (interval : ℕ) → State
idle interval = record { commands = []; interval = interval }

abbrev pub check_call : (nick param : Bytes) → ChannelConf → Call
check_call nick param target = record {
  type = 0;
  param = some param;
  source = nick;
  target = target;
}

module _ (bot nick param : Bytes) (target : ChannelConf) (now interval : ℕ) where
  split_message : name_and_param (codes "check" ++ space ∷ param) ≡ (codes "check", param)
  unfolding name_and_param split_at
  split_message = refl

  abbrev with_words : Bytes × Bytes → State
  with_words np = record {
    commands =
        queued (λ i. command_create i (some np.1) nick target now) (index_of np.0 0 command_table);
    interval = interval;
  }

  queued_check :
      Lacks space bot
      → (command_parse now (check_message bot param) target nick (idle interval)).0 ≡ record {
        commands = command_create 0 (some param) nick target now ∷ [];
        interval = interval;
      }
  unfolding index_of str_case_eq
  queued_check one_word =
      ap (λ r. r.0)
        (command_parse-queues now bot (codes "check" ++ space ∷ param) target nick (idle interval)
          (omega arith) one_word)
      ∙ ap with_words split_message

-- An operator's `check` in a channel, to a bot with no other command waiting, leads to the manual
-- scan of just that parameter for that channel, once the server's reply has marked the sender as an
-- operator; the queue is empty again. The bot's name has no space in it, and the nick no `=`.
pub command_parse-scan_manual :
    (bot nick param rest : Bytes) (target : ChannelConf) (now later interval : ℕ) (told : Told)
    (setup : Setup) (stats : Stats.State)
    → Lacks space bot
    → Lacks b'=' (nick ++ b'*' ∷ [])
    → (command_userhost
          (nick ++ b'*' ∷ b'=' ∷ rest)
          (command_parse now (check_message bot param) target nick (idle interval)).0
        ≡ done (idle interval) (check_call nick param target ∷ []))
      × (run_call told setup later stats (check_call nick param target)
          ≡ scanned
              (scan_manual told.outside setup told.resolve told.error_text (some param) target))
unfolding run_call command_create
command_parse-scan_manual bot nick param rest target now later interval told setup stats one_word
      no_equals =
    let s : State = record {
      commands = command_create 0 (some param) nick target now ∷ [];
      interval = interval;
    } in
    let same = str_eq_self nick in
    (
      ap (command_userhost (nick ++ b'*' ∷ b'=' ∷ rest))
            (queued_check bot nick param target now interval one_word)
          ∙ (command_userhost_lem nick b'*' rest s no_equals ∙ rw same refl),
      refl,
    )
