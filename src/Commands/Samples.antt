-- ===== src/Commands/Samples.antt =====
-- A run of the command queue, and its theorems at that run.
use bopm.Prelude.{
  ◌+◌, ◌≡◌, refl, some, [], ◌∷◌, ◌++◌, map, arith, ltb, ◌==◌, if◌then◌else◌, codes, space, select,
  split_at, str_eq, str_case_eq,
}
use bopm.Config.{ChannelConf}
use bopm.Irc.Send.{irc_send}
use bopm.Commands.{
  State, call_of, done, command_init, command_create, command_parse, command_timer,
  command_userhost, command_table, name_and_param,
}
use bopm.Commands.Queue.{IsValid}
use bopm.Commands.Timer.{is_fresh, command_timer_lem}
use bopm.Commands.Parse.{index_of, queued, command_parse-queues, command_parse-IsValid}
use bopm.Commands.Userhost.{is_from, is_other, command_userhost_lem}
use bopm.Commands.Reach.{Moment, here, next, message, Reach-IsValid}

abbrev channel : ChannelConf
channel = record { name = codes "#bopm"; key = []; invite = [] }

-- The queue after `bopm check 10.0.0.1` from `joe` at time 100, and a command of `ann` at 300.
abbrev waiting : State
waiting = record {
  commands =
      record {
        type = 0;
        param = some (codes "10.0.0.1");
        irc_nick = codes "joe";
        target = channel;
        added = 100;
      }
      ∷ record { type = 2; param = some []; irc_nick = codes "ann"; target = channel; added = 300 }
      ∷ [];
  interval = 10;
}

waiting-IsValid : IsValid 300 waiting
waiting-IsValid = record {
  room = omega arith;
  known = (omega arith, (omega arith, tt));
  aged = (omega arith, (omega arith, tt));
  ordered = (omega arith, (omega arith, tt));
  counter = omega arith;
}

queue_check : command_parse 100 (codes "bopm check 10.0.0.1") channel (codes "joe") command_init ≡ (
  record {
    commands =
        record {
          type = 0;
          param = some (codes "10.0.0.1");
          irc_nick = codes "joe";
          target = channel;
          added = 100;
        }
        ∷ [];
    interval = 0;
  },
  some (codes "USERHOST joe\n"),
)
unfolding command_parse command_init irc_send split_at str_case_eq
queue_check = refl

operator_runs :
    command_userhost (codes "joe*=+joe@host") waiting
    ≡ done
        (record {
          commands =
              record {
                type = 2;
                param = some [];
                irc_nick = codes "ann";
                target = channel;
                added = 300;
              }
              ∷ [];
          interval = 10;
        })
        (record {
          type = 0;
          param = some (codes "10.0.0.1");
          source = codes "joe";
          target = channel;
        }
          ∷ [])
unfolding command_userhost split_at str_eq
operator_runs = refl

timer_drops_old : command_timer 301 waiting ≡ record {
  commands =
      record { type = 2; param = some []; irc_nick = codes "ann"; target = channel; added = 300 }
      ∷ [];
  interval = 0;
}
unfolding command_timer
timer_drops_old = refl

command_timer_lem_example : command_timer 301 waiting ≡ (
    if ltb waiting.interval 10
    then record waiting { interval = waiting.interval + 1 }
    else record { commands = select (is_fresh 301) waiting.commands; interval = 0 })
command_timer_lem_example = command_timer_lem 300 301 waiting waiting-IsValid

command_parse-queues_example :
    command_parse 310 (codes "bopm" ++ space ∷ codes "STATS x") channel (codes "joe") waiting ≡ (
      record waiting {
        commands =
            waiting.commands
            ++ queued
                (λ i.
                  command_create i
                    (some (name_and_param (codes "STATS x")).1)
                    (codes "joe")
                    channel
                    310)
                (index_of (name_and_param (codes "STATS x")).0 0 command_table);
      },
      some (irc_send (codes "USERHOST " ++ codes "joe")),
    )
command_parse-queues_example =
    command_parse-queues 310 (codes "bopm") (codes "STATS x") channel (codes "joe") waiting
      (omega arith) (refl, (refl, (refl, (refl, tt))))

command_parse-IsValid_example :
    IsValid 310 (command_parse 310 (codes "!all scan x") channel (codes "joe") waiting).0
command_parse-IsValid_example =
    command_parse-IsValid 310 (codes "!all scan x") channel (codes "joe") (omega arith)
      waiting-IsValid

command_userhost_lem_example :
    command_userhost (codes "joe" ++ b'*' ∷ b'=' ∷ codes "+x@y") waiting ≡ (
      if b'*' == b'*'
      then done
          (record waiting { commands = select (is_other (codes "joe")) waiting.commands })
          (map call_of (select (is_from (codes "joe")) waiting.commands))
      else done
          (record waiting {
            commands = select (is_other (codes "joe" ++ b'*' ∷ [])) waiting.commands;
          })
          [])
command_userhost_lem_example =
    command_userhost_lem (codes "joe") b'*' (codes "+x@y") waiting
      (refl, (refl, (refl, (refl, tt))))

abbrev first : Moment
first = record { now = 100; state = command_init }

Reach-IsValid_example :
    IsValid 100
      (command_parse 100 (codes "bopm check 10.0.0.1") channel (codes "joe") command_init).0
Reach-IsValid_example =
    Reach-IsValid 100
      (next here (message first (codes "bopm check 10.0.0.1") channel (codes "joe")))
