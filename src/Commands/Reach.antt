-- ===== src/Commands/Reach.antt =====
-- The command queue in any order of events: messages, replies, timer ticks and the passing of time.
use bopm.Prelude.{ℕ, ◌≤◌, ◌≡◌, List, arith, Bytes}
use bopm.Config.{ChannelConf}
use bopm.Commands.{State, Call, done, command_init, command_parse, command_timer, command_userhost}
use bopm.Commands.Queue.{IsValid}
use bopm.Commands.Timer.{command_timer-IsValid}
use bopm.Commands.Parse.{command_parse-IsValid, IsValid-later}
use bopm.Commands.Userhost.{command_userhost-Good}

pub record Moment : Type 0 where
  pub now : ℕ
  pub state : State

pub data Step : Moment → Moment → Type 0 where
  message :
      (m : Moment) (command : Bytes) (target : ChannelConf) (irc_nick : Bytes)
      → Step m (record m { state = (command_parse m.now command target irc_nick m.state).0 })
  tick : (m : Moment) → Step m (record m { state = command_timer m.now m.state })
  reply :
      (m : Moment) (text : Bytes) (s : State) (calls : List Call)
      → command_userhost text m.state ≡ done s calls
      → Step m (record m { state = s })
  pass : (m : Moment) (n : ℕ) → m.now ≤ n → Step m (record m { now = n })

pub data Reach (m : Moment) : Moment → Type 0 where
  here : Reach m m
  next : {p q : Moment} → Reach m p → Step p q → Reach m q

Step-IsValid : {p q : Moment} → Step p q → IsValid p.now p.state → IsValid q.now q.state
Step-IsValid (message m command target irc_nick) v =
    command_parse-IsValid m.now command target irc_nick (omega arith) v
Step-IsValid (tick m) v = command_timer-IsValid m.now v
Step-IsValid (reply m text s calls e) v =
    let good = command_userhost-Good text m.state v in (rw e at good).0
Step-IsValid (pass m n le) v = IsValid-later n le v

-- From the empty queue, whatever messages, replies and ticks come in whatever order, at most 64
-- commands wait, in the order of their times, each with a handler; and the timer's counter is at
-- most 10.
pub Reach-IsValid :
    (now : ℕ) {m : Moment}
    → Reach (record { now = now; state = command_init }) m
    → IsValid m.now m.state
unfolding command_init
Reach-IsValid now here = record {
  room = omega arith;
  known = tt;
  aged = tt;
  ordered = tt;
  counter = omega arith;
}
Reach-IsValid now (next r step) = Step-IsValid step (Reach-IsValid now r)
