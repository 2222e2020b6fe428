-- ===== src/Main/Runs.antt =====
-- The rounds of the loop and the signals between them, from the start of the program.
use bopm.Prelude.{
  ℕ, map, Bytes, ◌∷◌, ◌≤◌, ◌≡◌, ◌≢◌, refl, sym, ap, inl, inr, Bool, true, false, Option, none, some,
  List, [], arith, ltb, leb, ◌==◌, if◌then◌else◌, Bool-cases, All,
}
use bopm.Negcache.{Cache}
use bopm.Negcache.Rebuild.{negcache_rebuild-Implements}
use bopm.Commands.Queue.{IsValid}
use bopm.Commands.Timer.{command_timer-IsValid}
use bopm.Commands.Parse.{IsValid-later}
use bopm.Commands.Reach.{here, Reach-IsValid}
use bopm.Irc.Connection.{irc_timer, transmit_all, Host, Poll, irc_cycle}
use bopm.Scan.Connect.{scan_timer}
use bopm.Main.{
  Bot, bot_init, Signal, do_signal, sig_alrm, sig_int, sig_usr1, Work, Round, cache_fault, goes_on,
  then_round, with_link, Setting, Answers, on_turn, store_negatives, send_lines, restart_or_go,
  rebuild, tick_scan, tick_commands, timers, main_round,
}
use bopm.Main.Sound.{
  IsStored, IsReady, init_cache-IsReady, irc_cycle-IsReady, irc_timer-nc_head, transmit_all-nc_head,
}
use bopm.Main.Rounds.{
  IsSmall, IsSound, Keeps, with_link-Keeps, then_round-Keeps, on_turn-Keeps, insert_all_clean-Keeps,
  IsStored-of,
}

module _ (w : Setting) (now : ℕ) where
  map-IsSmall :
      (f : Bytes → Option ℕ)
      → ((text : Bytes) → IsSmall (f text))
      → (texts : List Bytes) → All IsSmall (map f texts)
  map-IsSmall f h [] = tt
  map-IsSmall f h (text ∷ rest) = (h text, map-IsSmall f h rest)

  store_negatives-Keeps :
      (a : Answers) (bot : Bot)
      → ((text : Bytes) → IsSmall (a.outside.inet_pton text))
      → IsSound w.setup.options.negcache now bot
      → Keeps w.setup.options.negcache now (store_negatives w a now bot)
  unfolding store_negatives
  store_negatives-Keeps a bot small h = elim (Bool-cases (w.setup.options.negcache == 0)) [
    | inl off ↦ rw off h
    | inr on ↦ rw on (
        insert_all_clean-Keeps w.setup.options.negcache now (map a.outside.inet_pton a.clean) bot on
          (map-IsSmall a.outside.inet_pton small a.clean) h)
  ]

  send_lines-Keeps :
      (a : Answers) (bot : Bot)
      → IsSound w.setup.options.negcache now bot
      → Keeps w.setup.options.negcache now (send_lines a now bot)
  unfolding send_lines
  send_lines-Keeps a bot h =
      with_link-Keeps w.setup.options.negcache now bot
        (transmit_all a.line_sends now a.lines bot.link)
        (transmit_all-nc_head a.line_sends now a.lines bot.link) h

  restart_or_go-Keeps :
      (can_exec : Bool) (bot : Bot)
      → IsSound w.setup.options.negcache now bot
      → Keeps w.setup.options.negcache now (restart_or_go w can_exec bot)
  unfolding restart_or_go
  restart_or_go-Keeps can_exec bot h = elim (Bool-cases bot.is_restart) [
    | inr same ↦ rw same h
    | inl again ↦ elim (Bool-cases w.is_debug) [
      | inl debug ↦ rw (again, debug) tt
      | inr daemon ↦ elim (Bool-cases can_exec) [
        | inl replaced ↦ rw (again, daemon, replaced) tt
        | inr back ↦ rw (again, daemon, back) h
      ]
    ]
  ]

  rebuild-Keeps :
      (p : ℕ) (bot : Bot) (head : Option Cache)
      → IsValid now bot.commands
      → IsStored head
      → Keeps w.setup.options.negcache now (rebuild w p now bot head)
  unfolding rebuild
  rebuild-Keeps p bot none v stored = absurd stored
  rebuild-Keeps p bot (some c) v (m, h) =
      let (c', e, h') = negcache_rebuild-Implements w.setup.options.negcache now h p in
      rw e (v, inr (_, h'))

  tick_scan-Keeps :
      (p : ℕ) (bot : Bot)
      → IsSound w.setup.options.negcache now bot
      → Keeps w.setup.options.negcache now (tick_scan w p now bot)
  unfolding tick_scan scan_timer
  tick_scan-Keeps p bot h = elim (Bool-cases (ltb 0 w.setup.options.negcache)) [
    | inr off ↦ rw off h
    | inl on ↦ elim (Bool-cases (leb 43200 bot.nc_counter)) [
      | inr early ↦ rw (on, early) h
      | inl late ↦
          let is_on : (w.setup.options.negcache == 0) ≡ false = ground arith in
          rw (on, late)
            (rebuild-Keeps p (record bot { nc_counter = 0 }) bot.link.nc_head h.0
              (IsStored-of w.setup.options.negcache now bot.link.nc_head is_on h.1))
    ]
  ]

  timers-Keeps :
      (is_ping_sent : Bool) (p : ℕ) (bot : Bot)
      → IsSound w.setup.options.negcache now bot
      → Keeps w.setup.options.negcache now (timers w is_ping_sent p now bot)
  unfolding timers
  timers-Keeps is_ping_sent p bot h =
      let ticked = irc_timer is_ping_sent now bot.link in
      let first = then_round (with_link bot ticked) (tick_scan w p now) in
      chosen bot.is_alarmed (then_round first (tick_commands now)) (goes_on bot [])
        (then_round-Keeps w.setup.options.negcache now first (tick_commands now)
          (then_round-Keeps w.setup.options.negcache now (with_link bot ticked) (tick_scan w p now)
            (with_link-Keeps w.setup.options.negcache now bot ticked
              (irc_timer-nc_head is_ping_sent now bot.link) h)
            (λ b s. tick_scan-Keeps p b s))
          (λ b s. (command_timer-IsValid now s.0, s.1)))
        h
    where
      chosen :
          (b : Bool) (r s : Round)
          → Keeps w.setup.options.negcache now r
          → Keeps w.setup.options.negcache now s
          → Keeps w.setup.options.negcache now (if b then r else s)
      chosen true r s hr hs = hr
      chosen false r s hr hs = hs

  main_round-Keeps :
      (host : Host) (p : ℕ) (poll : Poll) (a : Answers) (bot : Bot)
      → ((text : Bytes) → IsSmall (a.outside.inet_pton text))
      → IsValid now bot.commands
      → IsReady w.setup.options.negcache bot.link.nc_head
      → Keeps w.setup.options.negcache now (main_round w host p now poll a bot)
  unfolding main_round
  main_round-Keeps host p poll a bot small v ready =
      let turn = irc_cycle host w.setup.irc w.setup.options.negcache p now poll bot.link in
      let first = on_turn w a now bot turn in
      let second = then_round first (store_negatives w a now) in
      let third = then_round second (send_lines a now) in
      then_round-Keeps w.setup.options.negcache now (then_round third (restart_or_go w a.can_exec))
        (λ b. timers w a.is_ping_sent p now (record b { is_reopen = false }))
        (then_round-Keeps w.setup.options.negcache now third (restart_or_go w a.can_exec)
          (then_round-Keeps w.setup.options.negcache now second (send_lines a now)
            (then_round-Keeps w.setup.options.negcache now first (store_negatives w a now)
              (on_turn-Keeps w.setup.options.negcache now w a bot turn refl v (
                irc_cycle-IsReady host w.setup.irc w.setup.options.negcache p now poll bot.link
                  ready))
              (λ b s. store_negatives-Keeps a b small s))
            (λ b s. send_lines-Keeps a b s))
          (λ b s. restart_or_go-Keeps a.can_exec b s))
        (λ b s. timers-Keeps a.is_ping_sent p (record b { is_reopen = false }) s)

-- The states between two rounds, with the time of the last one. The clock does not go back.
pub data Reach (w : Setting) : Bot → (now : ℕ) → Type 0 where
  start : (p now : ℕ) → Reach w (bot_init w.setup.options.negcache p) now
  signalled :
      {bot : Bot} {t : ℕ}
      → Reach w bot t
      → (s : Signal) (bot' : Bot) → do_signal s bot ≡ some bot'
      → Reach w bot' t
  gone_round :
      {bot : Bot} {t : ℕ}
      → Reach w bot t
      → (host : Host) (p now : ℕ) (poll : Poll) (a : Answers) (bot' : Bot) (work : List Work)
      → t ≤ now
      → ((text : Bytes) → IsSmall (a.outside.inet_pton text))
      → main_round w host p now poll a bot ≡ goes_on bot' work
      → Reach w bot' now

do_signal-same :
    (s : Signal) (bot bot' : Bot)
    → do_signal s bot ≡ some bot'
    → (bot'.commands ≡ bot.commands) × (bot'.link ≡ bot.link)
unfolding do_signal
do_signal-same sig_alrm bot bot' e =
    let same = some_bot (record bot { is_alarmed = true }) bot' e in
    (ap (λ b. b.commands) (sym same), ap (λ b. b.link) (sym same))
  where
    some_bot : (a b : Bot) → some a ≡ some b → a ≡ b
    some_bot a b e = ap (λ o. elim o [ none ↦ a | some c ↦ c ]) e
do_signal-same sig_int bot bot' e = absurd (cc)
do_signal-same sig_usr1 bot bot' e =
    let same : record bot { is_reopen = true } ≡ bot' =
      ap (λ o. elim o [ none ↦ bot | some c ↦ c ]) e in
    (ap (λ b. b.commands) (sym same), ap (λ b. b.link) (sym same))

Reach-Sound :
    {w : Setting} {bot : Bot} {t : ℕ}
    → Reach w bot t
    → IsValid t bot.commands × IsReady w.setup.options.negcache bot.link.nc_head
unfolding bot_init
Reach-Sound {w} (start p now) =
    (Reach-IsValid now here, init_cache-IsReady w.setup.options.negcache p none (inr refl))
Reach-Sound {w} (signalled {bot} {t} r s bot' e) =
    let before = Reach-Sound r in
    let same = do_signal-same s bot bot' e in (rw same.0 before.0, rw same.1 before.1)
Reach-Sound {w} (gone_round {bot} {t} r host p now poll a bot' work le small e) =
    let before = Reach-Sound r in
    let kept =
      main_round-Keeps w now host p poll a bot small (IsValid-later now le before.0) before.1 in
    rw e at kept

-- Whatever the server sends, the system answers (each send() included) and the scans find, and
-- whichever signals come between the rounds, the queue of commands is well-formed and the next round
-- of the loop neither reads a negative cache that is not there nor hangs in one: every search of a
-- user who connects, every insertion and every rebuild ends. (It may still fault on the buffers of
-- src/irc.c and src/opercmd.c.) inet_pton() gives addresses of at most 64 bits, and a shift by 64
-- gives 0.
pub Reach-main_round :
    {w : Setting} {bot : Bot} {t : ℕ} (host : Host) (p now : ℕ) (poll : Poll) (a : Answers)
    → Reach w bot t
    → t ≤ now
    → ((text : Bytes) → IsSmall (a.outside.inet_pton text))
    → IsValid t bot.commands × (main_round w host p now poll a bot ≢ cache_fault)
Reach-main_round {w} {bot} {t} host p now poll a r le small =
    let before = Reach-Sound r in
    let kept =
      main_round-Keeps w now host p poll a bot small (IsValid-later now le before.0) before.1 in
    (before.0, λ e. rw e at kept)
