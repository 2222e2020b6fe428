-- ===== src/Main/Rounds.antt =====
-- From the start, the loop never uses a negative cache that is not there, and always comes back
-- from it.
use bopm.Prelude.{
  ℕ, suc, refl, ap, Bool, true, Bytes, ◌^◌, ◌<◌, ◌≡◌, inl, inr, false, Option, none, some, List, [],
  ◌∷◌, arith, ◌==◌, All,
}
use bopm.Negcache.{Cache, negcache_insert, check_neg_cache}
use bopm.Negcache.Bits.{zero_shift}
use bopm.Scan.Connect.{Outside, User}
use bopm.Negcache.Times.{negcache_insert-Implements, check_neg_cache-Implements}
use bopm.Commands.{Reply, done, overrun, command_parse, command_userhost}
use bopm.Commands.Queue.{IsValid}
use bopm.Commands.Parse.{command_parse-IsValid}
use bopm.Commands.Userhost.{Good, command_userhost-Good}
use bopm.Irc.Handlers.{
  Request, send_line, parse_command, userhost, connect, restart, undefined, on_line,
}
use bopm.Irc.Connection.{Link, Act, transmit, Turn, stopped, raw_overrun, target_overrun, went}
use bopm.Main.{
  Bot, Work, Round, ended, buffer_fault, cache_fault, goes_on, add_work, then_round, after_reply,
  with_link, send_reply, search_ends, connect_scan, request, requests, Setting, Answers, on_turn,
  insert_clean, insert_all_clean,
}
use bopm.Main.Sound.{IsStored, IsReady, TurnIsReady, transmit-nc_head}

-- An address has at most 64 bits.
abbrev pub IsSmall : Option ℕ → Type 0
IsSmall none = Unit
IsSmall (some ip) = ip < 2 ^ 64

module _ (negcache now : ℕ) where
  -- Within a round.
  abbrev pub IsSound : Bot → Type 0
  IsSound bot = IsValid now bot.commands × IsReady negcache bot.link.nc_head

  abbrev pub Keeps : Round → Type 0
  Keeps ended = Unit
  Keeps buffer_fault = Unit
  Keeps cache_fault = ⊥
  Keeps (goes_on bot work) = IsSound bot

  pub add_work-Keeps : (work : List Work) (r : Round) → Keeps r → Keeps (add_work work r)
  add_work-Keeps work ended h = tt
  add_work-Keeps work buffer_fault h = tt
  add_work-Keeps work cache_fault h = h
  add_work-Keeps work (goes_on bot later) h = h

  pub then_round-Keeps :
      (r : Round) (next : Bot → Round)
      → Keeps r
      → ((bot : Bot) → IsSound bot → Keeps (next bot))
      → Keeps (then_round r next)
  then_round-Keeps ended next h f = tt
  then_round-Keeps buffer_fault next h f = tt
  then_round-Keeps cache_fault next h f = h
  then_round-Keeps (goes_on bot work) next h f = add_work-Keeps work (next bot) (f bot h)

  after_reply-Keeps :
      (bot : Bot) (r : Reply)
      → Good now r
      → IsReady negcache bot.link.nc_head
      → Keeps (after_reply bot r)
  unfolding after_reply
  after_reply-Keeps bot (done s calls) g ready = (g.0, ready)
  after_reply-Keeps bot overrun g ready = tt

  IsReady-same :
      (head head' : Option Cache) → head' ≡ head → IsReady negcache head → IsReady negcache head'
  IsReady-same head head' e h = rw e h

  pub with_link-Keeps :
      (bot : Bot) (r : Link × List Act)
      → r.0.nc_head ≡ bot.link.nc_head
      → IsSound bot
      → Keeps (with_link bot r)
  with_link-Keeps bot r e h = (h.0, IsReady-same bot.link.nc_head r.0.nc_head e h.1)

  send_reply-Keeps :
      (is_sent : Bool) (bot : Bot) (text : Option Bytes)
      → IsSound bot
      → Keeps (send_reply is_sent now bot text)
  send_reply-Keeps is_sent bot none h = h
  send_reply-Keeps is_sent bot (some text) h =
      with_link-Keeps bot (transmit is_sent now text bot.link)
        (transmit-nc_head is_sent now text bot.link) h

  -- The search of a cache in use comes back.
  search_ends-IsReady :
      (head : Option Cache) (address : Option ℕ)
      → IsReady negcache head
      → search_ends negcache now head address ≡ true
  unfolding search_ends check_neg_cache
  search_ends-IsReady head none h = refl
  search_ends-IsReady none (some ip) (inl off) = ground arith
  search_ends-IsReady none (some ip) (inr stored) = absurd stored
  search_ends-IsReady (some c) (some ip) (inl off) =
      ap (λ n. search_ends n now (some c) (some ip)) off
  search_ends-IsReady (some c) (some ip) (inr (m, h)) =
      let (n, e, live) = check_neg_cache-Implements zero_shift h negcache now ip in
      ap (λ r. elim r [ none ↦ false | some n ↦ true ]) e

  connect_scan-Keeps :
      (w : Setting) (o : Outside) (bot : Bot) (user : User) (msg : Bytes)
      → w.setup.options.negcache ≡ negcache
      → IsSound bot
      → Keeps (connect_scan w o now bot user msg)
  unfolding connect_scan
  connect_scan-Keeps w o bot user msg same h =
      let e = search_ends-IsReady bot.link.nc_head (o.inet_pton user.ip) h.1 in rw (same, e) h

  request-Keeps :
      (w : Setting) (o : Outside) (is_sent : Bool) (r : Request) (bot : Bot)
      → w.setup.options.negcache ≡ negcache
      → IsSound bot
      → Keeps (request w o is_sent now bot r)
  unfolding request
  request-Keeps w o is_sent (send_line text) bot same h = send_reply-Keeps is_sent bot (some text) h
  request-Keeps w o is_sent (parse_command command target irc_nick) bot same h =
      let (s, text) = command_parse now command target irc_nick bot.commands in
      send_reply-Keeps is_sent (record bot { commands = s }) text
        (command_parse-IsValid now command target irc_nick (omega arith) h.0, h.1)
  request-Keeps w o is_sent (userhost reply) bot same h =
      after_reply-Keeps bot (command_userhost reply bot.commands)
        (command_userhost-Good reply bot.commands h.0) h.1
  request-Keeps w o is_sent (connect user msg) bot same h =
      connect_scan-Keeps w o bot user msg same h
  request-Keeps w o is_sent restart bot same h = h
  request-Keeps w o is_sent undefined bot same h = tt

  requests-Keeps :
      (w : Setting) (o : Outside) (send : ℕ → Bool) (rs : List Request) (bot : Bot)
      → w.setup.options.negcache ≡ negcache
      → IsSound bot
      → Keeps (requests w o send now rs bot)
  unfolding requests
  requests-Keeps w o send [] bot same h = h
  requests-Keeps w o send (r ∷ rs) bot same h =
      then_round-Keeps (request w o (send 0) now bot r) (requests w o (λ n. send (suc n)) now rs)
        (request-Keeps w o (send 0) r bot same h)
        (λ b s. requests-Keeps w o (λ n. send (suc n)) rs b same s)

  pub on_turn-Keeps :
      (w : Setting) (a : Answers) (bot : Bot) (turn : Turn)
      → w.setup.options.negcache ≡ negcache
      → IsValid now bot.commands
      → TurnIsReady negcache turn
      → Keeps (on_turn w a now bot turn)
  unfolding on_turn
  on_turn-Keeps w a bot stopped same v r = tt
  on_turn-Keeps w a bot raw_overrun same v r = tt
  on_turn-Keeps w a bot target_overrun same v r = tt
  on_turn-Keeps w a bot (went link acts none) same v r = (v, r)
  on_turn-Keeps w a bot (went link acts (some line)) same v r =
      let rs = on_line w.setup.irc w.setup.version w.regexec line in
      add_work-Keeps _ (requests w a.outside a.handler_sends now rs (record bot { link = link }))
        (requests-Keeps w a.outside a.handler_sends rs (record bot { link = link }) same (v, r))

  insert_clean-Keeps :
      (bot : Bot) (head : Option Cache) (address : Option ℕ)
      → IsValid now bot.commands
      → IsReady negcache bot.link.nc_head
      → IsStored head
      → IsSmall address
      → Keeps (insert_clean now bot head address)
  unfolding insert_clean negcache_insert
  insert_clean-Keeps bot none address v r stored small = absurd stored
  insert_clean-Keeps bot (some c) none v r stored small = (v, inr stored)
  insert_clean-Keeps bot (some c) (some ip) v r (m, h) small =
      let (c', e, h') = negcache_insert-Implements h ip now small in rw e (v, inr (_, h'))

  pub IsStored-of :
      (head : Option Cache) → (negcache == 0) ≡ false → IsReady negcache head → IsStored head
  IsStored-of head on (inl e) = absurd (ground arith)
  IsStored-of head on (inr h) = h

  pub insert_all_clean-Keeps :
      (clean : List (Option ℕ)) (bot : Bot)
      → (negcache == 0) ≡ false
      → All IsSmall clean
      → IsSound bot
      → Keeps (insert_all_clean now clean bot)
  unfolding insert_all_clean
  insert_all_clean-Keeps [] bot on a h = h
  insert_all_clean-Keeps (address ∷ rest) bot on a h =
      then_round-Keeps (insert_clean now bot bot.link.nc_head address) (insert_all_clean now rest)
        (insert_clean-Keeps bot bot.link.nc_head address h.0 h.1
          (IsStored-of bot.link.nc_head on h.1) a.0)
        (λ b s. insert_all_clean-Keeps rest b on a.1 s)
