-- ===== src/Irc/Outage.antt =====
-- When the connection to the server is given up, and how it comes back.
use bopm.Prelude.{
  ℕ, suc, ◌+◌, ◌≤◌, ◌≡◌, refl, ◌∙◌, inl, inr, Bool, true, false, Option, none, some, List, [], ◌∷◌,
  ◌++◌, arith, ltb, leb, ◌==◌, if◌then◌else◌, Bool-cases, Bytes,
}
use bopm.Config.{IrcConf}
use bopm.Irc.Read.{Reading, whole, partial, overrun, irc_read}
use bopm.Irc.Connection.{
  Link, Act, said, slept, reconnecting, closed, opened, close_fd, irc_reconnect, irc_timer,
  transmit, transmit_all, Host, with_channels, with_socket, irc_init, introduction, irc_connect,
  ConnectReply, connected, already_connected, in_progress, refused, Poll, select_failed, nothing,
  arrived, Turn, stopped, raw_overrun, target_overrun, went, heard, after_read, after_select,
  after_init, irc_cycle, since, has_address, can_bind, target_list, init_cache,
}

abbrev is_reconnecting : Act → Bool
is_reconnecting reconnecting = true
is_reconnecting (said _) = false
is_reconnecting slept = false
is_reconnecting (closed _) = false
is_reconnecting (opened _) = false

-- The times of the reconnections among some acts, in front of earlier ones.
abbrev pub mark : (now : ℕ) → List Act → List ℕ → List ℕ
mark now [] times = times
mark now (a ∷ acts) times = mark now acts (if is_reconnecting a then now ∷ times else times)

-- The states that the bot's turns, its timer and its calls of `irc_send` reach from the start, with the time of the last of
-- them and the times of all reconnections, the latest first. The clock does not go back.
pub data Reach (conf : IrcConf) (negcache : ℕ) : Link → (now : ℕ) → (times : List ℕ) → Type 0 where
  start :
      (now : ℕ)
      → Reach conf negcache
          (record { fd = 0; last = 0; last_reconnect = 0; raw = []; channels = []; nc_head = none })
          now
          []
  cycled :
      {k : Link} {t : ℕ} {times : List ℕ}
      → Reach conf negcache k t times
      → (host : Host) (p now : ℕ) (poll : Poll) (k' : Link) (acts : List Act) (line : Option Bytes)
      → t ≤ now
      → irc_cycle host conf negcache p now poll k ≡ went k' acts line
      → Reach conf negcache k' now (mark now acts times)
  ticked :
      {k : Link} {t : ℕ} {times : List ℕ}
      → Reach conf negcache k t times
      → (is_sent : Bool) → (now : ℕ) → t ≤ now
      → Reach conf negcache
          (irc_timer is_sent now k).0
          now
          (mark now (irc_timer is_sent now k).1 times)
  said_lines :
      {k : Link} {t : ℕ} {times : List ℕ}
      → Reach conf negcache k t times
      → (send : ℕ → Bool) (now : ℕ) (lines : List Bytes) → t ≤ now
      → Reach conf negcache
          (transmit_all send now lines k).0
          now
          (mark now (transmit_all send now lines k).1 times)

-- Neighbouring times, the later first, are at least 30 seconds apart.
abbrev pub AreSpaced : List ℕ → Type 0
AreSpaced [] = Unit
AreSpaced (t ∷ []) = Unit
AreSpaced (t ∷ (s ∷ times)) = (s + 30 ≤ t) × AreSpaced (s ∷ times)

-- The latest reconnection is the time that the state holds.
abbrev pub IsMarked : Link → List ℕ → Type 0
IsMarked k [] = Unit
IsMarked k (t ∷ times) = k.last_reconnect ≡ t

abbrev Kept : Link × List Act → (now : ℕ) → List ℕ → Type 0
Kept r now times = IsMarked r.0 (mark now r.1 times) × AreSpaced (mark now r.1 times)

mark-append :
    (now : ℕ) (xs ys : List Act) (times : List ℕ)
    → mark now (xs ++ ys) times ≡ mark now ys (mark now xs times)
mark-append now [] ys times = refl
mark-append now (a ∷ xs) ys times =
    mark-append now xs ys (if is_reconnecting a then now ∷ times else times)

mark-closed :
    (now fd : ℕ) (times : List ℕ) → mark now (close_fd fd ++ reconnecting ∷ []) times ≡ now ∷ times
mark-closed now fd times = elim (Bool-cases (ltb 0 fd)) [ inl e ↦ rw e | inr e ↦ rw e ]

AreSpaced-cons :
    (k : Link) (now : ℕ) (times : List ℕ)
    → IsMarked k times
    → AreSpaced times
    → k.last_reconnect + 30 ≤ now
    → AreSpaced (now ∷ times)
AreSpaced-cons k now [] m h le = tt
AreSpaced-cons k now (t ∷ times) m h le = (omega (arith, m, le), h)

-- A reconnection is a success only 30 seconds after the last.
irc_reconnect-Kept :
    (now : ℕ) (k : Link) (times : List ℕ)
    → IsMarked k times
    → AreSpaced times
    → Kept (irc_reconnect now k) now times
unfolding irc_reconnect
irc_reconnect-Kept now k times m h = elim (Bool-cases (ltb now (k.last_reconnect + 30))) [
  | inl early ↦ rw early (m, h)
  | inr late ↦
      rw (late, mark-closed now k.fd times) (refl, AreSpaced-cons k now times m h (ground arith))
]

-- Where the acts say nothing of a reconnection and its time stays.
Kept-same :
    (k k' : Link) (now : ℕ) (times : List ℕ)
    → k'.last_reconnect ≡ k.last_reconnect
    → IsMarked k times
    → IsMarked k' times
Kept-same k k' now [] e m = tt
Kept-same k k' now (t ∷ times) e m = e ∙ m

transmit-Kept :
    (is_sent : Bool) (now : ℕ) (bytes : Bytes) (k : Link) (times : List ℕ)
    → IsMarked k times
    → AreSpaced times
    → Kept (transmit is_sent now bytes k) now times
unfolding transmit
transmit-Kept true now bytes k times m h = (m, h)
transmit-Kept false now bytes k times m h = irc_reconnect-Kept now k times m h

transmit_all-Kept :
    (send : ℕ → Bool) (now : ℕ) (lines : List Bytes) (k : Link) (times : List ℕ)
    → IsMarked k times
    → AreSpaced times
    → Kept (transmit_all send now lines k) now times
unfolding transmit_all
transmit_all-Kept send now [] k times m h = (m, h)
transmit_all-Kept send now (bytes ∷ rest) k times m h =
    let r = transmit (send 0) now bytes k in
    let later = transmit_all (λ n. send (suc n)) now rest r.0 in
    let first = transmit-Kept (send 0) now bytes k times m h in
    let kept =
      transmit_all-Kept (λ n. send (suc n)) now rest r.0 (mark now r.1 times) first.0 first.1 in
    rw (mark-append now r.1 later.1 times) kept

-- The time of the last data has no part in it.
since-Kept :
    (now : ℕ) (r : Link × List Act) (times : List ℕ)
    → Kept r now times
    → Kept (since now r) now times
since-Kept now r times kept =
    (Kept-same r.0 (since now r).0 now (mark now r.1 times) refl kept.0, kept.1)

irc_timer-Kept :
    (is_sent : Bool) (now : ℕ) (k : Link) (times : List ℕ)
    → IsMarked k times
    → AreSpaced times
    → Kept (irc_timer is_sent now k) now times
unfolding irc_timer
irc_timer-Kept is_sent now k times m h = elim (Bool-cases (leb (k.last + 900) now)) [
  | inl silent ↦
      rw silent (since-Kept now (irc_reconnect now k) times (irc_reconnect-Kept now k times m h))
  | inr heard_of ↦ elim (Bool-cases (leb (k.last + 450) now)) [
    | inl half ↦ rw (heard_of, half) (transmit-Kept is_sent now _ k times m h)
    | inr short ↦ rw (heard_of, short) (m, h)
  ]
]

-- A turn keeps the times of the reconnections apart.
abbrev KeptTurn : Turn → (now : ℕ) → List ℕ → Type 0
KeptTurn stopped now times = Unit
KeptTurn raw_overrun now times = Unit
KeptTurn target_overrun now times = Unit
KeptTurn (went k acts line) now times =
    IsMarked k (mark now acts times) × AreSpaced (mark now acts times)

module _ (now : ℕ) (k : Link) (times : List ℕ) (m : IsMarked k times) (h : AreSpaced times) where
  after_read-Kept : (again : Bool) (r : Reading) → KeptTurn (after_read now k again r) now times
  unfolding after_read
  after_read-Kept again (whole [] left) = (Kept-same k (heard now [] k) now times refl m, h)
  after_read-Kept again (whole (c ∷ line) left) =
      (Kept-same k (heard now (c ∷ line) k) now times refl m, h)
  after_read-Kept true (partial raw) = (Kept-same k (record k { raw = raw }) now times refl m, h)
  after_read-Kept false (partial raw) =
      let r = irc_reconnect-Kept now k times m h in
      (
        Kept-same (irc_reconnect now k).0 (record (irc_reconnect now k).0 { raw = [] }) now
            (mark now (irc_reconnect now k).1 times) refl r.0,
        r.1,
      )
  after_read-Kept again overrun = tt

  after_select-Kept : (poll : Poll) → KeptTurn (after_select now k poll) now times
  unfolding after_select
  after_select-Kept select_failed = (m, h)
  after_select-Kept nothing = (m, h)
  after_select-Kept (arrived input again) = after_read-Kept again (irc_read k.raw input)

  irc_connect-Kept :
      (reply : ConnectReply) (send : ℕ → Bool) (conf : IrcConf)
      → Kept (irc_connect reply send conf now k) now times
  unfolding irc_connect
  irc_connect-Kept connected send conf =
      since-Kept now (transmit_all send now (introduction conf) k) times
        (transmit_all-Kept send now (introduction conf) k times m h)
  irc_connect-Kept already_connected send conf = (m, h)
  irc_connect-Kept in_progress send conf = (m, h)
  irc_connect-Kept refused send conf = irc_reconnect-Kept now k times m h

mark-opened :
    (now fd s : ℕ) (times : List ℕ)
    → mark now ((if fd == 0 then [] else closed fd ∷ []) ++ opened s ∷ []) times ≡ times
mark-opened now fd s times = elim (Bool-cases (fd == 0)) [ inl e ↦ rw e | inr e ↦ rw e ]

module _ (host : Host) (conf : IrcConf) (now : ℕ) (k : Link) (times : List ℕ) (m : IsMarked k times)
    (h : AreSpaced times) where
  with_channels-Kept :
      (fd : ℕ) (buf : Option Bytes)
      → KeptTurn (after_init host conf now (with_channels k fd buf)) now times
  unfolding after_init with_channels
  with_channels-Kept fd none = tt
  with_channels-Kept fd (some channels) =
      let k' : Link = record k { fd = fd; channels = channels } in
      let acts = (if k.fd == 0 then [] else closed k.fd ∷ []) ++ opened fd ∷ [] in
      let e = mark-append now acts (irc_connect host.connect host.send conf now k').1 times in
      let m' = Kept-same k k' now times refl m in
      let r = irc_connect-Kept now k' times m' h host.connect host.send conf in
      rw (e, mark-opened now k.fd fd times) r

  irc_init-Kept : KeptTurn (after_init host conf now (irc_init host conf k)) now times
  unfolding irc_init with_socket after_init
  irc_init-Kept = elim (Bool-cases (has_address (host.resolve conf.server))) [
    | inr unknown ↦ rw unknown tt
    | inl found ↦ rw found (socket host.socket)
  ]
    where
      socket :
          (o : Option ℕ) → KeptTurn (after_init host conf now (with_socket host conf k o)) now times
      socket none = tt
      socket (some fd) = elim (Bool-cases (can_bind host conf.vhost)) [
        | inr unbound ↦ rw unbound tt
        | inl bound ↦ rw bound (with_channels-Kept fd (target_list conf.channels (some [])))
      ]

irc_cycle-Kept :
    (host : Host) (conf : IrcConf) (negcache p now : ℕ) (poll : Poll) (k : Link) (times : List ℕ)
    → IsMarked k times
    → AreSpaced times
    → KeptTurn (irc_cycle host conf negcache p now poll k) now times
unfolding irc_cycle
irc_cycle-Kept host conf negcache p now poll k times m h = elim (Bool-cases (k.fd == 0)) [
  | inr is_on ↦ rw is_on (after_select-Kept now k times m h poll)
  | inl none_open ↦
      let k' : Link = record k { nc_head = init_cache negcache p k.nc_head } in
      rw none_open (irc_init-Kept host conf now k' times (Kept-same k k' now times refl m) h)
]

Reach-Kept :
    {conf : IrcConf} {negcache : ℕ} {k : Link} {now : ℕ} {times : List ℕ}
    → Reach conf negcache k now times
    → IsMarked k times × AreSpaced times
Reach-Kept (start now) = (tt, tt)
Reach-Kept {conf} {negcache} (cycled {k} {t} {times} before host p now poll k' acts line le e) =
    let r = Reach-Kept before in
    let turn = irc_cycle-Kept host conf negcache p now poll k times r.0 r.1 in rw e at turn
Reach-Kept (ticked {k} {t} {times} before is_sent now le) =
    let r = Reach-Kept before in irc_timer-Kept is_sent now k times r.0 r.1
Reach-Kept (said_lines {k} {t} {times} before send now lines le) =
    let r = Reach-Kept before in transmit_all-Kept send now lines k times r.0 r.1

-- However the turns of `irc_cycle`, the calls of `irc_timer` and those of `irc_send` follow each
-- other, and whatever the server and the system answer, each send() included, two successive reconnections are at least 30 seconds apart.
pub Reach-AreSpaced :
    {conf : IrcConf} {negcache : ℕ} {k : Link} {now : ℕ} {times : List ℕ}
    → Reach conf negcache k now times
    → AreSpaced times
Reach-AreSpaced r = (Reach-Kept r).1
