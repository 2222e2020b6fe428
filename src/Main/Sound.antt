-- ===== src/Main/Sound.antt =====
-- In every run of the loop the queue of commands stays well-formed and the negative cache is there
-- when it is used.
use bopm.Prelude.{
  ℕ, suc, ◌+◌, ◌∙◌, List, ◌≡◌, refl, ◌⊎◌, inl, inr, Bool, true, false, Option, none, some, [], ◌∷◌,
  arith, ltb, leb, ◌==◌, Bool-cases, Bytes,
}
use bopm.Config.{IrcConf}
use bopm.Negcache.{Cache}
use bopm.Negcache.Times.{Implements, nc_init-Implements}
use bopm.Irc.Read
use bopm.Irc.Connection.{
  Link, irc_reconnect, irc_timer, transmit, transmit_all, Host, with_channels, with_socket,
  irc_init, introduction, irc_connect, ConnectReply, connected, already_connected, in_progress,
  refused, Poll, select_failed, nothing, arrived, Turn, stopped, raw_overrun, target_overrun, went,
  after_read, after_select, after_init, init_cache, irc_cycle, has_address, can_bind, target_list,
}

-- A turn that goes on has this negative cache.
abbrev HeadIs : Option Cache → Turn → Type 0
HeadIs head stopped = Unit
HeadIs head raw_overrun = Unit
HeadIs head target_overrun = Unit
HeadIs head (went k acts line) = k.nc_head ≡ head

irc_reconnect-nc_head : (now : ℕ) (k : Link) → (irc_reconnect now k).0.nc_head ≡ k.nc_head
unfolding irc_reconnect
irc_reconnect-nc_head now k = elim (Bool-cases (ltb now (k.last_reconnect + 30))) [
  | inl early ↦ rw early
  | inr late ↦ rw late
]

pub transmit-nc_head :
    (is_sent : Bool) (now : ℕ) (bytes : Bytes) (k : Link)
    → (transmit is_sent now bytes k).0.nc_head ≡ k.nc_head
unfolding transmit
transmit-nc_head true now bytes k = refl
transmit-nc_head false now bytes k = irc_reconnect-nc_head now k

pub transmit_all-nc_head :
    (send : ℕ → Bool) (now : ℕ) (lines : List Bytes) (k : Link)
    → (transmit_all send now lines k).0.nc_head ≡ k.nc_head
unfolding transmit_all
transmit_all-nc_head send now [] k = refl
transmit_all-nc_head send now (bytes ∷ rest) k =
    transmit_all-nc_head (λ n. send (suc n)) now rest (transmit (send 0) now bytes k).0
    ∙ transmit-nc_head (send 0) now bytes k

pub irc_timer-nc_head :
    (is_sent : Bool) (now : ℕ) (k : Link) → (irc_timer is_sent now k).0.nc_head ≡ k.nc_head
unfolding irc_timer
irc_timer-nc_head is_sent now k = elim (Bool-cases (leb (k.last + 900) now)) [
  | inl silent ↦ rw silent (irc_reconnect-nc_head now k)
  | inr e ↦ elim (Bool-cases (leb (k.last + 450) now)) [
    | inl half ↦ rw (e, half) (transmit-nc_head is_sent now _ k)
    | inr short ↦ rw (e, short)
  ]
]

irc_connect-nc_head :
    (reply : ConnectReply) (send : ℕ → Bool) (conf : IrcConf) (now : ℕ) (k : Link)
    → (irc_connect reply send conf now k).0.nc_head ≡ k.nc_head
unfolding irc_connect
irc_connect-nc_head connected send conf now k = transmit_all-nc_head send now (introduction conf) k
irc_connect-nc_head already_connected send conf now k = refl
irc_connect-nc_head in_progress send conf now k = refl
irc_connect-nc_head refused send conf now k = irc_reconnect-nc_head now k

module _ (host : Host) (conf : IrcConf) (now : ℕ) (k : Link) where
  after_read-nc_head :
      (again : Bool) (r : Read.Reading) → HeadIs k.nc_head (after_read now k again r)
  unfolding after_read
  after_read-nc_head again (Read.whole [] left) = refl
  after_read-nc_head again (Read.whole (c ∷ line) left) = refl
  after_read-nc_head true (Read.partial raw) = refl
  after_read-nc_head false (Read.partial raw) = irc_reconnect-nc_head now k
  after_read-nc_head again Read.overrun = tt

  after_select-nc_head : (poll : Poll) → HeadIs k.nc_head (after_select now k poll)
  unfolding after_select
  after_select-nc_head select_failed = refl
  after_select-nc_head nothing = refl
  after_select-nc_head (arrived input again) = after_read-nc_head again (Read.irc_read k.raw input)

  irc_init-nc_head : HeadIs k.nc_head (after_init host conf now (irc_init host conf k))
  unfolding irc_init with_socket with_channels after_init
  irc_init-nc_head = elim (Bool-cases (has_address (host.resolve conf.server))) [
    | inr unknown ↦ rw unknown tt
    | inl found ↦ rw found (socket host.socket)
  ]
    where
      with_targets :
          (fd : ℕ) (o : Option Bytes)
          → HeadIs k.nc_head (after_init host conf now (with_channels k fd o))
      with_targets fd none = tt
      with_targets fd (some channels) =
          irc_connect-nc_head host.connect host.send conf now
            (record k { fd = fd; channels = channels })

      socket :
          (o : Option ℕ) → HeadIs k.nc_head (after_init host conf now (with_socket host conf k o))
      socket none = tt
      socket (some fd) = elim (Bool-cases (can_bind host conf.vhost)) [
        | inr unbound ↦ rw unbound tt
        | inl bound ↦ rw bound (with_targets fd (target_list conf.channels (some [])))
      ]

-- The cache in the memory is a map of addresses to times.
abbrev pub IsStored : Option Cache → Type 0
IsStored none = ⊥
IsStored (some c) = (m : ℕ → Option ℕ) × Implements c m

abbrev pub IsReady : ℕ → Option Cache → Type 0
IsReady negcache head = (negcache ≡ 0) ⊎ IsStored head

pub init_cache-IsReady :
    (negcache p : ℕ) (head : Option Cache)
    → IsReady negcache head ⊎ (head ≡ none)
    → IsReady negcache (init_cache negcache p head)
unfolding init_cache
init_cache-IsReady negcache p (some c) (inl h) = h
init_cache-IsReady negcache p (some c) (inr e) = absurd (cc)
init_cache-IsReady negcache p none h = elim (Bool-cases (ltb 0 negcache)) [
  | inl on ↦ rw on (inr (_, nc_init-Implements p))
  | inr off ↦ inl (ground arith)
]

abbrev pub TurnIsReady : ℕ → Turn → Type 0
TurnIsReady negcache stopped = Unit
TurnIsReady negcache raw_overrun = Unit
TurnIsReady negcache target_overrun = Unit
TurnIsReady negcache (went k acts line) = IsReady negcache k.nc_head

HeadIs-IsReady :
    (negcache : ℕ) (head : Option Cache) (turn : Turn)
    → HeadIs head turn
    → IsReady negcache head
    → TurnIsReady negcache turn
HeadIs-IsReady negcache head stopped h r = tt
HeadIs-IsReady negcache head raw_overrun h r = tt
HeadIs-IsReady negcache head target_overrun h r = tt
HeadIs-IsReady negcache head (went k acts line) h r = rw h r

pub irc_cycle-IsReady :
    (host : Host) (conf : IrcConf) (negcache p now : ℕ) (poll : Poll) (k : Link)
    → IsReady negcache k.nc_head
    → TurnIsReady negcache (irc_cycle host conf negcache p now poll k)
unfolding irc_cycle
irc_cycle-IsReady host conf negcache p now poll k h = elim (Bool-cases (k.fd == 0)) [
  | inl off ↦
      let head = init_cache negcache p k.nc_head in
      let k' : Link = record k { nc_head = head } in
      rw off (
        HeadIs-IsReady negcache head (after_init host conf now (irc_init host conf k'))
          (irc_init-nc_head host conf now k') (init_cache-IsReady negcache p k.nc_head (inl h)))
  | inr on ↦ rw on (
      HeadIs-IsReady negcache k.nc_head (after_select now k poll)
        (after_select-nc_head host conf now k poll) h)
]
