-- ===== src/Irc/Silence.antt =====
-- A server that falls silent is left, and the bot introduces itself again.
use bopm.Prelude.{
  ℕ, suc, ◌+◌, ◌≤◌, ◌<◌, ◌≡◌, refl, ap₂, ◌++◌, if◌then◌else◌, ◌∙◌, ◌⊎◌, inl, inr, Bool, true, false,
  none, some, List, [], ◌∷◌, arith, ltb, leb, ◌==◌, Bool-cases, Bytes, All, map,
}
use bopm.Config.{IrcConf}
use bopm.Irc.Connection.{
  Link, since, said, closed, opened, irc_reconnect, transmit, transmit_all, irc_timer, Host,
  with_channels, with_socket, irc_init, introduction, irc_connect, connected, Poll, went,
  after_init, irc_cycle, has_address, can_bind, target_list, init_cache,
}

-- The calls of `irc_timer` at some times, each with how the send() of its PING ends, with no turn in
-- between that hears of the server.
unfoldable pub run_timer : List (ℕ × Bool) → Link → Link
unfolding irc_timer
run_timer [] k = k
run_timer ((t, is_sent) ∷ ts) k = run_timer ts (irc_timer is_sent t k).0

-- The connection is closed already, or nothing stands against closing it after silence.
abbrev CanLeave : Link → Type 0
CanLeave k = (k.fd ≡ 0) ⊎ (k.last_reconnect ≤ k.last)

abbrev Waits : Link → Link → Type 0
Waits k k' = (k'.last ≡ k.last) × CanLeave k'

irc_reconnect-Waits : (t : ℕ) (k : Link) → CanLeave k → Waits k (irc_reconnect t k).0
unfolding irc_reconnect
irc_reconnect-Waits t k h = elim (Bool-cases (ltb t (k.last_reconnect + 30))) [
  | inl early ↦ rw early (refl, h)
  | inr late ↦ rw late (refl, inl refl)
]

transmit-Waits :
    (is_sent : Bool) (t : ℕ) (bytes : Bytes) (k : Link)
    → CanLeave k
    → Waits k (transmit is_sent t bytes k).0
unfolding transmit
transmit-Waits true t bytes k h = (refl, h)
transmit-Waits false t bytes k h = irc_reconnect-Waits t k h

irc_timer-Waits :
    (is_sent : Bool) (t : ℕ) (k : Link)
    → t < k.last + 900
    → CanLeave k
    → Waits k (irc_timer is_sent t k).0
unfolding irc_timer
irc_timer-Waits is_sent t k lt h =
    let early : leb (k.last + 900) t ≡ false = ground arith in
    elim (Bool-cases (leb (k.last + 450) t)) [
      | inl half ↦ rw (early, half) (transmit-Waits is_sent t _ k h)
      | inr short ↦ rw (early, short) (refl, h)
    ]

Waits-early :
    (k k' : Link) (ts : List (ℕ × Bool))
    → k'.last ≡ k.last
    → All (λ s. s.0 < k.last + 900) ts
    → All (λ s. s.0 < k'.last + 900) ts
Waits-early k k' ts e a = rw e a

run_timer-Waits :
    (ts : List (ℕ × Bool)) (k : Link)
    → All (λ s. s.0 < k.last + 900) ts
    → CanLeave k
    → Waits k (run_timer ts k)
unfolding run_timer
run_timer-Waits [] k a h = (refl, h)
run_timer-Waits ((t, is_sent) ∷ ts) k a h =
    let k' = (irc_timer is_sent t k).0 in
    let first = irc_timer-Waits is_sent t k a.0 h in
    let later = run_timer-Waits ts k' (Waits-early k k' ts first.0 a.1) first.1 in
    (later.0 ∙ first.0, later.1)

gives_up :
    (is_sent : Bool) (t : ℕ) (k : Link)
    → k.last + 900 ≤ t
    → CanLeave k
    → (irc_timer is_sent t k).0.fd ≡ 0
unfolding irc_timer irc_reconnect
gives_up is_sent t k le h =
    let silent : leb (k.last + 900) t ≡ true = ground arith in
    elim (Bool-cases (ltb t (k.last_reconnect + 30))) [
      | inr late ↦ rw (silent, late)
      | inl early ↦ elim h [
        | inl none_open ↦ rw (silent, early) none_open
        | inr order ↦ absurd (ground arith)
      ]
    ]

transmit_all-sent :
    (send : ℕ → Bool) (now : ℕ) (lines : List Bytes) (k : Link)
    → ((n : ℕ) → send n ≡ true)
    → transmit_all send now lines k ≡ (k, map said lines)
unfolding transmit_all transmit
transmit_all-sent send now [] k h = refl
transmit_all-sent send now (bytes ∷ rest) k h =
    rw (h 0, transmit_all-sent (λ n. send (suc n)) now rest k (λ n. h (suc n)))

opens :
    (host : Host) (conf : IrcConf) (negcache p now : ℕ) (poll : Poll) (k : Link) (fd : ℕ)
    (channels : Bytes)
    → k.fd ≡ 0
    → has_address (host.resolve conf.server) ≡ true
    → host.socket ≡ some fd
    → can_bind host conf.vhost ≡ true
    → target_list conf.channels (some []) ≡ some channels
    → host.connect ≡ connected
    → ((n : ℕ) → host.send n ≡ true)
    → irc_cycle host conf negcache p now poll k
      ≡ went
          (record k {
            fd = fd;
            last = now;
            channels = channels;
            nc_head = init_cache negcache p k.nc_head;
          })
          (opened fd ∷ map said (introduction conf))
          none
unfolding irc_cycle irc_init with_socket with_channels after_init irc_connect
opens host conf negcache p now poll k fd channels none_open address socket bind fit connect sends =
    let off : (k.fd == 0) ≡ true = ground arith in
    let k' : Link = record k {
      fd = fd;
      channels = channels;
      nc_head = init_cache negcache p k.nc_head;
    } in
    let introduced = transmit_all-sent host.send now (introduction conf) k' sends in
    rw (off, address, socket, bind, fit, connect)
      (ap₂
        (λ b r.
          went (since now r).0
            (((if b then [] else closed k.fd ∷ []) ++ opened fd ∷ []) ++ (since now r).1) none)
        off introduced)

-- A server of which nothing is heard for 900 seconds is left at the first call of `irc_timer` from
-- then on, however the send() of each PING before it ends, as long as no turn of `irc_cycle` between
-- the calls changes the connection; and the next turn of `irc_cycle` opens a
-- new connection and introduces the bot again, if the system lets it: the server's name resolves,
-- there is a socket that can be bound, the channels fit their array, connect() succeeds and so does
-- each send() of the introduction. The last reconnection was no later than the last data, as it is
-- once data has come over the connection.
pub irc_timer-returns :
    (host : Host) (conf : IrcConf) (negcache p : ℕ) (poll : Poll) (k : Link) (ts : List (ℕ × Bool))
    (is_sent : Bool) (t now fd : ℕ) (channels : Bytes)
    → All (λ s. s.0 < k.last + 900) ts
    → k.last + 900 ≤ t
    → k.last_reconnect ≤ k.last
    → has_address (host.resolve conf.server) ≡ true
    → host.socket ≡ some fd
    → can_bind host conf.vhost ≡ true
    → target_list conf.channels (some []) ≡ some channels
    → host.connect ≡ connected
    → ((n : ℕ) → host.send n ≡ true)
    → ((irc_timer is_sent t (run_timer ts k)).0.fd ≡ 0)
      × (irc_cycle host conf negcache p now poll (irc_timer is_sent t (run_timer ts k)).0
          ≡ went
              (record (irc_timer is_sent t (run_timer ts k)).0 {
                fd = fd;
                last = now;
                channels = channels;
                nc_head = init_cache negcache p (irc_timer is_sent t (run_timer ts k)).0.nc_head;
              })
              (opened fd ∷ map said (introduction conf))
              none)
irc_timer-returns host conf negcache p poll k ts is_sent t now fd channels early late order address
      socket bind fit connect sends =
    let (same, can_leave) = run_timer-Waits ts k early (inr order) in
    let left = gives_up is_sent t (run_timer ts k) (omega (arith, same, late)) can_leave in
    (
      left,
      opens host conf negcache p now poll (irc_timer is_sent t (run_timer ts k)).0 fd channels left
          address socket bind fit connect sends,
    )
