-- ===== src/Irc/Userinfo.antt =====
-- `userinfo_create` and `get_channel` of src/irc.c.
use bopm.Prelude.{
  ◌≡◌, refl, Option, none, some, List, [], ◌∷◌, ◌++◌, arith, ◌==◌, if◌then◌else◌, Bytes, Lacks,
  str_case_eq,
}
use mathlib.Core.List.{append-nil}
use bopm.Config.{ChannelConf}

pub record UserInfo : Type 0 where
  pub irc_nick : Bytes
  pub irc_username : Bytes
  pub irc_hostname : Bytes

-- `nick`, `username` and `hostname` behind the loop, for a source that begins here.
pub record Marked : Type 0 where
  pub nick : Bytes
  pub username : Option Bytes
  pub hostname : Option Bytes

abbrev or_else : Option Bytes → Bytes → Option Bytes
or_else (some later) token = some later
or_else none token = some token

-- The loop sets a NUL at each `!` and `@`, so that a string ends at the next of them; the last `!`
-- and the last `@` give the user's name and the host's.
unfoldable pub mark_source : Bytes → Marked
mark_source [] = record { nick = []; username = none; hostname = none }
mark_source (c ∷ s) =
    let m = mark_source s in
    if c == b'!'
    then record { nick = []; username = or_else m.username m.nick; hostname = m.hostname }
    else if c == b'@'
    then record { nick = []; username = m.username; hostname = or_else m.hostname m.nick }
    else record { nick = c ∷ m.nick; username = m.username; hostname = m.hostname }

abbrev build : Bytes → Option Bytes → Option Bytes → Option UserInfo
build nick none hostname = none
build nick (some username) none = none
build nick (some username) (some hostname) =
    some (record { irc_nick = nick; irc_username = username; irc_hostname = hostname })

unfoldable pub userinfo_create : Bytes → Option UserInfo
unfolding mark_source
userinfo_create source = let m = mark_source source in build m.nick m.username m.hostname

unfoldable pub get_channel : List ChannelConf → Bytes → Option ChannelConf
get_channel [] channel = none
get_channel (item ∷ rest) channel =
    if str_case_eq item.name channel then some item else get_channel rest channel

-- Neither `!` nor `@` stands in a text.
abbrev pub Plain : Bytes → Type 0
Plain s = Lacks b'!' s × Lacks b'@' s

mark_source-append :
    (s t : Bytes)
    → Plain s
    → mark_source (s ++ t) ≡ record (mark_source t) { nick = s ++ (mark_source t).nick }
unfolding mark_source
mark_source-append [] t p = refl
mark_source-append (c ∷ s) t p = rw (p.0.0, p.1.0, mark_source-append s t (p.0.1, p.1.1))

mark_source-Plain :
    (s : Bytes) → Plain s → mark_source s ≡ record { nick = s; username = none; hostname = none }
unfolding mark_source
mark_source-Plain [] p = refl
mark_source-Plain (c ∷ s) p = rw (p.0.0, p.1.0, mark_source-Plain s (p.0.1, p.1.1))

-- A source `nick!user@host`, with no further `!` or `@`, is split into its three parts.
pub userinfo_create-mask :
    (nick user host : Bytes)
    → Plain nick
    → Plain user
    → Plain host
    → userinfo_create (nick ++ b'!' ∷ (user ++ b'@' ∷ host))
      ≡ some (record { irc_nick = nick; irc_username = user; irc_hostname = host })
unfolding userinfo_create mark_source
userinfo_create-mask nick user host n u h = rw (
  mark_source-append nick (b'!' ∷ (user ++ b'@' ∷ host)) n,
  mark_source-append user (b'@' ∷ host) u,
  mark_source-Plain host h,
  append-nil,
  append-nil,
)

no_username : (s : Bytes) → Lacks b'!' s → (mark_source s).username ≡ none
unfolding mark_source
no_username [] h = refl
no_username (c ∷ s) h = ground (arith, no_username s h.1)

-- A source without `!`, such as a server's name, gives no user.
pub userinfo_create-server : (source : Bytes) → Lacks b'!' source → userinfo_create source ≡ none
unfolding userinfo_create
userinfo_create-server source h = rw (no_username source h)
