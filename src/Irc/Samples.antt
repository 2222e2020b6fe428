-- ===== src/Irc/Samples.antt =====
-- Runs of the functions of src/irc.c, and their theorems at concrete inputs.
use bopm.Config.{IrcConf, ChannelConf}
use bopm.Scan.Connect.{User}
use bopm.Irc.Read.{
  irc_read, whole, partial, IsStored, irc_read-line, irc_read-overrun, irc_read-append,
}
use bopm.Irc.Read
use bopm.Irc.Slices.{RegMatches}
use bopm.Irc.Handlers.{parse_command, connect, is_addressed, on_line}
use bopm.Irc.Notice.{Around, notice_text, on_line-notice}
use bopm.Irc.Lines.{message_line, source_mask, on_line-notice_user, on_line-privmsg}
use bopm.Prelude.{
  ℕ, zero, suc, if◌then◌else◌, Bytes, str_case_eq, ◌≡◌, refl, [], ◌∷◌, ◌++◌, arith, codes, take,
  replicate, some, none, Option, space, All,
}
use bopm.Irc.Send.{irc_send, irc_send_channels, irc_send-long}
use bopm.Irc.Parse.{
  colon, irc_parse, parsed, overrun, spaced, IsToken, irc_parse-line, irc_parse-overrun,
}
use bopm.Irc.Userinfo.{userinfo_create, userinfo_create-mask, get_channel}

to_channels : irc_send_channels (codes "#a,#b") (codes "hi") ≡ codes "PRIVMSG #a,#b :hi\n"
unfolding irc_send_channels
to_channels = refl

irc_send-long_example : irc_send (replicate 512 b'x') ≡ take 512 (replicate 512 b'x')
irc_send-long_example = irc_send-long (replicate 512 b'x') (omega arith)

message_parsed :
    irc_parse (codes "irc.example") (codes ":joe!j@host PRIVMSG #bopm :bopm check 10.0.0.1")
    ≡ parsed (record {
      source = codes "joe!j@host";
      params = codes "PRIVMSG" ∷ codes "#bopm" ∷ codes "bopm check 10.0.0.1" ∷ [];
    })
unfolding irc_parse
message_parsed = refl

ping_parsed :
    irc_parse (codes "irc.example") (codes "PING :abc")
    ≡ parsed (record { source = codes "irc.example"; params = codes "PING" ∷ codes "abc" ∷ [] })
unfolding irc_parse
ping_parsed = refl

irc_parse-line_example :
    irc_parse [] (colon ∷ (codes "s" ++ spaced (codes "PING" ∷ []) (space ∷ colon ∷ codes "a b")))
    ≡ parsed (record { source = codes "s"; params = (codes "PING" ∷ []) ++ codes "a b" ∷ [] })
irc_parse-line_example =
    irc_parse-line [] (codes "s") (codes "PING" ∷ []) (codes "a b") (omega arith) (refl, tt)
      (((refl, (refl, (refl, (refl, tt)))), refl), tt)

irc_parse-overrun_example :
    irc_parse [] (colon ∷ (codes "s" ++ spaced (replicate 17 (codes "x")) [])) ≡ overrun
irc_parse-overrun_example =
    irc_parse-overrun [] (codes "s") (replicate 17 (codes "x")) [] (omega arith) (refl, tt)
      seventeen refl
  where
    one : IsToken (codes "x")
    one = ((refl, tt), refl)

    seventeen : All IsToken (replicate 17 (codes "x"))
    seventeen = (
      one,
      (
        one,
        (
          one,
          (
            one,
            (
              one,
              (
                one,
                (one, (one, (one, (one, (one, (one, (one, (one, (one, (one, (one, tt))))))))))),
              ),
            ),
          ),
        ),
      ),
    )

userinfo_create-mask_example :
    userinfo_create (codes "joe" ++ b'!' ∷ (codes "j" ++ b'@' ∷ codes "h"))
    ≡ some (record { irc_nick = codes "joe"; irc_username = codes "j"; irc_hostname = codes "h" })
userinfo_create-mask_example =
    userinfo_create-mask (codes "joe") (codes "j") (codes "h")
      ((refl, (refl, (refl, tt))), (refl, (refl, (refl, tt)))) ((refl, tt), (refl, tt))
      ((refl, tt), (refl, tt))

abbrev channel : ChannelConf
channel = record { name = codes "#bopm"; key = []; invite = [] }

abbrev irc_conf : IrcConf
irc_conf = record {
  nick = codes "bopm";
  username = codes "bopm";
  realname = codes "bopm";
  server = codes "irc.example";
  port = 6667;
  password = [];
  vhost = [];
  nickserv = [];
  oper = codes "bopm x";
  mode = codes "+c";
  away = [];
  connregex = [];
  kline = [];
  channels = channel ∷ [];
  performs = [];
}

-- What regexec() gives for a text in which the fields stand as in `joe_notice`.
abbrev joe_matches : RegMatches
joe_matches zero = some (0, 25)
joe_matches (suc zero) = some (4, 7)
joe_matches (suc (suc zero)) = some (8, 9)
joe_matches (suc (suc (suc zero))) = some (10, 14)
joe_matches (suc (suc (suc (suc zero)))) = some (16, 24)
joe_matches (suc (suc (suc (suc (suc i))))) = none

abbrev any_notice : Bytes → Option RegMatches
any_notice text = some joe_matches

abbrev joe : User
joe = record {
  nick = codes "joe";
  username = codes "j";
  hostname = codes "host";
  ip = codes "10.0.0.1";
}

-- `Hi: joe!j@host [10.0.0.1]`
abbrev around_joe : Around
around_joe = record {
  before = codes "Hi: ";
  byte₁ = b'!';
  more₁ = [];
  byte₂ = b'@';
  more₂ = [];
  byte₃ = space;
  more₃ = codes "[";
  after = codes "]";
}

command_runs :
    on_line irc_conf (codes "3.1") any_notice (codes ":joe!j@h PRIVMSG #bopm :bopm check 10.0.0.1")
    ≡ parse_command (codes "bopm check 10.0.0.1") channel (codes "joe") ∷ []
unfolding on_line str_case_eq
command_runs = refl

on_line-notice_example :
    on_line irc_conf
      (codes "3.1")
      any_notice
      (message_line (codes "irc") (codes "NOTICE") (codes "bopm") (notice_text joe around_joe))
    ≡ connect joe
        (message_line (codes "irc") (codes "NOTICE") (codes "bopm") (notice_text joe around_joe))
      ∷ []
on_line-notice_example =
    on_line-notice irc_conf (codes "3.1") any_notice (codes "irc") (codes "bopm") joe around_joe
      joe_matches (refl, (refl, (refl, tt))) (refl, (refl, (refl, tt)))
      ((refl, (refl, (refl, (refl, tt)))), refl) refl
      (record {
        nick = refl;
        username_from = 8;
        username_at = refl;
        username = refl;
        hostname_from = 10;
        hostname_at = refl;
        hostname = refl;
        ip_from = 16;
        ip_at = refl;
        ip = refl;
      })
      (
        (refl, (refl, (refl, tt))),
        (refl, tt),
        (refl, (refl, (refl, (refl, tt)))),
        (refl, (refl, (refl, (refl, (refl, (refl, (refl, (refl, tt)))))))),
      )

on_line-notice_user_example :
    on_line irc_conf (codes "3.1") any_notice (
      message_line
        (source_mask (codes "a") (codes "b") (codes "c"))
        (codes "NOTICE")
        (codes "bopm")
        (codes "Client connecting"))
    ≡ []
on_line-notice_user_example =
    on_line-notice_user irc_conf (codes "3.1") any_notice (codes "a") (codes "b") (codes "c")
      (codes "bopm") (codes "Client connecting") (refl, (refl, (refl, (refl, (refl, tt)))))
      ((refl, tt), (refl, tt)) ((refl, tt), (refl, tt)) ((refl, tt), (refl, tt))
      ((refl, (refl, (refl, (refl, tt)))), refl)

on_line-privmsg_example :
    on_line irc_conf (codes "3.1") any_notice (
      message_line
        (source_mask (codes "a") (codes "b") (codes "c"))
        (codes "PRIVMSG")
        (codes "#bopm")
        (codes "bopm stats"))
    ≡ (if is_addressed irc_conf.nick (codes "bopm stats")
        then parse_command (codes "bopm stats") channel (codes "a") ∷ []
        else [])
unfolding get_channel str_case_eq
on_line-privmsg_example =
    on_line-privmsg irc_conf (codes "3.1") any_notice (codes "a") (codes "b") (codes "c")
      (codes "#bopm") (codes "bopm stats") channel (refl, (refl, (refl, (refl, (refl, tt)))))
      ((refl, tt), (refl, tt)) ((refl, tt), (refl, tt)) ((refl, tt), (refl, tt))
      ((refl, (refl, (refl, (refl, (refl, tt))))), refl) refl refl refl

replicate-IsStored : (n : ℕ) → All IsStored (replicate n b'x')
replicate-IsStored zero = tt
replicate-IsStored (suc n) = ((refl, refl, refl), replicate-IsStored n)

irc_read-overrun_example : irc_read [] (replicate 513 b'x' ++ 10 ∷ []) ≡ Read.overrun
irc_read-overrun_example =
    irc_read-overrun (replicate 513 b'x') [] (replicate-IsStored 513) (omega arith)

irc_read-append_example :
    irc_read [] (codes "PI" ++ (codes "NG" ++ 10 ∷ []))
    ≡ irc_read (codes "PI") (codes "NG" ++ 10 ∷ [])
unfolding irc_read
irc_read-append_example = irc_read-append [] (codes "PI") (codes "NG" ++ 10 ∷ []) (codes "PI") refl
