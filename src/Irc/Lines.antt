-- ===== src/Irc/Lines.antt =====
-- What the lines come to that the program waits for, from the bytes to the call of their handler.
use bopm.Prelude.{
  ◌≡◌, refl, true, false, ◌||◌, Option, some, [], ◌∷◌, ◌++◌, arith, if◌then◌else◌, Bytes, codes,
  space, Lacks, str_case_eq,
}
use bopm.Config.{ChannelConf, IrcConf}
use bopm.Irc.Parse.{colon, IsToken, spaced, parsed, irc_parse, irc_parse-line}
use bopm.Irc.Userinfo.{Plain, userinfo_create-mask, userinfo_create-server, get_channel}
use bopm.Irc.Slices.{RegMatches}
use bopm.Irc.Handlers.{
  parse_command, is_addressed, begins_with, m_privmsg, m_notice, connect_user, handle, handler_of,
  handle_command, dispatch, on_line,
}

-- `:source COMMAND target :text`
abbrev pub message_line : (source command target text : Bytes) → Bytes
message_line source command target text =
    colon ∷ (source ++ spaced (command ∷ target ∷ []) (space ∷ colon ∷ text))

-- `nick!user@host`
abbrev pub source_mask : (nick user host : Bytes) → Bytes
source_mask nick user host = nick ++ b'!' ∷ (user ++ b'@' ∷ host)

message_line-parsed :
    (server source command target text : Bytes)
    → Lacks space source
    → IsToken command
    → IsToken target
    → irc_parse server (message_line source command target text)
      ≡ parsed (record { source = source; params = command ∷ target ∷ text ∷ [] })
message_line-parsed server source command target text s c t =
    irc_parse-line server source (command ∷ target ∷ []) text (omega arith) s (c, (t, tt))

abbrev notice : Bytes
notice = codes "NOTICE"

abbrev privmsg : Bytes
privmsg = codes "PRIVMSG"

notice-IsToken : IsToken notice
notice-IsToken = ((refl, (refl, (refl, (refl, (refl, (refl, tt)))))), refl)

privmsg-IsToken : IsToken privmsg
privmsg-IsToken = ((refl, (refl, (refl, (refl, (refl, (refl, (refl, tt))))))), refl)

-- A notice of a server, whose name has no `!` and no space, is handed to the regular expression.
pub on_line-connect_user :
    (irc : IrcConf) (version : Bytes) (regexec : Bytes → Option RegMatches)
    (server target text : Bytes)
    → Lacks space server
    → Lacks b'!' server
    → IsToken target
    → on_line irc version regexec (message_line server (codes "NOTICE") target text)
      ≡ connect_user (message_line server (codes "NOTICE") target text) text (regexec text)
unfolding on_line str_case_eq
on_line-connect_user irc version regexec server target text s p t = rw (
  message_line-parsed irc.server server notice target text s notice-IsToken t,
  dispatch,
  handle_command,
  handler_of,
  handle,
  userinfo_create-server server p,
  m_notice,
)

-- A notice of a user `nick!user@host` starts no scan and does nothing else, whatever its text is.
pub on_line-notice_user :
    (irc : IrcConf) (version : Bytes) (regexec : Bytes → Option RegMatches)
    (nick user host target text : Bytes)
    → Lacks space (source_mask nick user host)
    → Plain nick
    → Plain user
    → Plain host
    → IsToken target
    → on_line irc version regexec
        (message_line (source_mask nick user host) (codes "NOTICE") target text)
      ≡ []
unfolding on_line str_case_eq
on_line-notice_user irc version regexec nick user host target text s n u h t = rw (
  message_line-parsed irc.server (source_mask nick user host) notice target text s notice-IsToken t,
  dispatch,
  handle_command,
  handler_of,
  handle,
  userinfo_create-mask nick user host n u h,
  m_notice,
)

-- A message of a user to a channel of the configuration is passed to `command_parse`, with the
-- channel and the user's nick, exactly if it is addressed to the bot, and does nothing else. The
-- channel's name begins with `#` or `&`, and the text not with byte 1.
pub on_line-privmsg :
    (irc : IrcConf) (version : Bytes) (regexec : Bytes → Option RegMatches)
    (nick user host target text : Bytes) (channel : ChannelConf)
    → Lacks space (source_mask nick user host)
    → Plain nick
    → Plain user
    → Plain host
    → IsToken target
    → (begins_with b'#' target || begins_with b'&' target) ≡ true
    → begins_with 1 text ≡ false
    → get_channel irc.channels target ≡ some channel
    → on_line irc version regexec
        (message_line (source_mask nick user host) (codes "PRIVMSG") target text)
      ≡ (if is_addressed irc.nick text then parse_command text channel nick ∷ [] else [])
unfolding on_line str_case_eq
on_line-privmsg irc version regexec nick user host target text channel s n u h t hash quiet known =
    rw (
      message_line-parsed irc.server (source_mask nick user host) privmsg target text s
          privmsg-IsToken t,
      dispatch,
      handle_command,
      handler_of,
      handle,
      userinfo_create-mask nick user host n u h,
      m_privmsg,
      hash,
      quiet,
      known,
    )
