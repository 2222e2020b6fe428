-- ===== src/Irc/Handlers.antt =====
-- The handlers of src/irc.c for the messages of the server, and their dispatch in `irc_parse`.
use bopm.Prelude.{
  ℕ, zero, suc, Bool, true, false, ◌&&◌, ◌||◌, Option, none, some, List, [], ◌∷◌, ◌++◌, ltb, leb,
  ◌==◌, if◌then◌else◌, Bytes, codes, length, drop, space, lower_ascii, str_case_eq,
}
use bopm.Config.{ChannelConf, IrcConf}
use bopm.Irc.Send.{irc_send}
use bopm.Irc.Parse.{Parv, Parsed, ignored, overrun, parsed, irc_parse}
use bopm.Irc.Slices.{RegMatches, c_string, slices}
use bopm.Irc.Userinfo.{UserInfo, userinfo_create, get_channel}
use bopm.Scan.Connect.{User}

-- What a handler does: it sends a line, or calls `command_parse`, `command_userhost`,
-- `scan_connect` (and `stats_connect` behind it), or `main_restart`. `undefined` stands for the
-- other results of reading a line.
pub data Request : Type 0 where
  send_line : Bytes → Request
  parse_command : (command : Bytes) → ChannelConf → (irc_nick : Bytes) → Request
  userhost : Bytes → Request
  connect : User → (msg : Bytes) → Request
  restart undefined : Request

-- `strncasecmp (a, b, n) == 0`
unfoldable pub str_n_case_eq : ℕ → Bytes → Bytes → Bool
str_n_case_eq zero a b = true
str_n_case_eq (suc n) [] [] = true
str_n_case_eq (suc n) [] (_ ∷ _) = false
str_n_case_eq (suc n) (_ ∷ _) [] = false
str_n_case_eq (suc n) (a ∷ s) (b ∷ t) = (lower_ascii a == lower_ascii b) && str_n_case_eq n s t

-- `strcspn (s, " :,")`
unfoldable pub nick_length : Bytes → ℕ
nick_length [] = 0
nick_length (c ∷ s) = if (c == space) || (c == b':' || c == b',') then 0 else suc (nick_length s)

unfoldable pub is_addressed : (irc_nick text : Bytes) → Bool
unfolding nick_length str_n_case_eq
is_addressed irc_nick text =
    let nick_len : ℕ =
      if ltb (nick_length text) 3 && leb 3 (length irc_nick) then 3 else nick_length text in
    str_n_case_eq nick_len text irc_nick || str_n_case_eq 4 text (codes "!all")

abbrev pub begins_with : ℕ → Bytes → Bool
begins_with c [] = false
begins_with c (a ∷ _) = a == c

unfoldable pub m_ctcp : (version : Bytes) → UserInfo → Bytes → List Request
unfolding str_n_case_eq irc_send
m_ctcp version source_p text =
    if str_n_case_eq 9 text (1 ∷ (codes "VERSION" ++ 1 ∷ []))
    then send_line (
        irc_send (
          codes "NOTICE "
          ++ (source_p.irc_nick
              ++ (codes " :"
                  ++ (1 ∷ (codes "VERSION Blitzed Open Proxy Monitor " ++ (version ++ 1 ∷ [])))))))
      ∷ []
    else []

abbrev command_from : IrcConf → UserInfo → Bytes → Option ChannelConf → List Request
command_from irc source_p text none = []
command_from irc source_p text (some channel) =
    if is_addressed irc.nick text then parse_command text channel source_p.irc_nick ∷ [] else []

unfoldable pub m_privmsg : IrcConf → (version : Bytes) → Option UserInfo → List Bytes → List Request
unfolding m_ctcp is_addressed get_channel
m_privmsg irc version none params = []
m_privmsg irc version (some source_p) (_ ∷ target ∷ text ∷ _) =
    (if begins_with 1 text then m_ctcp version source_p text else [])
    ++ (if begins_with b'#' target || begins_with b'&' target
        then command_from irc source_p text (get_channel irc.channels target)
        else [])
m_privmsg irc version (some source_p) _ = []

-- What `scan_connect` is called with.
unfoldable pub connect_sliced : (msg : Bytes) → Option (List ℕ × Bytes) → List Request
unfolding c_string
connect_sliced msg (some (nick ∷ (username ∷ (hostname ∷ (ip ∷ []))), text)) =
    connect
      (record {
        nick = c_string (drop nick text);
        username = c_string (drop username text);
        hostname = c_string (drop hostname text);
        ip = c_string (drop ip text);
      })
      msg
    ∷ []
connect_sliced msg _ = undefined ∷ []

-- Behind regexec() on the text.
unfoldable pub connect_user : (msg text : Bytes) → Option RegMatches → List Request
unfolding slices connect_sliced
connect_user msg text none = []
connect_user msg text (some pmatch) = elim (pmatch 4) [
  | none ↦ []
  | some _ ↦ connect_sliced msg (slices 4 pmatch 0 text)
]

-- `regexec` stands for regcomp() and regexec() with the expression of the configuration.
unfoldable pub m_notice :
    (regexec : Bytes → Option RegMatches) → Bytes → Option UserInfo → List Bytes → List Request
unfolding connect_user
m_notice regexec msg (some source_p) params = []
m_notice regexec msg none (_ ∷ _ ∷ text ∷ _) = connect_user msg text (regexec text)
m_notice regexec msg none _ = []

unfoldable pub m_ping : List Bytes → List Request
unfolding irc_send
m_ping (_ ∷ text ∷ _) = send_line (irc_send (codes "PONG " ++ text)) ∷ []
m_ping _ = []

abbrev join_invited : Option ChannelConf → List Request
join_invited none = []
join_invited (some channel) =
    send_line (irc_send (codes "JOIN " ++ (channel.name ++ (codes " " ++ channel.key)))) ∷ []

unfoldable pub m_invite : IrcConf → List Bytes → List Request
unfolding get_channel irc_send
m_invite irc (_ ∷ _ ∷ channel ∷ _) = join_invited (get_channel irc.channels channel)
m_invite irc _ = []

abbrev ask_invite : Option ChannelConf → List Request
ask_invite none = []
ask_invite (some channel) =
    if length channel.invite == 0 then [] else send_line (irc_send channel.invite) ∷ []

unfoldable pub m_cannot_join : IrcConf → List Bytes → List Request
unfolding get_channel irc_send
m_cannot_join irc (_ ∷ _ ∷ channel ∷ _ ∷ _) = ask_invite (get_channel irc.channels channel)
m_cannot_join irc _ = []

unfoldable pub m_userhost : List Bytes → List Request
m_userhost (_ ∷ _ ∷ reply ∷ _) = userhost reply ∷ []
m_userhost _ = []

abbrev send_all : List Bytes → List Request
send_all [] = []
send_all (text ∷ rest) = send_line (irc_send text) ∷ send_all rest

abbrev join_all : List ChannelConf → List Request
join_all [] = []
join_all (channel ∷ rest) =
    let more = join_all rest in
    if length channel.name == 0
    then more
    else if ltb 0 (length channel.key)
    then send_line (irc_send (codes "JOIN " ++ (channel.name ++ (codes " " ++ channel.key)))) ∷ more
    else send_line (irc_send (codes "JOIN " ++ channel.name)) ∷ more

unfoldable pub m_perform : IrcConf → List Request
unfolding irc_send
m_perform irc =
    (if ltb 0 (length irc.nickserv) then send_line (irc_send irc.nickserv) ∷ [] else [])
    ++ (send_line (irc_send (codes "OPER " ++ irc.oper))
        ∷ send_line (irc_send (codes "MODE " ++ (irc.nick ++ (codes " " ++ irc.mode))))
        ∷ send_line (irc_send (codes "AWAY :" ++ irc.away))
        ∷ (send_all irc.performs ++ join_all irc.channels))

-- The handlers of `COMMAND_TABLE`.
pub data Handler : Type 0 where
  on_notice on_privmsg on_ping on_invite on_perform on_userhost on_cannot_join on_kill : Handler

abbrev command_table : List (Bytes × Handler)
command_table =
    (codes "NOTICE", on_notice)
    ∷ (codes "PRIVMSG", on_privmsg)
    ∷ (codes "PING", on_ping)
    ∷ (codes "INVITE", on_invite)
    ∷ (codes "001", on_perform)
    ∷ (codes "302", on_userhost)
    ∷ (codes "471", on_cannot_join)
    ∷ (codes "473", on_cannot_join)
    ∷ (codes "474", on_cannot_join)
    ∷ (codes "475", on_cannot_join)
    ∷ (codes "KILL", on_kill)
    ∷ []

unfoldable pub handler_of : Bytes → List (Bytes × Handler) → Option Handler
handler_of command [] = none
handler_of command ((name, handler) ∷ rest) =
    if str_case_eq name command then some handler else handler_of command rest

unfoldable pub handle :
    IrcConf
    → (version : Bytes) → (regexec : Bytes → Option RegMatches) → (msg : Bytes) → Parv
    → Option Handler
    → List Request
unfolding m_notice m_privmsg m_ping m_invite m_perform m_userhost m_cannot_join userinfo_create
handle irc version regexec msg parv none = []
handle irc version regexec msg parv (some on_notice) =
    m_notice regexec msg (userinfo_create parv.source) parv.params
handle irc version regexec msg parv (some on_privmsg) =
    m_privmsg irc version (userinfo_create parv.source) parv.params
handle irc version regexec msg parv (some on_ping) = m_ping parv.params
handle irc version regexec msg parv (some on_invite) = m_invite irc parv.params
handle irc version regexec msg parv (some on_perform) = m_perform irc
handle irc version regexec msg parv (some on_userhost) = m_userhost parv.params
handle irc version regexec msg parv (some on_cannot_join) = m_cannot_join irc parv.params
handle irc version regexec msg parv (some on_kill) = restart ∷ []

-- The dispatch on `parv[1]`, which a line that has only a source does not set.
unfoldable pub handle_command :
    IrcConf
    → (version : Bytes) → (regexec : Bytes → Option RegMatches) → (msg : Bytes) → Parv
    → (params : List Bytes) → List Request
unfolding handle handler_of
handle_command irc version regexec msg parv [] = undefined ∷ []
handle_command irc version regexec msg parv (command ∷ _) =
    handle irc version regexec msg parv (handler_of command command_table)

unfoldable pub dispatch :
    IrcConf
    → (version : Bytes) → (regexec : Bytes → Option RegMatches) → (msg : Bytes) → Parsed
    → List Request
unfolding handle_command
dispatch irc version regexec msg ignored = []
dispatch irc version regexec msg overrun = undefined ∷ []
dispatch irc version regexec msg (parsed parv) =
    handle_command irc version regexec msg parv parv.params

-- A line from the server, from `irc_parse` to the call that its handler makes.
unfoldable pub on_line :
    IrcConf → (version : Bytes) → (regexec : Bytes → Option RegMatches) → Bytes → List Request
unfolding dispatch irc_parse
on_line irc version regexec line = dispatch irc version regexec line (irc_parse irc.server line)
