-- ===== src/Scan/Banned.antt =====
-- The ban that the default configuration sends for a user whose host has an open proxy.
use bopm.Prelude.{
  ◌+◌, ◌≤◌, ◌≡◌, refl, ap, ◌∙◌, inl, inr, Bool, true, false, not, ◌&&◌, [], ◌∷◌, ◌++◌, arith, ◌==◌,
  if◌then◌else◌, Bool-cases, Bytes, codes, length, length-append, All,
}
use mathlib.Core.List.{append-nil}
use bopm.Config.Defaults.{default_kline, default_irc}
use bopm.Event.{line}
use bopm.Irc.Send.{irc_send, newline, irc_send-short}
use bopm.Scan.Kline.{percent, kline_table, scan_irckline}
use bopm.Scan.Expand.{IsPresent, IsSafe, expand, value_of, scan_irckline-expand}
use bopm.Scan.Connect.{User, scan_create}

abbrev is_safe : Bytes → Bool
is_safe [] = true
is_safe (c ∷ []) = not (c == percent)
is_safe (c ∷ d ∷ rest) =
    let after = is_safe rest in
    let next = is_safe (d ∷ rest) in if c == percent then not (d == percent) && after else next

is_safe-IsSafe : (s : Bytes) → is_safe s ≡ true → IsSafe s
is_safe-IsSafe [] e = tt
is_safe-IsSafe (c ∷ []) e = elim (Bool-cases (c == percent)) [
  | inl same ↦ absurd (let no : false ≡ true = rw same at e in cc)
  | inr other ↦ other
]
is_safe-IsSafe (c ∷ d ∷ rest) e = elim (Bool-cases (c == percent)) [
  | inr other ↦ inl (other, is_safe-IsSafe (d ∷ rest) (rw other at e))
  | inl same ↦ elim (Bool-cases (d == percent)) [
    | inl twice ↦ absurd (let no : false ≡ true = rw (same, twice) at e in cc)
    | inr key ↦ inr (same, key, is_safe-IsSafe rest (rw (same, key) at e))
  ]
]

abbrev ban_form : (username hostname ip : Bytes) → Bytes
ban_form username hostname ip =
    codes "KLINE "
    ++ (username
        ++ (codes "@"
            ++ (hostname
                ++ (codes " :Open Proxy found on your host. Please visit www.blitzed.org/proxy?ip="
                    ++ (ip ++ codes " for more information.")))))

-- The line for a user.
abbrev pub ban_text : User → Bytes
ban_text user = ban_form user.username user.hostname user.ip

expand-default :
    (user : User) (msg type : Bytes)
    → expand (kline_table (scan_create user msg) type) default_kline ≡ ban_text user
unfolding expand value_of kline_table scan_create
expand-default user msg type = computed ∙ (λ t.
    ban_form (append-nil user.username t) (append-nil user.hostname t) (append-nil user.ip t))
  where
    computed :
        expand (kline_table (scan_create user msg) type) default_kline
        ≡ ban_form (user.username ++ []) (user.hostname ++ []) (user.ip ++ [])
    computed = refl

ban_text-length :
    (user : User)
    → length (ban_text user) ≡ length user.username + length user.hostname + length user.ip + 100
ban_text-length user =
    let a = length-append user.ip (codes " for more information.") in
    let b = length-append user.hostname (
      codes " :Open Proxy found on your host. Please visit www.blitzed.org/proxy?ip="
      ++ (user.ip ++ codes " for more information.")) in
    let c = length-append user.username (
      codes "@"
      ++ (user.hostname
          ++ (codes " :Open Proxy found on your host. Please visit www.blitzed.org/proxy?ip="
              ++ (user.ip ++ codes " for more information.")))) in
    omega (arith, a, b, c)

-- With the configuration that is there before bopm.conf is read, the ban of a connecting user names
-- the user, the host and the address, and is a whole line, if these have at most 400 bytes together.
pub scan_irckline-default :
    (user : User) (msg type : Bytes)
    → length user.username + length user.hostname + length user.ip ≤ 400
    → scan_irckline (scan_create user msg) default_irc.kline type
      ≡ line (ban_text user ++ newline ∷ [])
unfolding default_irc kline_table scan_create
scan_irckline-default user msg type h =
    let e = expand-default user msg type in
    let n = ban_text-length user in
    let bounded : length (expand (kline_table (scan_create user msg) type) default_kline) ≤ 510 =
      rw e (omega (arith, n, h)) in
    scan_irckline-expand (scan_create user msg) type b'K' default_rest present refl
      (is_safe-IsSafe default_rest refl) (omega arith) bounded
    ∙ ap line (ap irc_send e ∙ irc_send-short (ban_text user) (omega (arith, n, h)))
  where
    present : All IsPresent (kline_table (scan_create user msg) type)
    present = (tt, (tt, (tt, (tt, (tt, tt)))))

    default_rest : Bytes
    default_rest =
        codes
          "LINE %u@%h :Open Proxy found on your host. Please visit www.blitzed.org/proxy?ip=%i for more information."
