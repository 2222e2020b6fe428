-- ===== src/Irc/Notice.antt =====
-- `m_notice`: the user whom a notice of a connection names.
use bopm.Prelude.{
  ℕ, suc, ◌+◌, ◌≡◌, refl, sym, ap, ◌∙◌, Option, none, some, List, [], ◌∷◌, ◌++◌, Bytes, codes,
  length, drop, space, Lacks,
}
use bopm.Config.{IrcConf}
use bopm.Irc.Parse.{IsToken}
use bopm.Irc.Slices.{RegMatches, store_nul, c_string, and_offset, slices}
use bopm.Irc.Handlers.{connect, connect_sliced, connect_user, on_line}
use bopm.Irc.Offsets.{nul_first, store_nul-field, c_string-field, regroup, length-group}
use bopm.Irc.Lines.{message_line, on_line-connect_user}
use bopm.Scan.Connect.{User}

-- What stands before, between and behind the four fields; a byte and more stands between two.
pub record Around : Type 0 where
  pub before : Bytes
  pub byte₁ : ℕ
  pub more₁ : Bytes
  pub byte₂ : ℕ
  pub more₂ : Bytes
  pub byte₃ : ℕ
  pub more₃ : Bytes
  pub after : Bytes

abbrev pub fields : (user : User) (a : Around) (x₁ x₂ x₃ : ℕ) (tail : Bytes) → Bytes
fields user a x₁ x₂ x₃ tail =
    a.before
    ++ (user.nick
        ++ x₁
          ∷ (a.more₁
              ++ (user.username
                  ++ x₂ ∷ (a.more₂ ++ (user.hostname ++ x₃ ∷ (a.more₃ ++ (user.ip ++ tail)))))))

-- The text of a notice of a connection.
abbrev pub notice_text : User → Around → Bytes
notice_text user a = fields user a a.byte₁ a.byte₂ a.byte₃ a.after

-- The four parts of the expression match the four fields.
pub record Finds (pmatch : RegMatches) (user : User) (a : Around) : Type 0 where
  pub nick : pmatch 1 ≡ some (length a.before, length a.before + length user.nick)
  pub username_from : ℕ
  pub username_at : username_from ≡ length a.before + length user.nick + suc (length a.more₁)
  pub username : pmatch 2 ≡ some (username_from, username_from + length user.username)
  pub hostname_from : ℕ
  pub hostname_at : hostname_from ≡ username_from + length user.username + suc (length a.more₂)
  pub hostname : pmatch 3 ≡ some (hostname_from, hostname_from + length user.hostname)
  pub ip_from : ℕ
  pub ip_at : ip_from ≡ hostname_from + length user.hostname + suc (length a.more₃)
  pub ip : pmatch 4 ≡ some (ip_from, ip_from + length user.ip)

slices_step :
    (count : ℕ) (pmatch : RegMatches) (i : ℕ) (text next out : Bytes) {so eo : ℕ} {offsets : List ℕ}
    → pmatch (i + 1) ≡ some (so, eo)
    → store_nul eo text ≡ next
    → slices count pmatch (i + 1) next ≡ some (offsets, out)
    → slices (suc count) pmatch i text ≡ some (so ∷ offsets, out)
unfolding slices
slices_step count pmatch i text next out {so} e f g =
    ap
      (λ part. elim part [
        | none ↦ none
        | some (so, eo) ↦ and_offset so (slices count pmatch (i + 1) (store_nul eo text))
      ])
      e
    ∙ ap (and_offset so) (ap (slices count pmatch (i + 1)) f ∙ g)

-- No field has a NUL.
abbrev pub HasNoNul : User → Type 0
HasNoNul user = Lacks 0 user.nick × Lacks 0 user.username × Lacks 0 user.hostname × Lacks 0 user.ip

module _ (user : User) (a : Around) (pmatch : RegMatches) (m : Finds pmatch user a) where
  abbrev P₂ : ℕ → Bytes
  P₂ x₁ = a.before ++ (user.nick ++ x₁ ∷ a.more₁)

  abbrev P₃ : ℕ → ℕ → Bytes
  P₃ x₁ x₂ = P₂ x₁ ++ (user.username ++ x₂ ∷ a.more₂)

  abbrev P₄ : ℕ → ℕ → ℕ → Bytes
  P₄ x₁ x₂ x₃ = P₃ x₁ x₂ ++ (user.hostname ++ x₃ ∷ a.more₃)

  length-P₂ : (x₁ : ℕ) → m.username_from ≡ length (P₂ x₁)
  length-P₂ x₁ = m.username_at ∙ sym (length-group a.before user.nick x₁ a.more₁)

  length-P₃ : (x₁ x₂ : ℕ) → m.hostname_from ≡ length (P₃ x₁ x₂)
  length-P₃ x₁ x₂ =
      m.hostname_at
      ∙ (ap (λ n. n + length user.username + suc (length a.more₂)) (length-P₂ x₁)
          ∙ sym (length-group (P₂ x₁) user.username x₂ a.more₂))

  length-P₄ : (x₁ x₂ x₃ : ℕ) → m.ip_from ≡ length (P₄ x₁ x₂ x₃)
  length-P₄ x₁ x₂ x₃ =
      m.ip_at
      ∙ (ap (λ n. n + length user.hostname + suc (length a.more₃)) (length-P₃ x₁ x₂)
          ∙ sym (length-group (P₃ x₁ x₂) user.hostname x₃ a.more₃))

  group₂ :
      (x₁ x₂ x₃ : ℕ) (tail : Bytes)
      → fields user a x₁ x₂ x₃ tail
        ≡ P₂ x₁
          ++ (user.username
              ++ x₂ ∷ (a.more₂ ++ (user.hostname ++ x₃ ∷ (a.more₃ ++ (user.ip ++ tail)))))
  group₂ x₁ x₂ x₃ tail = regroup a.before user.nick x₁ a.more₁ _

  group₃ :
      (x₁ x₂ x₃ : ℕ) (tail : Bytes)
      → fields user a x₁ x₂ x₃ tail
        ≡ P₃ x₁ x₂ ++ (user.hostname ++ x₃ ∷ (a.more₃ ++ (user.ip ++ tail)))
  group₃ x₁ x₂ x₃ tail = group₂ x₁ x₂ x₃ tail ∙ regroup (P₂ x₁) user.username x₂ a.more₂ _

  group₄ :
      (x₁ x₂ x₃ : ℕ) (tail : Bytes) → fields user a x₁ x₂ x₃ tail ≡ P₄ x₁ x₂ x₃ ++ (user.ip ++ tail)
  group₄ x₁ x₂ x₃ tail = group₃ x₁ x₂ x₃ tail ∙ regroup (P₃ x₁ x₂) user.hostname x₃ a.more₃ _

  store₁ :
      store_nul (length a.before + length user.nick) (notice_text user a)
      ≡ fields user a 0 a.byte₂ a.byte₃ a.after
  store₁ = store_nul-field (length a.before + length user.nick) a.before user.nick _ refl

  store₂ :
      (x₁ : ℕ)
      → store_nul
          (m.username_from + length user.username)
          (fields user a x₁ a.byte₂ a.byte₃ a.after)
        ≡ fields user a x₁ 0 a.byte₃ a.after
  store₂ x₁ =
      let n = m.username_from + length user.username in
      ap (store_nul n) (group₂ x₁ a.byte₂ a.byte₃ a.after)
      ∙ (store_nul-field n (P₂ x₁) user.username _
            (ap (λ l. l + length user.username) (length-P₂ x₁))
          ∙ sym (group₂ x₁ 0 a.byte₃ a.after))

  store₃ :
      (x₁ x₂ : ℕ)
      → store_nul (m.hostname_from + length user.hostname) (fields user a x₁ x₂ a.byte₃ a.after)
        ≡ fields user a x₁ x₂ 0 a.after
  store₃ x₁ x₂ =
      let n = m.hostname_from + length user.hostname in
      ap (store_nul n) (group₃ x₁ x₂ a.byte₃ a.after)
      ∙ (store_nul-field n (P₃ x₁ x₂) user.hostname _
            (ap (λ l. l + length user.hostname) (length-P₃ x₁ x₂))
          ∙ sym (group₃ x₁ x₂ 0 a.after))

  store₄ :
      (x₁ x₂ x₃ : ℕ)
      → store_nul (m.ip_from + length user.ip) (fields user a x₁ x₂ x₃ a.after)
        ≡ fields user a x₁ x₂ x₃ (nul_first a.after)
  store₄ x₁ x₂ x₃ =
      let n = m.ip_from + length user.ip in
      ap (store_nul n) (group₄ x₁ x₂ x₃ a.after)
      ∙ (store_nul-field n (P₄ x₁ x₂ x₃) user.ip a.after
            (ap (λ l. l + length user.ip) (length-P₄ x₁ x₂ x₃))
          ∙ sym (group₄ x₁ x₂ x₃ (nul_first a.after)))

  -- The text with the four NULs.
  abbrev cut_text : Bytes
  cut_text = fields user a 0 0 0 (nul_first a.after)

  slices-cut_text :
      slices 4 pmatch 0 (notice_text user a)
      ≡ some (length a.before ∷ m.username_from ∷ m.hostname_from ∷ m.ip_from ∷ [], cut_text)
  unfolding slices
  slices-cut_text = slices_step 3 pmatch 0 _ _ _ m.nick store₁ (
      slices_step 2 pmatch 1 _ _ _ m.username (store₂ 0) (
        slices_step 1 pmatch 2 _ _ _ m.hostname (store₃ 0 0)
          (slices_step 0 pmatch 3 _ _ _ m.ip (store₄ 0 0 0) refl)))

  module _ (h : HasNoNul user) where
    nick_read : c_string (drop (length a.before) cut_text) ≡ user.nick
    nick_read = c_string-field (length a.before) a.before user.nick (0 ∷ _) refl h.0

    username_read : c_string (drop m.username_from cut_text) ≡ user.username
    username_read =
        ap (λ t. c_string (drop m.username_from t)) (group₂ 0 0 0 (nul_first a.after))
        ∙ c_string-field m.username_from (P₂ 0) user.username (0 ∷ _) (length-P₂ 0) h.1

    hostname_read : c_string (drop m.hostname_from cut_text) ≡ user.hostname
    hostname_read =
        ap (λ t. c_string (drop m.hostname_from t)) (group₃ 0 0 0 (nul_first a.after))
        ∙ c_string-field m.hostname_from (P₃ 0 0) user.hostname (0 ∷ _) (length-P₃ 0 0) h.2

    ip_read : c_string (drop m.ip_from cut_text) ≡ user.ip
    ip_read =
        ap (λ t. c_string (drop m.ip_from t)) (group₄ 0 0 0 (nul_first a.after))
        ∙ c_string-field m.ip_from (P₄ 0 0 0) user.ip a.after (length-P₄ 0 0 0) h.3

    connect_user-connect :
        (msg : Bytes) → connect_user msg (notice_text user a) (some pmatch) ≡ connect user msg ∷ []
    unfolding connect_user connect_sliced
    connect_user-connect msg =
        rw (m.ip, slices-cut_text, nick_read, username_read, hostname_read, ip_read)

-- A notice of a server, whose name has no `!` and no space, in which the regular expression finds
-- the nick, the user name, the host name and the address of a user, in this order with at least a
-- byte between two of them, starts the scan of just that user, with the whole line as its message.
-- No field has a NUL.
pub on_line-notice :
    (irc : IrcConf) (version : Bytes) (regexec : Bytes → Option RegMatches) (server target : Bytes)
    (user : User) (a : Around) (pmatch : RegMatches)
    → Lacks space server
    → Lacks b'!' server
    → IsToken target
    → regexec (notice_text user a) ≡ some pmatch
    → Finds pmatch user a
    → HasNoNul user
    → on_line irc version regexec (message_line server (codes "NOTICE") target (notice_text user a))
      ≡ connect user (message_line server (codes "NOTICE") target (notice_text user a)) ∷ []
on_line-notice irc version regexec server target user a pmatch s p t e m h =
    let text = notice_text user a in
    let msg = message_line server (codes "NOTICE") target text in
    on_line-connect_user irc version regexec server target text s p t
    ∙ (ap (connect_user msg text) e ∙ connect_user-connect user a pmatch m h msg)
