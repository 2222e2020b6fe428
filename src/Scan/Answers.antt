-- ===== src/Scan/Answers.antt =====
-- What an answer of a blacklist does before the task ends.
use bopm.Prelude.{
  ℕ, ◌≡◌, refl, not, ◌&&◌, Option, none, some, List, [], ◌==◌, inl, inr, if◌then◌else◌, Bool-cases,
  Bytes,
}
use bopm.Config.{BlacklistConf, ChannelConf}
use bopm.Event.{Event}
use bopm.Scan.Setup.{ScanStruct, Setup}
use bopm.Scan.Finish.{scan_positive}
use bopm.Scan.Acts.{Act, ActOf, Quiet, Quiet-Act, Act-append, scan_positive-Act}
use bopm.Dnsbl.Types.{text_type}
use bopm.Dnsbl.Answer.{
  FirednsResult, FdnsError, no_error, nxdomain, timeout, other_error, is_empty, announce,
  positive_text, dnsbl_positive, not_listed, lookup_error, judge,
}

-- A value is there, and is an act on the scan.
abbrev pub Acts : ScanStruct → Option (ScanStruct × List Event) → Type 0
Acts ss none = ⊥
Acts ss (some (ss', events)) = Act ss ss' events

announce-Act :
    (setup : Setup) (i : ℕ) (bl : BlacklistConf) (text : Bytes) (target : Option ChannelConf)
    (ss : ScanStruct)
    → ss.manual_target ≡ target
    → ActOf ss (announce setup i bl text target ss)
unfolding announce
announce-Act setup i bl text (some target) ss e = Quiet-Act ss _ (refl, refl, refl)
announce-Act setup i bl text none ss e = elim (Bool-cases ss.positive) [
  | inl old ↦ simp old (Quiet-Act ss _ (refl, refl, refl))
  | inr new ↦
      let kline = if is_empty bl.kline then setup.irc.kline else bl.kline in
      simp new (
        Act-append [] (scan_positive setup ss kline text).1 _ (refl, refl, refl)
          (scan_positive-Act setup ss kline text e) (refl, refl, refl))
]

positive_text-Acts :
    (setup : Setup) (i : ℕ) (bl : BlacklistConf) (text : Bytes) (ss : ScanStruct)
    → Acts ss (positive_text setup i bl (some text) ss)
unfolding positive_text
positive_text-Acts setup i bl text ss = elim (Bool-cases (is_empty text && not bl.ban_unknown)) [
  | inl skipped ↦ simp skipped (Quiet-Act ss [] (refl, refl, refl))
  | inr told ↦ simp told (announce-Act setup i bl text ss.manual_target ss refl)
]

not_listed-Quiet :
    (target : Option ChannelConf) (ip lookup : Bytes) → Quiet (not_listed target ip lookup)
unfolding not_listed
not_listed-Quiet none ip lookup = (refl, refl, refl)
not_listed-Quiet (some target) ip lookup = (refl, refl, refl)

lookup_error-Quiet :
    (setup : Setup) (res : FirednsResult) (err : FdnsError) → Quiet (lookup_error setup res err)
unfolding lookup_error
lookup_error-Quiet setup res timeout = (refl, refl, refl)
lookup_error-Quiet setup res _ = (refl, refl, refl)

-- The text of the listing fits into its buffer.
abbrev pub Fits : BlacklistConf → FirednsResult → Type 0
Fits bl res = (text : Bytes) × (text_type bl.type bl.reply res.last ≡ some text)

pub judge-Acts :
    (setup : Setup) (i : ℕ) (bl : BlacklistConf) (res : FirednsResult) (err : FdnsError)
    (ss : ScanStruct)
    → Fits bl res
    → Acts ss (judge setup i bl res err ss)
unfolding judge dnsbl_positive
judge-Acts setup i bl res no_error ss (text, e) = rw e (positive_text-Acts setup i bl text ss)
judge-Acts setup i bl res nxdomain ss fits = elim (Bool-cases (res.first == 0)) [
  | inl zero ↦ simp zero (Quiet-Act ss _ (not_listed-Quiet ss.manual_target ss.ip res.lookup))
  | inr other ↦ simp other (Quiet-Act ss _ (lookup_error-Quiet setup res nxdomain))
]
judge-Acts setup i bl res timeout ss fits = Quiet-Act ss _ (lookup_error-Quiet setup res timeout)
judge-Acts setup i bl res other_error ss fits =
    Quiet-Act ss _ (lookup_error-Quiet setup res other_error)
