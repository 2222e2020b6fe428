-- ===== src/Scan/Steps.antt =====
-- One callback about a scan: what it leaves of the scan, and what it adds to the events.
use bopm.Prelude.{
  ℕ, ◌+◌, ◌%◌, ◌<◌, ◌≡◌, refl, Bool, true, false, not, ◌||◌, Option, none, some, List, [], ◌∷◌,
  ◌++◌, arith, ltb, ◌==◌, inl, inr, if◌then◌else◌, Bool-cases, Bytes, ap, sym, ◌∙◌,
}
use mathlib.Core.Bool.{false≢true}
use mathlib.Core.List.{append-nil}
use bopm.Config.{ChannelConf}
use bopm.Event.{Event, freed, klines, caches, frees, total-append}
use bopm.Scan.Setup.{ScanStruct, Setup, Remote, decrease}
use bopm.Scan.Finish.{finish_events, scan_checkfinished}
use bopm.Scan.Callbacks.{scan_open_proxy, open_proxy_act, scan_end}
use bopm.Scan.Life.{
  Callback, open_proxy, negotiation_failed, timed_out, failed, scan_ended, answered, ends_task,
  callback,
}
use bopm.Scan.Acts.{
  bit, is_some, Act, Quiet-Act, scan_open_proxy-Act, scan_negotiation_failed-Act, scan_timeout-Act,
  scan_handle_error-Act,
}
use bopm.Scan.Answers.{Acts, Fits, judge-Acts}
use bopm.Dnsbl.Answer.{finish_one, finish_judged, dnsbl_result, judge}

-- How often the address is cached at the end of a scan.
abbrev pub cache_count : Setup → Bool → Bool → ℕ
cache_count setup manual positive =
    if manual || (positive || not (ltb 0 setup.options.negcache)) then 0 else 1

-- A callback reports an found proxy.
abbrev pub is_open : Callback → Bool
is_open (open_proxy piped stamp scanner remote) = true
is_open (scan_ended) = false
is_open _ = false

-- The text of a listing fits into its buffer.
abbrev pub Ready : Callback → Type 0
Ready (answered i bl res) = Fits bl res
Ready scan_ended = Unit
Ready _ = Unit

-- What the end of a scan leaves: whether it was found positive, `p`, tells what happened.
abbrev pub Ended : Setup → ScanStruct → Bool → List Event → Type 0
Ended setup ss found events =
    (p : Bool) × (frees events ≡ 1)
    × (klines events + bit ss.positive ≡ bit p)
    × (caches events ≡ cache_count setup (is_some ss.manual_target) p)
    × (is_some ss.manual_target ≡ true → p ≡ ss.positive)
    × (found ≡ true → is_some ss.manual_target ≡ false → p ≡ true)

-- One callback, which ends `n` tasks, about a scan.
abbrev pub Stepped :
    Setup → ScanStruct → ℕ → Bool → Option (Option ScanStruct × List Event) → Type 0
Stepped setup ss n found none = ⊥
Stepped setup ss n found (some (some ss', events)) =
    (ss'.scans + n ≡ ss.scans)
    × (0 < ss'.scans)
    × (ss'.manual_target ≡ ss.manual_target)
    × (klines events + bit ss.positive ≡ bit ss'.positive)
    × (caches events ≡ 0)
    × (frees events ≡ 0)
    × (is_some ss.manual_target ≡ true → ss'.positive ≡ ss.positive)
    × (found ≡ true → is_some ss.manual_target ≡ false → ss'.positive ≡ true)
Stepped setup ss n found (some (none, events)) = (ss.scans ≡ n) × Ended setup ss found events

Stepped-Act :
    (setup : Setup) (found : Bool) (ss ss' : ScanStruct) (events : List Event)
    → 0 < ss.scans
    → Act ss ss' events
    → (found ≡ true → is_some ss.manual_target ≡ false → ss'.positive ≡ true)
    → Stepped setup ss 0 found (some (some ss', events))
Stepped-Act setup found ss ss' events pos a o = (
  omega (arith, a.scans),
  omega (arith, a.scans),
  a.manual,
  a.bans,
  a.uncached,
  a.unfreed,
  a.unbanned,
  o,
)

finish_events-counts :
    (setup : Setup) (target : Option ChannelConf) (ss : ScanStruct)
    → (klines (finish_events setup target ss) ≡ 0)
      × (frees (finish_events setup target ss) ≡ 0)
      × (caches (finish_events setup target ss) ≡ cache_count setup (is_some target) ss.positive)
unfolding finish_events
finish_events-counts setup (some target) ss = (refl, refl, refl)
finish_events-counts setup none ss = ground arith

finish_one-Stepped :
    (setup : Setup) (ss ss' : ScanStruct) (events : List Event)
    → 0 < ss.scans
    → ss.scans < 65536
    → Act ss ss' events
    → Stepped setup ss 1 false (some (finish_one setup (ss', events)))
unfolding finish_one scan_checkfinished
finish_one-Stepped setup ss ss' events pos small a =
    let fell : (ss'.scans + 65535) % 65536 + 1 ≡ ss.scans = omega (arith, a.scans) in
    elim (Bool-cases ((decrease ss').scans == 0)) [
      | inr more ↦ simp more (
        fell,
        ground arith,
        a.manual,
        rw append-nil a.bans,
        rw append-nil a.uncached,
        rw append-nil a.unfreed,
        a.unbanned,
        λ e. absurd (false≢true e),
      )
      | inl last ↦
          let final = finish_events setup ss'.manual_target (decrease ss') in
          let counts = finish_events-counts setup ss'.manual_target (decrease ss') in
          let cached_now : caches final
              ≡ cache_count setup (is_some ss.manual_target) ss'.positive =
            counts.2 ∙ ap (λ t. cache_count setup (is_some t) ss'.positive) a.manual in
          simp last (
            ground arith,
            (
              ss'.positive,
              omega (
                arith,
                a.unfreed,
                counts.1,
                total-append _ events (final ++ freed ∷ []),
                total-append _ final (freed ∷ []),
              ),
              omega (
                arith,
                a.bans,
                counts.0,
                total-append _ events (final ++ freed ∷ []),
                total-append _ final (freed ∷ []),
              ),
              omega (
                arith,
                a.uncached,
                cached_now,
                total-append _ events (final ++ freed ∷ []),
                total-append _ final (freed ∷ []),
              ),
              a.unbanned,
              λ e. absurd (false≢true e),
            ),
          )
    ]

finish_judged-Stepped :
    (setup : Setup) (ss : ScanStruct) (judged : Option (ScanStruct × List Event))
    → 0 < ss.scans
    → ss.scans < 65536
    → Acts ss judged
    → Stepped setup ss 1 false (finish_judged setup judged)
unfolding finish_judged
finish_judged-Stepped setup ss none pos small a = a
finish_judged-Stepped setup ss (some (ss', events)) pos small a =
    finish_one-Stepped setup ss ss' events pos small a

open_proxy-positive :
    (piped : Bool) (setup : Setup) (stamp scanner : Bytes) (remote : Remote) (ss : ScanStruct)
    → is_some ss.manual_target ≡ false
    → (scan_open_proxy piped setup stamp scanner remote ss).0.positive ≡ true
unfolding scan_open_proxy
open_proxy-positive piped setup stamp scanner remote ss m = act_positive ss.manual_target m
  where
    act_positive :
        (target : Option ChannelConf)
        → is_some target ≡ false
        → (open_proxy_act piped setup scanner remote target ss).0.positive ≡ true
    act_positive none e = ground arith
    act_positive (some target) e = absurd (false≢true (sym e))

pub callback-Stepped :
    (setup : Setup) (c : Callback) (ss : ScanStruct)
    → 0 < ss.scans
    → ss.scans < 65536
    → Ready c
    → Stepped setup ss (ends_task c) (is_open c) (callback setup c ss)
unfolding callback
callback-Stepped setup (open_proxy piped stamp scanner remote) ss pos small r =
    Stepped-Act setup true ss _ _ pos (scan_open_proxy-Act piped setup stamp scanner remote ss)
      (λ _. open_proxy-positive piped setup stamp scanner remote ss)
callback-Stepped setup (negotiation_failed stamp remote) ss pos small r =
    Stepped-Act setup false ss _ _ pos (scan_negotiation_failed-Act setup stamp remote ss)
      (λ e. absurd (false≢true e))
callback-Stepped setup (timed_out stamp remote) ss pos small r =
    Stepped-Act setup false ss _ _ pos (scan_timeout-Act setup stamp remote ss)
      (λ e. absurd (false≢true e))
callback-Stepped setup (failed err scanner bytes_read remote) ss pos small r =
    Stepped-Act setup false ss _ _ pos (scan_handle_error-Act err scanner bytes_read remote ss)
      (λ e. absurd (false≢true e))
callback-Stepped setup scan_ended ss pos small r =
    unfold scan_end in
    finish_one-Stepped setup ss ss [] pos small (Quiet-Act ss [] (refl, refl, refl))
callback-Stepped setup (answered i bl res) ss pos small r =
    unfold dnsbl_result in
    finish_judged-Stepped setup ss (judge setup i bl res res.fdns_errno ss) pos small
      (judge-Acts setup i bl res res.fdns_errno ss r)
