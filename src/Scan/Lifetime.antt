-- ===== src/Scan/Lifetime.antt =====
-- A scan is freed once, when its last task ends; it bans at most once; and its address is cached
-- only if it did not ban.
use bopm.Prelude.{
  ℕ, ◌+◌, ◌-◌, ◌≤◌, ◌<◌, ◌≡◌, refl, Bool, true, false, not, ◌&&◌, ◌||◌, Option, none, some, List,
  [], ◌∷◌, arith, ◌==◌, inl, inr, Bool-cases, All, ap, sym, ◌∙◌,
}
use mathlib.Core.Bool.{false≢true}
use mathlib.Core.List.{append-nil}
use bopm.Event.{Event, klines, caches, frees, total-append}
use bopm.Scan.Setup.{ScanStruct, Setup}
use bopm.Scan.Life.{Callback, ends_task, callback, Result, add_events, and_then, run}
use bopm.Scan.Steps.{cache_count, is_open, Ready, Ended, Stepped, callback-Stepped}
use bopm.Scan.Acts.{bit, is_some}

-- The callbacks come while tasks are left, and end all `n` of them.
abbrev pub Pending : ℕ → List Callback → Type 0
Pending n [] = n ≡ 0
Pending n (c ∷ cs) = (0 < n) × Pending (n - ends_task c) cs

abbrev pub any_open : List Callback → Bool
any_open [] = false
any_open (c ∷ cs) = is_open c || any_open cs

abbrev Lived : Setup → ScanStruct → Bool → Result → Type 0
Lived setup ss found none = ⊥
Lived setup ss found (some (some left, events)) = ⊥
Lived setup ss found (some (none, events)) = Ended setup ss found events

true_of_bit : (n : ℕ) (p q : Bool) → n + bit q ≡ bit p → q ≡ true → p ≡ true
true_of_bit n true q e h = refl
true_of_bit n false true e h = absurd (omega arith)
true_of_bit n false false e h = h

Lived-append :
    (setup : Setup) (found later : Bool) (ss ss' : ScanStruct) (n : ℕ) (events : List Event)
    (r : Result)
    → Stepped setup ss n found (some (some ss', events))
    → Lived setup ss' later r
    → Lived setup ss (found || later) (add_events events r)
unfolding add_events
Lived-append setup found later ss ss' n events none s l = l
Lived-append setup found later ss ss' n events (some (some left, more)) s l = l
Lived-append setup found later ss ss' n events (some (none, more)) s l =
    let (_, _, manual, bans, uncached, unfreed, unbanned, opened) = s in
    let (p, fr, kl, ca, still, op) = l in
    let same : is_some ss'.manual_target ≡ is_some ss.manual_target = ap is_some manual in
    (
      p,
      omega (arith, fr, unfreed, total-append _ events more),
      omega (arith, kl, bans, total-append _ events more),
      omega (arith, ca, uncached, total-append _ events more, ap (λ m. cache_count setup m p) same),
      λ m. still (same ∙ m) ∙ unbanned m,
      λ e m. elim (Bool-cases found) [
        | inl yes_found ↦ true_of_bit _ p ss'.positive kl (opened yes_found m)
        | inr not_found ↦ op (rw not_found at e) (same ∙ m)
      ],
    )

Lived-then :
    (setup : Setup) (found later : Bool) (ss : ScanStruct) (n : ℕ) (r : Result)
    (next : Option ScanStruct → Result)
    → Stepped setup ss n found r
    → ((ss' : ScanStruct)
        → ss'.scans + n ≡ ss.scans
        → 0 < ss'.scans
        → Lived setup ss' later (next (some ss')))
    → (ss.scans ≡ n → (next none ≡ some (none, [])) × (later ≡ false))
    → Lived setup ss (found || later) (and_then r next)
unfolding and_then add_events
Lived-then setup found later ss n none next s f g = s
Lived-then setup found later ss n (some (some ss', events)) next s f g =
    Lived-append setup found later ss ss' n events (next (some ss')) s (f ss' s.0 s.1)
Lived-then setup found later ss n (some (none, events)) next s f g =
    let (e, none_later) = g s.0 in
    let (p, fr, kl, ca, still, op) = s.1 in
    rw (e, add_events, append-nil) (p, fr, kl, ca, still, λ h m. op (ground arith) m)

ended :
    (setup : Setup) (n : ℕ) (cs : List Callback)
    → n ≡ 0
    → Pending n cs
    → (run setup cs none ≡ some (none, [])) × (any_open cs ≡ false)
unfolding run
ended setup n [] e p = (refl, refl)
ended setup n (c ∷ cs) e p = absurd (omega (arith, p.0))

run-Lived :
    (setup : Setup) (cs : List Callback) (ss : ScanStruct)
    → 0 < ss.scans
    → ss.scans < 65536
    → Pending ss.scans cs
    → All Ready cs
    → Lived setup ss (any_open cs) (run setup cs (some ss))
unfolding run
run-Lived setup [] ss pos small p r = absurd (omega arith)
run-Lived setup (c ∷ cs) ss pos small p r =
    Lived-then setup (is_open c) (any_open cs) ss (ends_task c) (callback setup c ss) (run setup cs)
      (callback-Stepped setup c ss pos small r.0)
      (λ ss' e pos'.
        let left : ss.scans - ends_task c ≡ ss'.scans = omega arith in
        run-Lived setup cs ss' pos' (omega arith) (rw left at p.1) r.1)
      (λ e. ended setup (ss.scans - ends_task c) cs (omega arith) p.1)

abbrev pub Summary : Setup → Bool → Bool → List Event → Type 0
Summary setup manual found events =
    (frees events ≡ 1)
    × (klines events ≤ bit (not manual))
    × (bit (found && not manual) ≤ klines events)
    × (caches events ≡ cache_count setup manual (klines events == 1))

bounds_banned :
    (n : ℕ) (manual found : Bool)
    → n ≡ 1
    → (manual ≡ true → ⊥)
    → (n ≤ bit (not manual)) × (bit (found && not manual) ≤ n)
bounds_banned n true found e h = absurd (h refl)
bounds_banned n false true e h = omega arith
bounds_banned n false false e h = omega arith

bounds_quiet :
    (n : ℕ) (manual found : Bool)
    → n ≡ 0
    → (found ≡ true → manual ≡ false → ⊥)
    → (n ≤ bit (not manual)) × (bit (found && not manual) ≤ n)
bounds_quiet n true true e h = omega arith
bounds_quiet n true false e h = omega arith
bounds_quiet n false true e h = absurd (h refl refl)
bounds_quiet n false false e h = omega arith

summarise :
    (setup : Setup) (ss : ScanStruct) (found : Bool) (r : Result)
    → ss.positive ≡ false
    → Lived setup ss found r
    → (events : List Event) × (r ≡ some (none, events))
      × Summary setup (is_some ss.manual_target) found events
summarise setup ss found none new l = absurd l
summarise setup ss found (some (some left, events)) new l = absurd l
summarise setup ss found (some (none, events)) new (true, fr, kl, ca, still, op) =
    let once : klines events ≡ 1 = ground arith in
    let bounds =
      bounds_banned (klines events) (is_some ss.manual_target) found once
        (λ m. false≢true (sym new ∙ sym (still m))) in
    (events, refl, (fr, bounds.0, bounds.1, rw once ca))
summarise setup ss found (some (none, events)) new (false, fr, kl, ca, still, op) =
    let never : klines events ≡ 0 = ground arith in
    let bounds =
      bounds_quiet (klines events) (is_some ss.manual_target) found never
        (λ f m. false≢true (op f m)) in
    (events, refl, (fr, bounds.0, bounds.1, rw never ca))

-- A scan with tasks left, fewer than 65536, that is not positive yet, and callbacks in any order
-- that come while tasks are left and end them all, each text of a listing fitting into its buffer:
-- no callback touches a freed scan, and when the last task has ended the scan is freed, once. A
-- manual scan never bans; any other bans at most once, and does ban if an open proxy was reported.
-- Its address enters the negative cache once if the scan is not manual, did not ban, and the cache
-- is on, and else not at all.
pub run_lem :
    (setup : Setup) (cs : List Callback) (ss : ScanStruct)
    → ss.positive ≡ false
    → 0 < ss.scans
    → ss.scans < 65536
    → Pending ss.scans cs
    → All Ready cs
    → (events : List Event) × (run setup cs (some ss) ≡ some (none, events))
      × (frees events ≡ 1)
      × (klines events ≤ bit (not (is_some ss.manual_target)))
      × (bit (any_open cs && not (is_some ss.manual_target)) ≤ klines events)
      × (caches events ≡ cache_count setup (is_some ss.manual_target) (klines events == 1))
run_lem setup cs ss new pos small p r =
    let (events, e, s) =
      summarise setup ss (any_open cs) (run setup cs (some ss)) new
        (run-Lived setup cs ss pos small p r) in
    (events, e, s.0, s.1, s.2, s.3)
