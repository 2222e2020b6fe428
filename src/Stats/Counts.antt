-- ===== src/Stats/Counts.antt =====
-- The counters are the numbers of the events.
use bopm.Prelude.{
  ℕ, zero, suc, ◌+◌, ◌%◌, ◌^◌, ◌<◌, ◌≡◌, refl, sym, ap, ap₂, ◌∙◌, Bool, true, false, List, [], ◌∷◌,
  arith, ◌==◌, if◌then◌else◌, All, Bytes, codes,
}
use bopm.Config.{BlacklistConf, ProtocolType, http, httppost, socks4, socks5, wingate, router}
use bopm.Event.{Event, proxy_counted, listed_counted, report_counted, total}
use bopm.Stats.{
  StatsHash, State, next, protocol_code, stats_proxies, stats_init, count_proxy, count_listed,
  count_event, count_events,
}

abbrev pub is_proxy : ProtocolType → Event → ℕ
is_proxy type (proxy_counted found) = if protocol_code type == protocol_code found then 1 else 0
is_proxy type report_counted = 0
is_proxy type _ = 0

abbrev pub is_listed : ℕ → Event → ℕ
is_listed i (listed_counted j) = if i == j then 1 else 0
is_listed i report_counted = 0
is_listed i _ = 0

abbrev pub is_report : Event → ℕ
is_report report_counted = 1
is_report (listed_counted j) = 0
is_report _ = 0

abbrev u32 : ℕ
u32 = 2 ^ 32

-- Blacklists, the first of which has the place `i`, with their shares of the events added.
abbrev pub with_counts : List Event → ℕ → List BlacklistConf → List BlacklistConf
with_counts es i [] = []
with_counts es i (bl ∷ rest) =
    record bl { stats_recv = (bl.stats_recv + total (is_listed i) es) % 2 ^ 32 }
    ∷ with_counts es (i + 1) rest

stats_proxies-ext :
    (f g : ProtocolType → ℕ)
    → ((type : ProtocolType) → f type ≡ g type)
    → stats_proxies f ≡ stats_proxies g
stats_proxies-ext f g h = ap stats_proxies (λ i type. h type i)

-- One more proxy of a type.
abbrev one_more : ProtocolType → ProtocolType → ℕ
one_more type found = if protocol_code type == protocol_code found then 1 else 0

add_one : (n : ℕ) → next (n % u32) ≡ (n + 1) % u32
add_one n = omega arith

add_none : (n : ℕ) → n % u32 ≡ (n + 0) % u32
add_none n = omega arith

add_bit :
    (n : ℕ) (b : Bool) → (if b then next (n % u32) else n % u32) ≡ (n + (if b then 1 else 0)) % u32
add_bit n true = add_one n
add_bit n false = add_none n

-- The table of the counts, for any list of types and names.
abbrev table : (ProtocolType → ℕ) → List (ProtocolType × Bytes) → List StatsHash
table count [] = []
table count ((type, name) ∷ rest) =
    record { type = type; count = count type; name = name } ∷ table count rest

entry-more :
    (type : ProtocolType) (name : Bytes) (n : ℕ) (b : Bool)
    → ◌≡◌ {A = StatsHash}
        (if b
          then record { type = type; count = next (n % u32); name = name }
          else record { type = type; count = n % u32; name = name })
        (record { type = type; count = (n + (if b then 1 else 0)) % u32; name = name })
entry-more type name n true =
    ap (λ (k : ℕ). record { type = type; count = k; name = name }) (add_one n)
entry-more type name n false =
    ap (λ (k : ℕ). record { type = type; count = k; name = name }) (add_none n)

table-more :
    (n : ProtocolType → ℕ) (found : ProtocolType) (types : List (ProtocolType × Bytes))
    → count_proxy found (table (λ type. n type % u32) types)
      ≡ table (λ type. (n type + one_more type found) % u32) types
unfolding count_proxy
table-more n found [] = refl
table-more n found ((type, name) ∷ rest) =
    ap₂ ◌∷◌ (entry-more type name (n type) (protocol_code type == protocol_code found))
      (table-more n found rest)

count_proxy-more :
    (n : ProtocolType → ℕ) (found : ProtocolType)
    → count_proxy found (stats_proxies (λ type. n type % u32))
      ≡ stats_proxies (λ type. (n type + one_more type found) % u32)
unfolding stats_proxies
count_proxy-more n found = table-more n found (
    (http, codes "HTTP")
    ∷ (httppost, codes "HTTPPOST")
    ∷ (socks4, codes "SOCKS4")
    ∷ (socks5, codes "SOCKS5")
    ∷ (router, codes "ROUTER")
    ∷ (wingate, codes "WINGATE")
    ∷ [])

with_counts-ext :
    (es fs : List Event) (i : ℕ) (blacklists : List BlacklistConf)
    → ((j : ℕ) → total (is_listed j) es ≡ total (is_listed j) fs)
    → with_counts es i blacklists ≡ with_counts fs i blacklists
with_counts-ext es fs i [] h = refl
with_counts-ext es fs i (bl ∷ rest) h =
    ap₂ (λ n rest'. record bl { stats_recv = (bl.stats_recv + n) % u32 } ∷ rest') (h i)
      (with_counts-ext es fs (i + 1) rest h)

with_counts-none :
    (i : ℕ) (blacklists : List BlacklistConf)
    → All (λ bl. bl.stats_recv < u32) blacklists
    → with_counts [] i blacklists ≡ blacklists
with_counts-none i [] h = refl
with_counts-none i (bl ∷ rest) h =
    ap₂ (λ n rest'. record bl { stats_recv = n } ∷ rest') (omega (arith, h.0))
      (with_counts-none (i + 1) rest h.1)

with_counts-past :
    (es : List Event) (i j : ℕ) (blacklists : List BlacklistConf)
    → i < j
    → with_counts (listed_counted i ∷ es) j blacklists ≡ with_counts es j blacklists
with_counts-past es i j [] h = refl
with_counts-past es i j (bl ∷ rest) h =
    ap₂ (λ n rest'. record bl { stats_recv = (bl.stats_recv + n) % u32 } ∷ rest') (ground arith)
      (with_counts-past es i (j + 1) rest (omega arith))

with_counts-listed :
    (es : List Event) (i j : ℕ) (blacklists : List BlacklistConf)
    → with_counts es i (count_listed j blacklists)
      ≡ with_counts (listed_counted (i + j) ∷ es) i blacklists
unfolding count_listed
with_counts-listed es i j [] = refl
with_counts-listed es i zero (bl ∷ rest) =
    ap₂ (λ n rest'. record bl { stats_recv = n } ∷ rest') (ground arith)
      (sym (with_counts-past es (i + 0) (i + 1) rest (omega arith)))
with_counts-listed es i (suc j) (bl ∷ rest) =
    ap₂ (λ n rest'. record bl { stats_recv = (bl.stats_recv + n) % u32 } ∷ rest') (ground arith)
      (with_counts-listed es (i + 1) j rest
        ∙ ap (λ k. with_counts (listed_counted k ∷ es) (i + 1) rest) (omega arith))

-- The state after `r` reports and `n` proxies of each type.
abbrev pub state_of : (now r : ℕ) → (ProtocolType → ℕ) → List BlacklistConf → State
state_of now r n blacklists = record {
  uptime = now;
  connections = 0;
  dnsblsent = r % 2 ^ 32;
  proxies = stats_proxies (λ type. n type % 2 ^ 32);
  blacklists = blacklists;
}

abbrev listed : Event → List BlacklistConf → List BlacklistConf
listed (listed_counted i) blacklists = count_listed i blacklists
listed report_counted blacklists = blacklists
listed _ blacklists = blacklists

state_of-eq :
    (now : ℕ) (blacklists : List BlacklistConf) (r r' : ℕ) (n n' : ProtocolType → ℕ)
    → r % u32 ≡ r' % u32
    → ((type : ProtocolType) → n type % u32 ≡ n' type % u32)
    → state_of now r n blacklists ≡ state_of now r' n' blacklists
state_of-eq now blacklists r r' n n' e h =
    ap₂
      (λ (sent : ℕ) proxies. record {
        uptime = now;
        connections = 0;
        dnsblsent = sent;
        proxies = proxies;
        blacklists = blacklists;
      })
      e (stats_proxies-ext _ _ h)

count_event-state_of :
    (e : Event) (now r : ℕ) (n : ProtocolType → ℕ) (blacklists : List BlacklistConf)
    → count_event e (state_of now r n blacklists)
      ≡ state_of now (r + is_report e) (λ type. n type + is_proxy type e) (listed e blacklists)
unfolding count_event
count_event-state_of (proxy_counted found) now r n blacklists =
    ap (λ proxies. record (state_of now r n blacklists) { proxies = proxies })
      (count_proxy-more n found)
    ∙ state_of-eq now blacklists _ _ _ _ (omega arith) (λ type. refl)
count_event-state_of report_counted now r n blacklists =
    ap (λ (sent : ℕ). record (state_of now r n blacklists) { dnsblsent = sent }) (add_one r)
    ∙ state_of-eq now blacklists _ _ _ _ refl (λ type. omega arith)
count_event-state_of (listed_counted i) now r n blacklists =
    state_of-eq now (count_listed i blacklists) _ _ _ _ (omega arith) (λ type. omega arith)
count_event-state_of _ now r n blacklists =
    state_of-eq now blacklists _ _ _ _ (omega arith) (λ type. omega arith)

with_counts-event :
    (e : Event) (es : List Event) (blacklists : List BlacklistConf)
    → with_counts es 0 (listed e blacklists) ≡ with_counts (e ∷ es) 0 blacklists
with_counts-event (listed_counted i) es blacklists =
    with_counts-listed es 0 i blacklists
    ∙ ap (λ k. with_counts (listed_counted k ∷ es) 0 blacklists) (omega arith)
with_counts-event report_counted es blacklists =
    with_counts-ext es (report_counted ∷ es) 0 blacklists (λ j. omega arith)
with_counts-event e es blacklists = with_counts-ext es (e ∷ es) 0 blacklists (λ j. omega arith)

count_listed-small :
    (i : ℕ) (blacklists : List BlacklistConf)
    → All (λ bl. bl.stats_recv < u32) blacklists
    → All (λ bl. bl.stats_recv < u32) (count_listed i blacklists)
unfolding count_listed
count_listed-small i [] h = tt
count_listed-small zero (bl ∷ rest) h = (omega arith, h.1)
count_listed-small (suc i) (bl ∷ rest) h = (h.0, count_listed-small i rest h.1)

listed-small :
    (e : Event) (blacklists : List BlacklistConf)
    → All (λ bl. bl.stats_recv < u32) blacklists
    → All (λ bl. bl.stats_recv < u32) (listed e blacklists)
listed-small (listed_counted i) blacklists h = count_listed-small i blacklists h
listed-small report_counted blacklists h = h
listed-small _ blacklists h = h

count_events-state_of :
    (es : List Event) (now r : ℕ) (n : ProtocolType → ℕ) (blacklists : List BlacklistConf)
    → All (λ bl. bl.stats_recv < u32) blacklists
    → count_events es (state_of now r n blacklists)
      ≡ state_of now
          (r + total is_report es)
          (λ type. n type + total (is_proxy type) es)
          (with_counts es 0 blacklists)
unfolding count_events
count_events-state_of [] now r n blacklists small =
    state_of-eq now blacklists _ _ _ _ (omega arith) (λ type. omega arith)
    ∙ ap (state_of now (r + 0) (λ type. n type + 0)) (sym (with_counts-none 0 blacklists small))
count_events-state_of (e ∷ es) now r n blacklists small =
    ap (count_events es) (count_event-state_of e now r n blacklists)
    ∙ (count_events-state_of es now (r + is_report e) (λ type. n type + is_proxy type e)
          (listed e blacklists) (listed-small e blacklists small)
        ∙ (state_of-eq now _ _ _ _ _ (omega arith) (λ type. omega arith)
            ∙ ap
                (state_of now (r + total is_report (e ∷ es))
                  (λ type. n type + total (is_proxy type) (e ∷ es)))
                (with_counts-event e es blacklists)))

-- After a row of events, from the start of the program, the count of reports is the number of their
-- events, that of a proxy type, in its place in the table, the number of found proxies of the type,
-- and that of a blacklist is what it was before with the number of its listings added, all modulo
-- 2 ^ 32. Nothing else changes. The counts of the blacklists at the start are unsigned ints.
pub count_events_lem :
    (es : List Event) (now : ℕ) (blacklists : List BlacklistConf)
    → All (λ bl. bl.stats_recv < 2 ^ 32) blacklists
    → count_events es (stats_init now blacklists)
      ≡ state_of now
          (total is_report es)
          (λ type. total (is_proxy type) es)
          (with_counts es 0 blacklists)
unfolding stats_init
count_events_lem es now blacklists small =
    count_events-state_of es now 0 (λ _. 0) blacklists small
    ∙ state_of-eq now (with_counts es 0 blacklists) (0 + total is_report es) (total is_report es)
        (λ type. 0 + total (is_proxy type) es) (λ type. total (is_proxy type) es) (omega arith)
        (λ type. omega arith)
