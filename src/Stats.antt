-- ===== src/Stats.antt =====
-- src/stats.c: the counters, and what `stats_output` reports of them.
pub mod Counts
pub mod Fds
mod Samples
use bopm.Prelude.{
  ℕ, zero, suc, ◌+◌, ◌-◌, ◌%◌, ◌^◌, Bool, true, false, List, [], ◌∷◌, ◌++◌, ltb, ◌==◌,
  if◌then◌else◌, Bytes, codes, decimal,
}
use bopm.Config.{
  BlacklistConf, ProtocolType, http, httppost, socks4, socks5, wingate, router, unknown,
}
use bopm.Event.{Event, proxy_counted, listed_counted, report_counted}
use bopm.Irc.Send.{irc_send}
use bopm.Misc.Time.{dissect_time}

pub record StatsHash : Type 0 where
  pub type : ProtocolType
  pub count : ℕ
  pub name : Bytes

-- The static variables, and the blacklists of the configuration, each with its `stats_recv`.
pub record State : Type 0 where
  pub uptime : ℕ
  pub connections : ℕ
  pub dnsblsent : ℕ
  pub proxies : List StatsHash
  pub blacklists : List BlacklistConf

-- `++` of an unsigned int.
abbrev pub next : ℕ → ℕ
next n = (n + 1) % 2 ^ 32

abbrev pub protocol_code : ProtocolType → ℕ
protocol_code http = 0
protocol_code httppost = 1
protocol_code socks4 = 2
protocol_code socks5 = 3
protocol_code wingate = 4
protocol_code router = 5
protocol_code unknown = 6

-- `STATS_PROXIES` with a count for each type.
unfoldable pub stats_proxies : (ProtocolType → ℕ) → List StatsHash
stats_proxies count =
    record { type = http; count = count http; name = codes "HTTP" }
    ∷ record { type = httppost; count = count httppost; name = codes "HTTPPOST" }
    ∷ record { type = socks4; count = count socks4; name = codes "SOCKS4" }
    ∷ record { type = socks5; count = count socks5; name = codes "SOCKS5" }
    ∷ record { type = router; count = count router; name = codes "ROUTER" }
    ∷ record { type = wingate; count = count wingate; name = codes "WINGATE" }
    ∷ []

unfoldable pub stats_init : (now : ℕ) → List BlacklistConf → State
unfolding stats_proxies
stats_init now blacklists = record {
  uptime = now;
  connections = 0;
  dnsblsent = 0;
  proxies = stats_proxies (λ _. 0);
  blacklists = blacklists;
}

unfoldable pub count_proxy : ProtocolType → List StatsHash → List StatsHash
count_proxy type [] = []
count_proxy type (entry ∷ rest) =
    (if protocol_code entry.type == protocol_code type
      then record entry { count = next entry.count }
      else entry)
    ∷ count_proxy type rest

unfoldable pub stats_openproxy : ProtocolType → State → State
unfolding count_proxy
stats_openproxy type s = record s { proxies = count_proxy type s.proxies }

unfoldable pub stats_connect : State → State
stats_connect s = record s { connections = next s.connections }

-- `bl->stats_recv++` for the blacklist at a place in the configuration.
unfoldable pub count_listed : ℕ → List BlacklistConf → List BlacklistConf
count_listed i [] = []
count_listed zero (bl ∷ rest) = record bl { stats_recv = next bl.stats_recv } ∷ rest
count_listed (suc i) (bl ∷ rest) = bl ∷ count_listed i rest

unfoldable pub stats_dnsblrecv : ℕ → State → State
unfolding count_listed
stats_dnsblrecv i s = record s { blacklists = count_listed i s.blacklists }

unfoldable pub stats_dnsblsend : State → State
stats_dnsblsend s = record s { dnsblsent = next s.dnsblsent }

-- What an event of a scan counts.
unfoldable pub count_event : Event → State → State
unfolding stats_openproxy stats_dnsblrecv stats_dnsblsend
count_event (proxy_counted type) s = stats_openproxy type s
count_event (listed_counted i) s = stats_dnsblrecv i s
count_event report_counted s = stats_dnsblsend s
count_event _ s = s

unfoldable pub count_events : List Event → State → State
unfolding count_event
count_events [] s = s
count_events (e ∷ es) s = count_events es (count_event e s)

abbrev tell : Bytes → Bytes → Bytes
tell target text = irc_send (codes "PRIVMSG " ++ (target ++ (codes " :" ++ text)))

unfoldable pub listed_lines : Bytes → List BlacklistConf → List Bytes
listed_lines target [] = []
listed_lines target (bl ∷ rest) =
    let more = listed_lines target rest in
    if ltb 0 bl.stats_recv
    then tell target (
        codes "DNSBL: "
        ++ (decimal bl.stats_recv ++ (codes " successful lookups from " ++ bl.name)))
      ∷ more
    else more

unfoldable pub proxy_lines : Bytes → List StatsHash → List Bytes
proxy_lines target [] = []
proxy_lines target (entry ∷ rest) =
    let more = proxy_lines target rest in
    if ltb 0 entry.count
    then tell target
        (codes "Found " ++ (decimal entry.count ++ (codes " (" ++ (entry.name ++ codes ") open."))))
      ∷ more
    else more

-- The lines that are sent. `rate` is the text of `%.2f` for a number of connections in an uptime,
-- a float.
unfoldable pub stats_output : (rate : ℕ → ℕ → Bytes) → (present : ℕ) → Bytes → State → List Bytes
unfolding listed_lines proxy_lines irc_send dissect_time
stats_output rate present target s =
    let uptime = present - s.uptime in
    tell target (codes "Uptime: " ++ dissect_time uptime)
    ∷ (listed_lines target s.blacklists
        ++ ((if ltb 0 s.dnsblsent
              then tell target (codes "DNSBL: " ++ (decimal s.dnsblsent ++ codes " reports sent"))
                ∷ []
              else [])
            ++ (proxy_lines target s.proxies
                ++ tell target (
                    codes "Number of connects: "
                    ++ (decimal s.connections
                        ++ (codes " (" ++ (rate s.connections uptime ++ codes "/minute)"))))
                  ∷ [])))
