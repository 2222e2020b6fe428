-- ===== src/Dnsbl/Lookup.antt =====
-- `dnsbl_add` of src/dnsbl.c, on a machine with its low byte first (no WORDS_BIGENDIAN).
use bopm.Prelude.{
  ℕ, ◌+◌, ◌*◌, ◌<◌, ◌≡◌, arith, ◌/◌, ◌%◌, ◌^◌, Option, none, some, List, [], ◌∷◌, ◌++◌, Bytes,
  codes, decimal,
}
use bopm.Config.{BlacklistConf}
use bopm.Irc.Send.{snprintf}
use bopm.Event.{Event, queried}
use bopm.Scan.Setup.{ScanStruct, Setup, increase}

-- What `firedns_getip` comes to: a query that is sent, one that waits for a file descriptor
-- (FDNS_ERR_FDLIMIT), or another error.
pub data Getip : Type 0 where
  started fd_limit failed : Getip

-- The functions that `dnsbl_add` calls: inet_aton() gives the address in network order as the
-- machine reads it, so its lowest byte is the first number of the dotted form.
pub record Resolver : Type 0 where
  pub inet_aton : Bytes → Option ℕ
  pub firedns_getip : Bytes → Getip

-- `(unsigned char) (in.s_addr >> shift) & 0xFF`
abbrev pub octet : ℕ → ℕ → ℕ
octet s_addr shift = s_addr / 2 ^ shift % 256

-- `%d.%d.%d.%d.%s` with the octets from the last to the first, in a buffer of 128 bytes.
unfoldable pub lookup_name : ℕ → Bytes → Bytes
lookup_name s_addr zone = snprintf 128 (
    decimal (octet s_addr 24)
    ++ (codes "."
        ++ (decimal (octet s_addr 16)
            ++ (codes "."
                ++ (decimal (octet s_addr 8)
                    ++ (codes "." ++ (decimal (octet s_addr 0) ++ (codes "." ++ zone))))))))

unfoldable pub count_query : Getip → ScanStruct → ScanStruct
count_query started ss = increase ss
count_query fd_limit ss = increase ss
count_query failed ss = ss

-- The loop over the blacklists.
unfoldable pub query_all : Resolver → ℕ → List BlacklistConf → ScanStruct → ScanStruct × List Event
unfolding lookup_name count_query
query_all r s_addr [] ss = (ss, [])
query_all r s_addr (bl ∷ rest) ss =
    let name = lookup_name s_addr bl.name in
    let (ss', events) = query_all r s_addr rest (count_query (r.firedns_getip name) ss) in
    (ss', queried name ∷ events)

unfoldable pub dnsbl_add : Resolver → Setup → ScanStruct → ScanStruct × List Event
unfolding query_all
dnsbl_add r setup ss = elim (r.inet_aton ss.ip) [
  | none ↦ (ss, [])
  | some s_addr ↦ query_all r s_addr setup.opm.blacklists ss
]

-- The address `a.b.c.d`, as inet_aton() gives it, is looked up as `d.c.b.a` in the zone.
pub lookup_name-reverse :
    (a b c d : ℕ) (zone : Bytes)
    → a < 256
    → b < 256
    → c < 256
    → d < 256
    → lookup_name (a + b * 256 + c * 65536 + d * 16777216) zone
      ≡ snprintf 128 (
          decimal d
          ++ (codes "."
              ++ (decimal c
                  ++ (codes "."
                      ++ (decimal b ++ (codes "." ++ (decimal a ++ (codes "." ++ zone))))))))
unfolding lookup_name
lookup_name-reverse a b c d zone ha hb hc hd =
    let s_addr : ℕ = a + b * 256 + c * 65536 + d * 16777216 in
    let e_a : octet s_addr 0 ≡ a = omega arith in
    let e_b : octet s_addr 8 ≡ b = omega arith in
    let e_c : octet s_addr 16 ≡ c = omega arith in
    let e_d : octet s_addr 24 ≡ d = omega arith in rw (e_a, e_b, e_c, e_d)
