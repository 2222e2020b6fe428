-- ===== src/Dnsbl/Samples.antt =====
-- A listing and a lookup, and their theorems.
use bopm.Prelude.{◌+◌, ◌*◌, ◌≡◌, refl, some, List, [], ◌∷◌, ◌++◌, arith, codes, decimal}
use bopm.Config.{BlacklistReplyConf, a_bitmask}
use bopm.Irc.Send.{snprintf}
use bopm.Dnsbl.Lookup.{lookup_name, lookup_name-reverse}
use bopm.Dnsbl.Types.{text_type}
use bopm.Dnsbl.Listing.{types_of, joined, text_type-joined}

abbrev replies : List BlacklistReplyConf
replies =
    record { number = 1; type = codes "http" }
    ∷ record { number = 2; type = codes "socks" }
    ∷ record { number = 4; type = codes "wingate" }
    ∷ []

two_types : text_type a_bitmask replies 5 ≡ some (codes "http, wingate")
unfolding text_type
two_types = refl

text_type-joined_example : text_type a_bitmask replies 5 ≡ some (joined (types_of 5 replies))
text_type-joined_example = text_type-joined replies 5 (omega arith)

lookup_name-reverse_example :
    lookup_name (10 + 20 * 256 + 30 * 65536 + 40 * 16777216) (codes "bl.example")
    ≡ snprintf 128 (
        decimal 40
        ++ (codes "."
            ++ (decimal 30
                ++ (codes "."
                    ++ (decimal 20
                        ++ (codes "." ++ (decimal 10 ++ (codes "." ++ codes "bl.example"))))))))
lookup_name-reverse_example =
    lookup_name-reverse 10 20 30 40 (codes "bl.example") (omega arith) (omega arith) (omega arith)
      (omega arith)
