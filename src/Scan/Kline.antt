-- ===== src/Scan/Kline.antt =====
-- `scan_irckline` of src/scan.c: the ban, from a format with the keys %i, %h, %u, %n and %t.
use bopm.Prelude.{
  ℕ, zero, suc, ◌+◌, ◌%◌, ◌^◌, Bool, true, false, Option, none, some, List, [], ◌∷◌, ◌++◌, ltb, ◌*◌,
  ◌==◌, if◌then◌else◌, Bytes, length, drop,
}
use bopm.Irc.Send.{irc_send}
use bopm.Event.{Kline, line, undefined, endless}
use bopm.Scan.Setup.{ScanStruct}

abbrev pub percent : ℕ
percent = b'%'

-- `kline_format_assoc`; every entry is of FORMATTYPE_STRING, and `none` is NULL.
abbrev pub Table : Type 0
Table = List (ℕ × Option Bytes)

-- The buffer `message` holds `text` in its first bytes. `terminated` tells whether the byte behind
-- it was set to NUL; what lies further on was never written.
pub record Message : Type 0 where
  pub text : Bytes
  pub terminated : Bool

-- What an entry's string does to the buffer of 513 bytes. `size` is an `unsigned short`.
unfoldable pub insert_string : Bytes → Message → Option Message
insert_string string m =
    let size = length string % 2 ^ 16 in
    if ltb 512 (size + length m.text)
    then some m
    else if m.terminated
    then if ltb 512 (length string + length m.text)
      then none
      else some (record { text = m.text ++ string; terminated = true })
    else none

-- strlen() of a NULL faults.
abbrev pub insert_data : Option Bytes → Message → Option Message
unfolding insert_string
insert_data none m = none
insert_data (some string) m = insert_string string m

-- The `for` loop over the table; `none` is a fault of strlen() or strcat().
unfoldable pub insert_key : ℕ → Table → Message → Option Message
unfolding insert_string
insert_key key [] m = some m
insert_key key ((k, string) ∷ table) m =
    if k == key
    then elim (insert_data string m) [ none ↦ none | some m' ↦ insert_key key table m' ]
    else insert_key key table m

-- `irc_send ("%s", message)`
unfoldable pub send_message : Message → Kline
send_message m = if m.terminated then line (irc_send m.text) else undefined

unfoldable pub after_key : Option Message → (Message → Kline) → Kline
after_key none next = undefined
after_key (some m) next = next m

-- `pos` and `len` are unsigned shorts; `len` stays below 513.
abbrev pub u16 : ℕ
u16 = 2 ^ 16

-- A round of the `while` loop at the rest of the format from `pos` on. A `%` that ends the format is
-- not passed over: the loop goes on with nothing changed.
unfoldable pub format_round :
    Table → (next : (pos : ℕ) → Message → Kline) → (pos : ℕ) → Message → (rest : Bytes) → Kline
format_round table next pos m [] = send_message m
format_round table next pos m (c ∷ []) =
    if ltb (length m.text) 511
    then if c == percent
      then next pos m
      else next ((pos + 1) % u16) (record { text = m.text ++ c ∷ []; terminated = true })
    else send_message m
format_round table next pos m (c ∷ d ∷ rest) =
    if ltb (length m.text) 511
    then if c == percent
      then if d == percent
        then next ((pos + 2) % u16) (record { text = m.text ++ percent ∷ []; terminated = false })
        else after_key (insert_key d table m) (next ((pos + 2) % u16))
      else next ((pos + 1) % u16) (record { text = m.text ++ c ∷ []; terminated = true })
    else send_message m

-- The loop over a format. With no fuel left it counts as endless.
unfoldable pub format_loop : (fuel : ℕ) → Table → (format : Bytes) → (pos : ℕ) → Message → Kline
unfolding format_round
format_loop zero table format pos m = endless
format_loop (suc fuel) table format pos m =
    format_round table (format_loop fuel table format) pos m (drop pos format)

unfoldable pub kline_table : ScanStruct → Bytes → Table
kline_table ss type =
    (b'i', some ss.ip)
    ∷ (b'h', ss.irc_hostname)
    ∷ (b'u', ss.irc_username)
    ∷ (b'n', ss.irc_nick)
    ∷ (b't', some type)
    ∷ []

-- Of the rounds that leave the message as it is, at most 65536 follow each other in a loop that
-- ends, one for each position, and the message grows at most 511 times.
abbrev pub rounds : ℕ
rounds = 65536 * 512

unfoldable pub scan_irckline : ScanStruct → Bytes → Bytes → Kline
unfolding kline_table format_loop insert_key insert_string after_key send_message irc_send
scan_irckline ss format type =
    format_loop rounds (kline_table ss type) format 0 (record { text = []; terminated = false })
