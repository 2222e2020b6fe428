-- ===== src/Dnsbl/Types.antt =====
-- The text that `dnsbl_positive` of src/dnsbl.c makes of a blacklist's answer, in `text_type[128]`.
use Prim.Native.Nat.{bit_and}
use bopm.Prelude.{
  ℕ, ◌-◌, Bool, ◌&&◌, Option, none, some, List, [], ◌∷◌, ◌++◌, ltb, leb, ◌==◌, if◌then◌else◌, Bytes,
  codes, length, take,
}
use bopm.Config.{BlacklistReplyConf, BlacklistType, a_bitmask, a_reply}

-- `strncat (text_type, ", ", sizeof (text_type) - strlen (text_type) - 1)`
abbrev add_comma : Bytes → Bytes
add_comma text = text ++ take (127 - length text) (codes ", ")

-- One matching reply of a bitmask, put behind the text in the buffer of 128 bytes with a comma.
-- `none` is a write past the buffer: at a length of 127 the bound 128 - 127 - 2 is a huge size_t, and
-- an empty type then only cuts the text to 126 bytes and adds a comma.
unfoldable pub append_type : Bytes → Bytes → Option Bytes
append_type text type =
    if leb (length text) 126
    then some (add_comma (text ++ take (126 - length text) type))
    else if length type == 0
    then some (add_comma (take 126 text))
    else none

unfoldable pub bitmask_types : ℕ → List BlacklistReplyConf → Bytes → Option Bytes
bitmask_types type [] text = some text
bitmask_types type (item ∷ rest) text =
    if bit_and item.number type == 0
    then bitmask_types type rest text
    else elim (append_type text item.type) [
      | none ↦ none
      | some text' ↦ bitmask_types type rest text'
    ]

-- What stands in front of the last comma, which `strrchr` finds.
unfoldable pub before_last_comma : Bytes → Option Bytes
before_last_comma [] = none
before_last_comma (c ∷ s) = elim (before_last_comma s) [
  | some front ↦ some (c ∷ front)
  | none ↦ if c == b',' then some [] else none
]

unfoldable pub cut_last_comma : Bytes → Bytes
cut_last_comma text = elim (before_last_comma text) [ none ↦ text | some front ↦ front ]

-- `item->number == type`: `number` is a signed char, `type` an unsigned one.
unfoldable pub number_is : BlacklistReplyConf → ℕ → Bool
number_is item type = ltb item.number 128 && item.number == type

-- The first reply with the number. strncpy() leaves a type of 128 bytes or more without a NUL, and
-- what is read behind it lies outside the buffer: `none`.
unfoldable pub reply_type : ℕ → List BlacklistReplyConf → Option Bytes
reply_type type [] = some []
reply_type type (item ∷ rest) =
    if number_is item type
    then if ltb (length item.type) 128 then some item.type else none
    else reply_type type rest

-- `text_type`, the types of the listing as the blacklist names them.
unfoldable pub text_type : BlacklistType → List BlacklistReplyConf → ℕ → Option Bytes
unfolding bitmask_types append_type cut_last_comma before_last_comma reply_type number_is
text_type a_bitmask reply type = elim (bitmask_types type reply []) [
  | none ↦ none
  | some text ↦ some (cut_last_comma text)
]
text_type a_reply reply type = reply_type type reply
