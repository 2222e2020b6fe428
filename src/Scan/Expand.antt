-- ===== src/Scan/Expand.antt =====
-- What a kline format stands for, and the formats for which `scan_irckline` sends that.
use bopm.Prelude.{
  ℕ, zero, suc, ◌+◌, ◌≤◌, ◌<◌, ◌≡◌, ◌%◌, ◌^◌, ◌||◌, refl, ◌∙◌, ◌⊎◌, inl, inr, Bool, true, false,
  Option, none, some, [], ◌∷◌, ◌++◌, arith, ltb, lt→ltb, ◌==◌, if◌then◌else◌, Bool-cases, Bytes,
  length, drop, ap, length-append, All, Lacks,
}
use mathlib.Core.List.{append_assoc, append-nil}
use bopm.Irc.Send.{irc_send}
use bopm.Event.{line, undefined, endless}
use bopm.Scan.Setup.{ScanStruct}
use bopm.Scan.Kline.{
  Table, percent, insert_string, insert_key, after_key, send_message, format_loop, kline_table,
  scan_irckline, rounds,
}

abbrev pub data_of : Option Bytes → Bytes
data_of none = []
data_of (some string) = string

-- The string is not NULL.
abbrev pub IsPresent : ℕ × Option Bytes → Type 0
IsPresent (k, none) = ⊥
IsPresent (k, some string) = Unit

-- The strings of a key, one behind the other.
unfoldable pub value_of : ℕ → Table → Bytes
value_of key [] = []
value_of key ((k, string) ∷ table) =
    if k == key then data_of string ++ value_of key table else value_of key table

-- A format with each `%` and key replaced by the key's string.
unfoldable pub expand : Table → Bytes → Bytes
expand table [] = []
expand table (c ∷ []) = c ∷ []
expand table (c ∷ d ∷ rest) =
    if c == percent then value_of d table ++ expand table rest else c ∷ expand table (d ∷ rest)

-- No `%%`, and no `%` at the end.
abbrev pub IsSafe : Bytes → Type 0
IsSafe [] = Unit
IsSafe (c ∷ []) = (c == percent) ≡ false
IsSafe (c ∷ d ∷ rest) =
    (((c == percent) ≡ false) × IsSafe (d ∷ rest))
    ⊎ (((c == percent) ≡ true) × ((d == percent) ≡ false) × IsSafe rest)

insert_string-fits :
    (string text : Bytes)
    → length string + length text ≤ 510
    → insert_string string (record { text = text; terminated = true })
      ≡ some (record { text = text ++ string; terminated = true })
unfolding insert_string
insert_string-fits string text h = ground arith

insert_key-fits :
    (key : ℕ) (table : Table) (text : Bytes)
    → All IsPresent table
    → length text + length (value_of key table) ≤ 510
    → insert_key key table (record { text = text; terminated = true })
      ≡ some (record { text = text ++ value_of key table; terminated = true })
unfolding insert_key value_of
insert_key-fits key [] text p h = rw append-nil
insert_key-fits key ((k, none) ∷ table) text p h = absurd p.0
insert_key-fits key ((k, some string) ∷ table) text p h = elim (Bool-cases (k == key)) [
  | inr other ↦ rw other (insert_key-fits key table text p.1 (rw other at h))
  | inl same ↦
      let h' : length text + length (string ++ value_of key table) ≤ 510 = rw same at h in
      let sizes = length-append string (value_of key table) in
      rw (same, insert_string-fits string text (omega (arith, h', sizes)))
        (insert_key-fits key table (text ++ string) p.1
            (omega (arith, h', sizes, length-append text string))
          ∙ rw (append_assoc text string (value_of key table)))
]

drop-next :
    (pos : ℕ) (format : Bytes) (c : ℕ) (rest : Bytes)
    → drop pos format ≡ c ∷ rest
    → drop (suc pos) format ≡ rest
drop-next zero [] c rest e = absurd (cc)
drop-next zero (x ∷ xs) c rest e = ap (drop 1) e
drop-next (suc pos) [] c rest e = absurd (cc)
drop-next (suc pos) (x ∷ xs) c rest e = drop-next pos xs c rest e

-- The positions behind one and two bytes, in a format below 65536 bytes.
module _ (pos : ℕ) (format : Bytes) where
  one_on :
      (c : ℕ) (rest : Bytes)
      → drop pos format ≡ c ∷ rest
      → pos + suc (length rest) < 65536
      → (drop ((pos + 1) % 65536) format ≡ rest) × ((pos + 1) % 65536 + length rest < 65536)
  one_on c rest e lt =
      let next : (pos + 1) % 65536 ≡ suc pos = omega arith in
      (ap (λ n. drop n format) next ∙ drop-next pos format c rest e, omega arith)

  two_on :
      (c d : ℕ) (rest : Bytes)
      → drop pos format ≡ c ∷ d ∷ rest
      → pos + suc (suc (length rest)) < 65536
      → (drop ((pos + 2) % 65536) format ≡ rest) × ((pos + 2) % 65536 + length rest < 65536)
  two_on c d rest e lt =
      let next : (pos + 2) % 65536 ≡ suc (suc pos) = omega arith in
      (
        ap (λ n. drop n format) next
            ∙ drop-next (suc pos) format d rest (drop-next pos format c (d ∷ rest) e),
        omega arith,
      )

module _ (table : Table) (format : Bytes) (present : All IsPresent table) where
  format_loop-expand :
      (fuel pos : ℕ) (rest text : Bytes)
      → drop pos format ≡ rest
      → pos + length rest < 65536
      → IsSafe rest
      → length rest < fuel
      → length text + length (expand table rest) ≤ 510
      → format_loop fuel table format pos (record { text = text; terminated = true })
        ≡ line (irc_send (text ++ expand table rest))
  unfolding format_loop expand send_message after_key
  format_loop-expand zero pos rest text e lt s f h = absurd (omega arith)
  format_loop-expand (suc fuel) pos [] text e lt s f h = rw (e, append-nil)
  format_loop-expand (suc fuel) pos (c ∷ []) text e lt s f h =
      let room : ltb (length text) 511 ≡ true = ground arith in
      let on = one_on pos format c [] e lt in
      rw (e, room, s)
        (format_loop-expand fuel ((pos + 1) % 65536) [] (text ++ c ∷ []) on.0 on.1 tt (omega arith)
            (omega (arith, length-append text (c ∷ [])))
          ∙ rw append-nil)
  format_loop-expand (suc fuel) pos (c ∷ d ∷ rest) text e lt (inl s) f h =
      let room : ltb (length text) 511 ≡ true = omega (arith, lt→ltb) in
      let h' : length text + suc (length (expand table (d ∷ rest))) ≤ 510 = rw s.0 at h in
      let on = one_on pos format c (d ∷ rest) e lt in
      rw (e, room, s.0)
        (format_loop-expand fuel ((pos + 1) % 65536) (d ∷ rest) (text ++ c ∷ []) on.0 on.1 s.1
            (omega arith) (omega (arith, length-append text (c ∷ [])))
          ∙ rw (append_assoc text (c ∷ []) (expand table (d ∷ rest))))
  format_loop-expand (suc fuel) pos (c ∷ d ∷ rest) text e lt (inr s) f h =
      let room : ltb (length text) 511 ≡ true = omega (arith, lt→ltb) in
      let value = value_of d table in
      let h' : length text + length (value ++ expand table rest) ≤ 510 = rw s.0 at h in
      let sizes = length-append value (expand table rest) in
      let on = two_on pos format c d rest e lt in
      rw (e, room, s.0, s.1, insert_key-fits d table text present (omega (arith, h', sizes)))
        (format_loop-expand fuel ((pos + 2) % 65536) rest (text ++ value) on.0 on.1 s.2
            (omega arith) (omega (arith, h', sizes, length-append text value))
          ∙ rw (append_assoc text value (expand table rest)))

first_round :
    (fuel : ℕ) (table : Table) (c : ℕ) (rest : Bytes)
    → (c == percent) ≡ false
    → format_loop (suc fuel) table (c ∷ rest) 0 (record { text = []; terminated = false })
      ≡ format_loop fuel table (c ∷ rest) 1 (record { text = c ∷ []; terminated = true })
unfolding format_loop
first_round fuel table c [] e = rw e
first_round fuel table c (d ∷ rest) e = rw e

expand-cons :
    (table : Table) (c : ℕ) (rest : Bytes)
    → (c == percent) ≡ false
    → expand table (c ∷ rest) ≡ c ∷ expand table rest
unfolding expand
expand-cons table c [] e = refl
expand-cons table c (d ∷ rest) e = rw e

format_loop-start :
    (fuel : ℕ) (table : Table) (c : ℕ) (rest : Bytes)
    → All IsPresent table
    → (c == percent) ≡ false
    → IsSafe rest
    → length (c ∷ rest) < 65536
    → length rest + 1 < fuel
    → length (expand table (c ∷ rest)) ≤ 510
    → format_loop fuel table (c ∷ rest) 0 (record { text = []; terminated = false })
      ≡ line (irc_send (expand table (c ∷ rest)))
format_loop-start zero table c rest p e s short f h = absurd (omega arith)
format_loop-start (suc fuel) table c rest p e s short f h =
    let h' : length (c ∷ expand table rest) ≤ 510 = rw (expand-cons table c rest e) at h in
    rw (first_round fuel table c rest e, expand-cons table c rest e)
      (format_loop-expand table (c ∷ rest) p fuel 1 rest (c ∷ []) refl (omega arith) s (omega arith)
        (omega (arith, h')))

-- A format of fewer than 65536 bytes that begins with a byte other than `%`, that has no `%%` and no
-- `%` at its end, and whose expansion has at most 510 bytes, is sent with each key replaced by its
-- string. None of the scan's strings is NULL, as those of a manual scan are.
pub scan_irckline-expand :
    (ss : ScanStruct) (type : Bytes) (c : ℕ) (rest : Bytes)
    → All IsPresent (kline_table ss type)
    → (c == percent) ≡ false
    → IsSafe rest
    → length (c ∷ rest) < 65536
    → length (expand (kline_table ss type) (c ∷ rest)) ≤ 510
    → scan_irckline ss (c ∷ rest) type ≡ line (irc_send (expand (kline_table ss type) (c ∷ rest)))
unfolding scan_irckline
scan_irckline-expand ss type c rest p e s short h =
    format_loop-start rounds (kline_table ss type) c rest p e s short (omega arith) h

endless_loop :
    (fuel : ℕ) (table : Table) (format : Bytes) (pos : ℕ) (text before : Bytes) (terminated : Bool)
    → drop pos format ≡ before ++ percent ∷ []
    → pos + length before < 65535
    → Lacks percent before
    → length text + length before < 511
    → format_loop fuel table format pos (record { text = text; terminated = terminated }) ≡ endless
unfolding format_loop
endless_loop zero table format pos text before t e lt h l = refl
endless_loop (suc fuel) table format pos text [] t e lt h l =
    let room : ltb (length text) 511 ≡ true = omega (arith, lt→ltb) in
    rw (e, room, endless_loop fuel table format pos text [] t e lt tt l)
endless_loop (suc fuel) table format pos text (c ∷ []) t e lt h l =
    let room : ltb (length text) 511 ≡ true = omega (arith, lt→ltb) in
    let on = one_on pos format c (percent ∷ []) e (omega arith) in
    rw (e, room, h.0)
      (endless_loop fuel table format ((pos + 1) % 65536) (text ++ c ∷ []) [] true on.0
        (omega arith) tt (omega (arith, length-append text (c ∷ []))))
endless_loop (suc fuel) table format pos text (c ∷ d ∷ before) t e lt h l =
    let room : ltb (length text) 511 ≡ true = omega (arith, lt→ltb) in
    let sizes = length-append (d ∷ before) (percent ∷ []) in
    let on = one_on pos format c ((d ∷ before) ++ percent ∷ []) e (omega (arith, sizes)) in
    rw (e, room, h.0)
      (endless_loop fuel table format ((pos + 1) % 65536) (text ++ c ∷ []) (d ∷ before) true on.0
        (omega (arith, lt)) h.1 (omega (arith, length-append text (c ∷ []))))

-- A format with its only `%` at its end, behind fewer than 511 bytes, keeps the loop of
-- `scan_irckline` going for ever: no number of rounds ends it.
pub format_loop-endless :
    (rounds : ℕ) (ss : ScanStruct) (type before : Bytes)
    → Lacks percent before
    → length before < 511
    → format_loop rounds
        (kline_table ss type)
        (before ++ percent ∷ [])
        0
        (record { text = []; terminated = false })
      ≡ endless
format_loop-endless rounds ss type before h l =
    endless_loop rounds (kline_table ss type) (before ++ percent ∷ []) 0 [] before false refl
      (omega arith) h (omega arith)

abbrev pub has_key : ℕ → Table → Bool
has_key key [] = false
has_key key ((k, _) ∷ table) = k == key || has_key key table

abbrev pub ShortStrings : Table → Type 0
ShortStrings = All (λ entry. length (data_of entry.1) ≤ 512)

insert_key-unwritten :
    (key : ℕ) (table : Table)
    → ShortStrings table
    → has_key key table ≡ true
    → insert_key key table (record { text = []; terminated = false }) ≡ none
unfolding insert_key insert_string
insert_key-unwritten key [] h k = cc
insert_key-unwritten key ((j, none) ∷ table) h k = elim (Bool-cases (j == key)) [
  | inl same ↦ rw same
  | inr other ↦ rw other (insert_key-unwritten key table h.1 (ground arith))
]
insert_key-unwritten key ((j, some string) ∷ table) h k = elim (Bool-cases (j == key)) [
  | inl same ↦
      let size : ltb 512 (length string % 2 ^ 16 + 0) ≡ false = ground arith in rw (same, size)
  | inr other ↦ rw other (insert_key-unwritten key table h.1 (ground arith))
]

keyed_round :
    (fuel : ℕ) (table : Table) (key : ℕ) (rest : Bytes)
    → 0 < fuel
    → (key == percent) ≡ false
    → insert_key key table (record { text = []; terminated = false }) ≡ none
    → format_loop fuel table (percent ∷ key ∷ rest) 0 (record { text = []; terminated = false })
      ≡ undefined
unfolding format_loop after_key
keyed_round zero table key rest pos e k = absurd (omega arith)
keyed_round (suc fuel) table key rest pos e k = rw (e, k)

-- A format that begins with a key makes strcat() search a buffer that was never written, whatever
-- the key's string is, as long as all strings have at most 512 bytes.
pub scan_irckline-unwritten :
    (ss : ScanStruct) (type : Bytes) (key : ℕ) (rest : Bytes)
    → ShortStrings (kline_table ss type)
    → (key == percent) ≡ false
    → has_key key (kline_table ss type) ≡ true
    → scan_irckline ss (percent ∷ key ∷ rest) type ≡ undefined
unfolding scan_irckline
scan_irckline-unwritten ss type key rest h e k =
    keyed_round rounds (kline_table ss type) key rest (omega arith) e
      (insert_key-unwritten key (kline_table ss type) h k)
