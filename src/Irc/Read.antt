-- ===== src/Irc/Read.antt =====
-- `irc_read` of src/irc.c: how the bytes that arrive are put together to lines. Irc.Connection has what follows at the end of the
-- connection.
use bopm.Prelude.{
  ℕ, ◌+◌, ◌≤◌, ◌≡◌, true, false, [], ◌∷◌, ◌++◌, arith, ltb, leb, ◌==◌, inl, inr, if◌then◌else◌,
  Bool-cases, Bytes, length, length-append, All, ap, ◌∙◌,
}
use mathlib.Core.List.{append_assoc, append-nil}

-- A whole line, with the bytes behind it that are not read yet; a part of one, which stays in
-- `IRC_RAW`; or a store behind that array of 513 bytes.
pub data Reading : Type 0 where
  whole : (line left : Bytes) → Reading
  partial : (raw : Bytes) → Reading
  overrun : Reading

-- The `while` loop, on the bytes that are there.
unfoldable pub irc_read : (raw input : Bytes) → Reading
irc_read raw [] = partial raw
irc_read raw (c ∷ input) =
    let same = irc_read raw input in
    let longer = irc_read (raw ++ c ∷ []) input in
    if c == 13
    then same
    else if c == 10
    then if leb (length raw) 512 then whole raw input else overrun
    else if c == 0
    then same
    else if ltb (length raw) 513
    then longer
    else overrun

-- A byte that is stored: no CR, LF or NUL.
abbrev pub IsStored : ℕ → Type 0
IsStored c = ((c == 13) ≡ false) × ((c == 10) ≡ false) × ((c == 0) ≡ false)

stored_bytes :
    (line raw input : Bytes)
    → All IsStored line
    → length raw + length line ≤ 513
    → irc_read raw (line ++ input) ≡ irc_read (raw ++ line) input
unfolding irc_read
stored_bytes [] raw input h few = rw append-nil
stored_bytes (c ∷ line) raw input h few =
    let room : ltb (length raw) 513 ≡ true = ground arith in
    rw (h.0.0, h.0.1, h.0.2, room)
      (stored_bytes line (raw ++ c ∷ []) input h.1 (omega (arith, length-append raw (c ∷ [])))
        ∙ ap (λ r. irc_read r input) (append_assoc raw (c ∷ []) line))

-- A line of at most 512 stored bytes and its CR LF is read whole, and what follows it stays.
pub irc_read-line :
    (line left : Bytes)
    → All IsStored line
    → length line ≤ 512
    → irc_read [] (line ++ 13 ∷ 10 ∷ left) ≡ whole line left
unfolding irc_read
irc_read-line line left h few = stored_bytes line [] (13 ∷ 10 ∷ left) h (omega arith) ∙ ends_line
  where
    ends_line : irc_read line (13 ∷ 10 ∷ left) ≡ whole line left
    ends_line = ground arith

-- A line of 513 stored bytes or more is written behind `IRC_RAW`, at its end or before.
pub irc_read-overrun :
    (line left : Bytes)
    → All IsStored line
    → 513 ≤ length line
    → irc_read [] (line ++ 10 ∷ left) ≡ overrun
unfolding irc_read
irc_read-overrun line left h many = overruns line [] h (omega arith) (omega arith)
  where
    overruns :
        (s raw : Bytes)
        → All IsStored s
        → length raw ≤ 513
        → 513 ≤ length raw + length s
        → irc_read raw (s ++ 10 ∷ left) ≡ overrun
    overruns [] raw h' le many' = let full : leb (length raw) 512 ≡ false = ground arith in rw full
    overruns (c ∷ s) raw h' le many' = elim (Bool-cases (ltb (length raw) 513)) [
      | inr full ↦ rw (h'.0.0, h'.0.1, h'.0.2, full)
      | inl room ↦
          rw (h'.0.0, h'.0.1, h'.0.2, room)
            (overruns s (raw ++ c ∷ []) h'.1 (ground (arith, length-append raw (c ∷ [])))
              (omega (arith, length-append raw (c ∷ []))))
    ]

-- Where the bytes that arrive first leave a part of a line, those that arrive later are read as if
-- all had arrived at once: how the connection splits its data does not matter.
pub irc_read-append :
    (raw first later rest : Bytes)
    → irc_read raw first ≡ partial rest
    → irc_read raw (first ++ later) ≡ irc_read rest later
unfolding irc_read
irc_read-append raw [] later rest e = ap (λ r. irc_read r later) (partial_inj e)
  where
    raw_of : Reading → Bytes
    raw_of (partial r) = r
    raw_of (whole line left) = raw
    raw_of overrun = raw

    partial_inj : {r : Bytes} → partial raw ≡ partial r → raw ≡ r
    partial_inj p = ap raw_of p
irc_read-append raw (c ∷ first) later rest e = elim (Bool-cases (c == 13)) [
  | inl cr ↦ rw cr (irc_read-append raw first later rest (rw cr at e))
  | inr no_cr ↦ elim (Bool-cases (c == 10)) [
    | inl lf ↦ absurd (not_partial (rw (no_cr, lf) at e))
    | inr no_lf ↦ elim (Bool-cases (c == 0)) [
      | inl nul ↦
          rw (no_cr, no_lf, nul)
            (irc_read-append raw first later rest (rw (no_cr, no_lf, nul) at e))
      | inr stored ↦ elim (Bool-cases (ltb (length raw) 513)) [
        | inl room ↦
            rw (no_cr, no_lf, stored, room)
              (irc_read-append (raw ++ c ∷ []) first later rest
                (rw (no_cr, no_lf, stored, room) at e))
        | inr full ↦ absurd (overrun≢partial (rw (no_cr, no_lf, stored, full) at e))
      ]
    ]
  ]
]
  where
    overrun≢partial : overrun ≡ partial rest → ⊥
    overrun≢partial p = cc

    not_partial : (if leb (length raw) 512 then whole raw first else overrun) ≡ partial rest → ⊥
    not_partial p = elim (Bool-cases (leb (length raw) 512)) [
      | inl fits ↦ let p' : whole raw first ≡ partial rest = rw fits at p in cc
      | inr longer ↦ let p' : overrun ≡ partial rest = rw longer at p in cc
    ]
