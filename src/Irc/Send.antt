-- ===== src/Irc/Send.antt =====
-- `irc_send` and `irc_send_channels` of src/irc.c. The text is the format with its arguments put in;
-- the call of send() behind it is `transmit` of Irc/Connection.antt.
use bopm.Prelude.{
  ℕ, zero, suc, ◌-◌, ◌≤◌, ◌≡◌, refl, [], ◌∷◌, ◌++◌, arith, Bytes, codes, length, take, ap, ◌∙◌,
}

abbrev pub msg_len_max : ℕ
msg_len_max = 513

-- What `snprintf (buf, size, …)` leaves in the buffer, for a size that is not 0.
abbrev pub snprintf : ℕ → Bytes → Bytes
snprintf size text = take (size - 1) text

abbrev pub newline : ℕ
newline = 10

-- The bytes that `irc_send` passes to send().
unfoldable pub irc_send : Bytes → Bytes
irc_send text =
    let data2 = snprintf msg_len_max text in snprintf msg_len_max (data2 ++ newline ∷ [])

unfoldable pub irc_send_channels : Bytes → Bytes → Bytes
unfolding irc_send
irc_send_channels irc_channels text =
    let data2 = snprintf msg_len_max text in
    irc_send (snprintf msg_len_max (codes "PRIVMSG " ++ (irc_channels ++ (codes " :" ++ data2))))

pub take-all : (n : ℕ) (s : Bytes) → length s ≤ n → take n s ≡ s
take-all zero [] h = refl
take-all zero (c ∷ s) h = absurd (omega arith)
take-all (suc n) [] h = refl
take-all (suc n) (c ∷ s) h = ap (◌∷◌ c) (take-all n s (omega arith))

take-append : (n : ℕ) (s t : Bytes) → n ≤ length s → take n (s ++ t) ≡ take n s
take-append zero s t h = refl
take-append (suc n) [] t h = absurd (omega arith)
take-append (suc n) (c ∷ s) t h = ap (◌∷◌ c) (take-append n s t (omega arith))

length-append_one : (s : Bytes) (c : ℕ) → length (s ++ c ∷ []) ≡ suc (length s)
length-append_one [] c = refl
length-append_one (x ∷ s) c = ap suc (length-append_one s c)

-- A text of at most 511 bytes is sent whole, with a newline behind it.
pub irc_send-short : (text : Bytes) → length text ≤ 511 → irc_send text ≡ text ++ newline ∷ []
unfolding irc_send
irc_send-short text h =
    rw (take-all 512 text (omega arith))
      (take-all 512 (text ++ newline ∷ []) (omega (arith, length-append_one text newline)))

pub length-take_le : (n : ℕ) (s : Bytes) → n ≤ length s → length (take n s) ≡ n
length-take_le zero s h = refl
length-take_le (suc n) [] h = absurd (omega arith)
length-take_le (suc n) (c ∷ s) h = ap suc (length-take_le n s (omega arith))

take-take : (n : ℕ) (s : Bytes) → take n (take n s) ≡ take n s
take-take zero s = refl
take-take (suc n) [] = refl
take-take (suc n) (c ∷ s) = ap (◌∷◌ c) (take-take n s)

-- Of a text of 512 bytes or more the first 512 are sent, and no newline ends the line.
pub irc_send-long : (text : Bytes) → 512 ≤ length text → irc_send text ≡ take 512 text
unfolding irc_send
irc_send-long text h =
    take-append 512 (take 512 text) (newline ∷ []) (omega (arith, length-take_le 512 text h))
    ∙ take-take 512 text
