-- ===== src/Irc/Targets.antt =====
-- The list of channels that `irc_init` writes for `irc_send_channels`.
use bopm.Prelude.{
  ℕ, ◌≤◌, ◌≡◌, sym, ap, ◌∙◌, inl, inr, false, Option, none, some, List, [], ◌∷◌, ◌++◌, arith, ltb,
  leb, leb→le, if◌then◌else◌, Bool-cases, Bytes, codes, length, length-append, take,
}
use mathlib.Core.List.{append_assoc, append-nil}
use bopm.Config.{ChannelConf}
use bopm.Irc.Send.{take-all, length-take_le}
use bopm.Irc.Connection.{str_n_cat, target_list}

-- The names with commas in between.
abbrev pub join_names : List ChannelConf → Bytes
join_names [] = []
join_names (chan ∷ []) = chan.name
join_names (chan ∷ (next ∷ rest)) = chan.name ++ (codes "," ++ join_names (next ∷ rest))

-- A text in an array of 513 bytes.
abbrev pub fitting : Bytes → Option Bytes
fitting text = if leb (length text) 512 then some text else none

str_n_cat-fitting : (buf text : Bytes) → str_n_cat (some buf) text ≡ fitting (buf ++ text)
unfolding str_n_cat
str_n_cat-fitting buf text = elim (Bool-cases (leb (length text) 513)) [
  | inl short ↦
      ap checked (ap (◌++◌ buf) (take-all 513 text (leb→le (length text) 513 short)))
      ∙ same (buf ++ text)
  | inr long ↦
      over (buf ++ take 513 text) (
        omega (
          arith,
          length-append buf (take 513 text),
          length-take_le 513 text (above (length text) long),
        ))
      ∙ sym (whole (buf ++ text) (omega (arith, length-append buf text, above (length text) long)))
]
  where
    checked : Bytes → Option Bytes
    checked s = if ltb (length s) 513 then some s else none

    above : (n : ℕ) → leb n 513 ≡ false → 513 ≤ n
    above n e = ground arith

    same : (s : Bytes) → checked s ≡ fitting s
    same s = ap (λ b. if b then some s else none) (agree (length s))
      where
        agree : (n : ℕ) → ltb n 513 ≡ leb n 512
        agree n = ground arith

    over : (s : Bytes) → 513 ≤ length s → checked s ≡ none
    over s le = ap (λ b. if b then some s else none) (off (length s) le)
      where
        off : (n : ℕ) → 513 ≤ n → ltb n 513 ≡ false
        off n le = ground arith

    whole : (s : Bytes) → 513 ≤ length s → fitting s ≡ none
    whole s le = ap (λ b. if b then some s else none) (off (length s) le)
      where
        off : (n : ℕ) → 513 ≤ n → leb n 512 ≡ false
        off n le = ground arith

str_n_cat-after : (a b : Bytes) → str_n_cat (fitting a) b ≡ fitting (a ++ b)
unfolding str_n_cat
str_n_cat-after a b = elim (Bool-cases (leb (length a) 512)) [
  | inl fits ↦ rw fits (str_n_cat-fitting a b)
  | inr long ↦
      let longer : leb (length (a ++ b)) 512 ≡ false = ground (arith, length-append a b) in
      rw (long, longer)
]

-- From a text that fits, or does not, the loop goes on to the text with the names behind it.
target_list-after :
    (chans : List ChannelConf) (buf : Bytes)
    → target_list chans (fitting buf) ≡ fitting (buf ++ join_names chans)
unfolding target_list
target_list-after [] buf = ap fitting (sym (append-nil buf))
target_list-after (chan ∷ []) buf = str_n_cat-after buf chan.name
target_list-after (chan ∷ (next ∷ rest)) buf =
    ap (λ o. target_list (next ∷ rest) (str_n_cat o (codes ","))) (str_n_cat-after buf chan.name)
    ∙ (ap (target_list (next ∷ rest)) (str_n_cat-after (buf ++ chan.name) (codes ","))
        ∙ (target_list-after (next ∷ rest) ((buf ++ chan.name) ++ codes ",")
            ∙ ap fitting (
                append_assoc (buf ++ chan.name) (codes ",") (join_names (next ∷ rest))
                ∙ append_assoc buf chan.name (codes "," ++ join_names (next ∷ rest)))))

-- `irc_init` writes the configured channels with commas in between, if that text has at most 512
-- bytes; a longer one is written beyond the array.
pub target_list-join :
    (chans : List ChannelConf)
    → target_list chans (some [])
      ≡ (if leb (length (join_names chans)) 512 then some (join_names chans) else none)
target_list-join chans = target_list-after chans []
