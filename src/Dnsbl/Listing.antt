-- ===== src/Dnsbl/Listing.antt =====
-- What a listing's text says, where it fits into its buffer.
use Prim.Native.Nat.{bit_and}
use bopm.Prelude.{
  ℕ, zero, suc, ◌+◌, ◌-◌, ◌≤◌, ◌≡◌, refl, true, some, List, [], ◌∷◌, ◌++◌, arith, leb, ◌==◌, inl,
  inr, if◌then◌else◌, Bool-cases, Bytes, codes, length, length-append, take, ap, ◌∙◌,
}
use mathlib.Core.List.{append_assoc, append-nil}
use bopm.Config.{BlacklistReplyConf, a_bitmask}
use bopm.Dnsbl.Types.{append_type, bitmask_types, before_last_comma, cut_last_comma, text_type}

abbrev comma : Bytes
comma = codes ", "

-- The types of the replies that share a bit with an answer.
abbrev pub types_of : ℕ → List BlacklistReplyConf → List Bytes
types_of type [] = []
types_of type (item ∷ rest) =
    if bit_and item.number type == 0 then types_of type rest else item.type ∷ types_of type rest

-- Texts with a comma and a space behind each, and with these between them only.
abbrev pub closed : List Bytes → Bytes
closed [] = []
closed (text ∷ texts) = text ++ (codes ", " ++ closed texts)

abbrev pub joined : List Bytes → Bytes
joined [] = []
joined (text ∷ []) = text
joined (text ∷ more ∷ texts) = text ++ (codes ", " ++ joined (more ∷ texts))

take-all : (n : ℕ) (s : Bytes) → length s ≤ n → take n s ≡ s
take-all zero [] h = refl
take-all zero (c ∷ s) h = absurd (omega arith)
take-all (suc n) [] h = refl
take-all (suc n) (c ∷ s) h = ap (◌∷◌ c) (take-all n s (omega arith))

append_type-fits :
    (text type : Bytes)
    → length text + length type ≤ 125
    → append_type text type ≡ some (text ++ (type ++ comma))
unfolding append_type
append_type-fits text type h =
    let room : leb (length text) 126 ≡ true = ground arith in
    let sizes = length-append text type in
    rw
      (
        room,
        take-all (126 - length text) type (omega arith),
        take-all (127 - length (text ++ type)) comma (omega (arith, sizes)),
      )
      (ap some (append_assoc text type comma))

bitmask_types-closed :
    (type : ℕ) (reply : List BlacklistReplyConf) (text : Bytes)
    → length text + length (closed (types_of type reply)) ≤ 127
    → bitmask_types type reply text ≡ some (text ++ closed (types_of type reply))
unfolding bitmask_types
bitmask_types-closed type [] text h = rw append-nil
bitmask_types-closed type (item ∷ rest) text h = elim (Bool-cases (bit_and item.number type == 0)) [
  | inl apart ↦ rw apart (bitmask_types-closed type rest text (rw apart at h))
  | inr shared ↦
      let h' : length text + length (item.type ++ (comma ++ closed (types_of type rest))) ≤ 127 =
        rw shared at h in
      let sizes = length-append item.type (comma ++ closed (types_of type rest)) in
      let sizes' = length-append text (item.type ++ comma) in
      let sizes'' = length-append item.type comma in
      rw (shared, append_type-fits text item.type (omega (arith, h', sizes)))
        (bitmask_types-closed type rest (text ++ (item.type ++ comma))
            (omega (arith, h', sizes, sizes', sizes''))
          ∙ ap some (
              append_assoc text (item.type ++ comma) (closed (types_of type rest))
              ∙ ap (λ s. text ++ s) (append_assoc item.type comma (closed (types_of type rest)))))
]

before_last_comma-append :
    (s t front : Bytes)
    → before_last_comma t ≡ some front
    → before_last_comma (s ++ t) ≡ some (s ++ front)
unfolding before_last_comma
before_last_comma-append [] t front h = h
before_last_comma-append (c ∷ s) t front h = rw (before_last_comma-append s t front h)

before_last_comma-closed :
    (text : Bytes) (texts : List Bytes)
    → before_last_comma (closed (text ∷ texts)) ≡ some (joined (text ∷ texts))
unfolding before_last_comma
before_last_comma-closed text [] =
    before_last_comma-append text comma [] refl ∙ ap (λ t. some t) (append-nil text)
before_last_comma-closed text (more ∷ texts) =
    before_last_comma-append text (comma ++ closed (more ∷ texts)) (comma ++ joined (more ∷ texts))
      (before_last_comma-append comma (closed (more ∷ texts)) (joined (more ∷ texts))
        (before_last_comma-closed more texts))

cut_last_comma-closed : (texts : List Bytes) → cut_last_comma (closed texts) ≡ joined texts
unfolding cut_last_comma before_last_comma
cut_last_comma-closed [] = refl
cut_last_comma-closed (text ∷ texts) = rw (cut_last_comma, before_last_comma-closed text texts)

-- The text of a bitmask listing is the types of all replies that share a bit with the answer, in the
-- order of the configuration, with a comma and a space between them, where these, with as much
-- behind the last, have at most 127 bytes.
pub text_type-joined :
    (reply : List BlacklistReplyConf) (type : ℕ)
    → length (closed (types_of type reply)) ≤ 127
    → text_type a_bitmask reply type ≡ some (joined (types_of type reply))
unfolding text_type
text_type-joined reply type h =
    rw (text_type, bitmask_types-closed type reply [] (omega arith))
      (ap some (cut_last_comma-closed (types_of type reply)))
