-- ===== src/Stats/Fds.antt =====
-- `fdstats_output` of src/stats.c: how many file descriptors are in use.
use bopm.Prelude.{
  ℕ, suc, ◌+◌, ◌%◌, ◌^◌, ◌≤◌, ◌<◌, ◌≡◌, ap, ◌∙◌, inl, inr, Bool, true, false, Option, none, some,
  List, [], ◌∷◌, ◌++◌, arith, ltb, if◌then◌else◌, Bool-cases, Bytes, codes, decimal, length, select,
  All,
}
use bopm.Irc.Send.{irc_send}

-- What dup() gives for a descriptor: a new one above 0, or the error that stands in errno behind it.
pub data Dup : Type 0 where
  used emfile ebadf eintr other_error : Dup

-- `unsigned`
abbrev pub u32 : ℕ
u32 = 2 ^ 32

-- The `for` loop, with the answers of dup() one after the other. `none`: they are used up and the
-- loop goes on.
unfoldable pub count_fds : (limit : ℕ) → List Dup → (i total_fd_use : ℕ) → Option ℕ
count_fds limit [] i total = if ltb i limit then none else some total
count_fds limit (used ∷ answers) i total =
    let rest = count_fds limit answers ((i + 1) % u32) ((total + 1) % u32) in
    if ltb i limit then rest else some total
count_fds limit (emfile ∷ answers) i total =
    let rest = count_fds limit answers ((limit % u32 + 1) % u32) (limit % u32) in
    if ltb i limit then rest else some total
count_fds limit (ebadf ∷ answers) i total =
    let rest = count_fds limit answers ((i + 1) % u32) total in
    if ltb i limit then rest else some total
count_fds limit (eintr ∷ answers) i total =
    let rest = count_fds limit answers (((i + 4294967295) % u32 + 1) % u32) total in
    if ltb i limit then rest else some total
count_fds limit (other_error ∷ answers) i total =
    let rest = count_fds limit answers ((i + 1) % u32) total in
    if ltb i limit then rest else some total

-- `%d` is given a limit below 2 ^ 31.
abbrev pub fd_line : (target : Bytes) → (limit : ℕ) → Option ℕ → Option Bytes
fd_line target limit none = none
fd_line target limit (some total) = some (
    irc_send (
      codes "PRIVMSG "
      ++ (target
          ++ (codes " :Total open FD: " ++ (decimal total ++ (codes "/" ++ decimal limit))))))

-- `limit` is what getrlimit() gives, `error_text` the string of its error.
unfoldable pub fdstats_output :
    (target error_text : Bytes) → (limit : Option ℕ) → List Dup → Option Bytes
unfolding count_fds
fdstats_output target error_text none answers = some (
    irc_send (
      codes "PRIVMSG "
      ++ (target
          ++ (codes " :FDSTAT -> getrlimit() error retrieving RLIMIT_NOFILE ("
              ++ (error_text ++ codes ")")))))
fdstats_output target error_text (some limit) answers =
    fd_line target limit (count_fds limit answers 0 0)

abbrev pub is_used : Dup → Bool
is_used used = true
is_used emfile = false
is_used ebadf = false
is_used eintr = false
is_used other_error = false

-- The call is not to be tried again.
abbrev pub is_settled : Dup → Bool
is_settled used = true
is_settled emfile = true
is_settled ebadf = true
is_settled eintr = false
is_settled other_error = true

abbrev pub IsNotEmfile : Dup → Type 0
IsNotEmfile used = Unit
IsNotEmfile emfile = ⊥
IsNotEmfile ebadf = Unit
IsNotEmfile eintr = Unit
IsNotEmfile other_error = Unit

used_le_settled :
    (answers : List Dup) → length (select is_used answers) ≤ length (select is_settled answers)
used_le_settled [] = omega arith
used_le_settled (used ∷ answers) = omega (arith, used_le_settled answers)
used_le_settled (emfile ∷ answers) = omega (arith, used_le_settled answers)
used_le_settled (ebadf ∷ answers) = omega (arith, used_le_settled answers)
used_le_settled (eintr ∷ answers) = used_le_settled answers
used_le_settled (other_error ∷ answers) = omega (arith, used_le_settled answers)

module _ (limit : ℕ) (small : limit < 2 ^ 32) where
  count_fds-select :
      (answers : List Dup) (i total : ℕ)
      → All IsNotEmfile answers
      → i + length (select is_settled answers) ≡ limit
      → total ≤ i
      → count_fds limit answers i total ≡ some (total + length (select is_used answers))
  unfolding count_fds
  count_fds-select [] i total a e le =
      let off : ltb i limit ≡ false = ground arith in
      rw off (ap (λ (n : ℕ). some n) (let z : total ≡ total + 0 = omega arith in z))
  count_fds-select (used ∷ answers) i total a e le =
      let on : ltb i limit ≡ true = ground arith in
      let next : (i + 1) % 2 ^ 32 ≡ i + 1 = omega (arith, e, small) in
      let sum : (total + 1) % 2 ^ 32 ≡ total + 1 = omega (arith, e, small, le) in
      let rest =
        count_fds-select answers (i + 1) (total + 1) a.1 (omega (arith, e)) (omega (arith, le)) in
      rw (on, next, sum)
        (rest
          ∙ ap (λ (n : ℕ). some n)
              (let z : total + 1 + length (select is_used answers)
                    ≡ total + suc (length (select is_used answers)) =
                  omega arith in
                z))
  count_fds-select (emfile ∷ answers) i total a e le = absurd a.0
  count_fds-select (ebadf ∷ answers) i total a e le =
      let on : ltb i limit ≡ true = ground arith in
      let next : (i + 1) % 2 ^ 32 ≡ i + 1 = omega (arith, e, small) in
      rw (on, next)
        (count_fds-select answers (i + 1) total a.1 (omega (arith, e)) (omega (arith, le)))
  count_fds-select (other_error ∷ answers) i total a e le =
      let on : ltb i limit ≡ true = ground arith in
      let next : (i + 1) % 2 ^ 32 ≡ i + 1 = omega (arith, e, small) in
      rw (on, next)
        (count_fds-select answers (i + 1) total a.1 (omega (arith, e)) (omega (arith, le)))
  count_fds-select (eintr ∷ answers) i total a e le = elim (Bool-cases (ltb i limit)) [
    | inl on ↦
        let again : ((i + 4294967295) % 2 ^ 32 + 1) % 2 ^ 32 ≡ i = omega (arith, e, small) in
        rw (on, again) (count_fds-select answers i total a.1 e le)
    | inr off ↦
        let ge : limit ≤ i = ground arith in
        let none_used : length (select is_used answers) ≡ 0 =
          omega (arith, e, ge, used_le_settled answers) in
        rw (off, none_used) (ap (λ (n : ℕ). some n) (let z : total ≡ total + 0 = omega arith in z))
  ]

-- Below a limit of 2 ^ 32 descriptors, where dup() is answered once for each of them apart from
-- calls that a signal interrupts, and never with EMFILE, `fdstats_output` reports the number of
-- descriptors in use, each counted once.
pub fdstats_output-select :
    (target error_text : Bytes) (limit : ℕ) (answers : List Dup)
    → limit < 2 ^ 32
    → All IsNotEmfile answers
    → length (select is_settled answers) ≡ limit
    → fdstats_output target error_text (some limit) answers
      ≡ fd_line target limit (some (length (select is_used answers)))
unfolding fdstats_output
fdstats_output-select target error_text limit answers small a e = ap (fd_line target limit) (
    count_fds-select limit small answers 0 0 a (omega (arith, e)) (omega arith)
    ∙ ap (λ (n : ℕ). some n)
        (let z : 0 + length (select is_used answers) ≡ length (select is_used answers) =
            omega arith in
          z))

-- With a limit of 2 ^ 32 descriptors or more, as an unlimited process has, the counter of 32 bits
-- never reaches it: however dup() answers, and however often, the loop goes on.
pub count_fds-endless :
    (limit : ℕ) (answers : List Dup) (i total : ℕ)
    → 2 ^ 32 ≤ limit
    → i < 2 ^ 32
    → count_fds limit answers i total ≡ none
unfolding count_fds
count_fds-endless limit answers i total large lt = by_answers answers i total lt
  where
    below : (j : ℕ) → j < 2 ^ 32 → ltb j limit ≡ true
    below j h = ground (arith, h, large)

    wrapped : (n : ℕ) → n % 2 ^ 32 < 2 ^ 32
    wrapped n = omega arith

    by_answers :
        (answers : List Dup) (i total : ℕ) → i < 2 ^ 32 → count_fds limit answers i total ≡ none
    by_answers [] i total lt = rw (below i lt)
    by_answers (used ∷ ds) i total lt =
        rw (below i lt) (by_answers ds ((i + 1) % u32) ((total + 1) % u32) (wrapped (i + 1)))
    by_answers (emfile ∷ ds) i total lt =
        rw (below i lt)
          (by_answers ds ((limit % u32 + 1) % u32) (limit % u32) (wrapped (limit % u32 + 1)))
    by_answers (ebadf ∷ ds) i total lt =
        rw (below i lt) (by_answers ds ((i + 1) % u32) total (wrapped (i + 1)))
    by_answers (eintr ∷ ds) i total lt = rw (below i lt) (
        by_answers ds (((i + 4294967295) % u32 + 1) % u32) total
          (wrapped ((i + 4294967295) % u32 + 1)))
    by_answers (other_error ∷ ds) i total lt =
        rw (below i lt) (by_answers ds ((i + 1) % u32) total (wrapped (i + 1)))
