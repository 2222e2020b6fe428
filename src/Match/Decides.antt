-- ===== src/Match/Decides.antt =====
-- The loop of `match` decides `Matches`: an invariant of its rounds, kept by each branch.
use bopm.Prelude.{
  ℕ, zero, suc, ◌+◌, ◌*◌, ◌≤◌, ◌<◌, ◌≡◌, refl, ◌↔◌, inl, inr, true, false, not, ◌&&◌, some, [], ◌∷◌,
  arith, ◌==◌, Bool-cases, Option-cases, ◌∙◌, Bytes, length,
}
use bopm.Match.{
  Outcome, returned, overrun, Saved, unset, wild, Round, retry, compare_bytes, past_mask, test_ends,
  round, loop, match, match_max_calls, starts_with_star, trailing_star, skip_stars,
}
use bopm.Match.Table.{to_lower, to_lower-eq-lower_ascii}
use bopm.Match.Spec.{
  star, any_byte, fits, Matches, empty, byte, leave, take, byte_inv, not-byte-nil, must_take,
  star_at_end, drop_byte, star-any_byte, star-all,
}
use bopm.Match.Places.{
  skip_stars-length, skip_stars-lt, skip_stars-stops, skip_stars-Matches, skip_stars-none,
  star-rest, trailing_star-any_byte, trailing_star-none,
}

-- An answer of 1 is right, an answer of 0 is right if `Enough` calls were allowed, and no byte
-- outside the two strings is read.
abbrev pub Decides : Type 0 → Type 0 → Outcome → Type 0
Decides Enough G (returned true) = G
Decides Enough G (returned false) = Enough → ¬ G
Decides Enough G overrun = ⊥

weaken : (E E' G : Type 0) (o : Outcome) → (E' → E) → Decides E G o → Decides E' G o
weaken E E' G (returned true) f d = d
weaken E E' G (returned false) f d = λ e. d (f e)
weaken E E' G overrun f d = d

fit :
    (c x : ℕ)
    → (c == star) ≡ false
    → (not (to_lower c == to_lower x) && not (c == any_byte)) ≡ false
    → fits c x ≡ true
fit c x = ground (arith, to_lower-eq-lower_ascii c, to_lower-eq-lower_ascii x)

unfit :
    (c x : ℕ) → (not (to_lower c == to_lower x) && not (c == any_byte)) ≡ true → fits c x ≡ false
unfit c x = ground (arith, to_lower-eq-lower_ascii c, to_lower-eq-lower_ascii x)

-- `G` is the question asked at the start, of a mask of `L` bytes.
module _ (G : Type 0) (L : ℕ) where
  abbrev SavedHolds : ℕ → Bytes → Bytes → Saved → Type 0
  SavedHolds t rest n unset = G → Matches rest n
  SavedHolds t rest n (wild b r na) =
      (G ↔ Matches (star ∷ r) na)
      × (Matches r na → Matches rest n)
      × (length na + length rest ≡ length n + length r)
      × (length n ≤ length na)
      × (length na ≤ t)
      × (length b + length r ≡ L)
      × (starts_with_star r ≡ false)

  -- `t` bounds the text that a star may still be tried at.
  record Inv (t : ℕ) (before rest n : Bytes) (saved : Saved) : Type 0 where
    now : Matches rest n → G
    later : G → Matches (star ∷ rest) n
    kept : SavedHolds t rest n saved
    tail : trailing_star before ≡ some true → Matches (star ∷ rest) n → G
    text : length n ≤ t
    whole : length before + length rest ≡ L

  Inv-restart :
      {t : ℕ} {b r n : Bytes}
      → G ↔ Matches (star ∷ r) n
      → length n ≤ t
      → length b + length r ≡ L
      → starts_with_star r ≡ false
      → Inv t b r n (wild b r n)
  Inv-restart e text whole other = record {
    now = λ d. e.1 (leave (omega arith) d);
    later = e.0;
    kept = (e, λ d. d, omega arith, omega arith, text, whole, other);
    tail = λ _ d. e.1 d;
    text = text;
    whole = whole;
  }

  kept-byte :
      (t c x : ℕ) (rest n : Bytes) (saved : Saved)
      → SavedHolds t (c ∷ rest) (x ∷ n) saved
      → (c == star) ≡ false
      → SavedHolds t rest n saved
  kept-byte t c x rest n unset h o = λ g. (byte_inv (h g) o).1
  kept-byte t c x rest n (wild b r na) (e, down, pace, le, bound, whole, other) o =
      (e, λ d. (byte_inv (down d) o).1, omega arith, omega arith, bound, whole, other)

  tail-byte :
      {t c x : ℕ} {before rest n : Bytes} {saved : Saved}
      → Inv t before (c ∷ rest) (x ∷ n) saved
      → (c == star) ≡ false
      → trailing_star (c ∷ before) ≡ some true
      → Matches (star ∷ rest) n
      → G
  tail-byte {c} {before} {n} i o h d =
      let (e, rest_star) = trailing_star-any_byte before c h o in
      i.tail rest_star (star-any_byte n e d)

  Inv-byte :
      {t c x : ℕ} {before rest n : Bytes} {saved : Saved}
      → Inv t before (c ∷ rest) (x ∷ n) saved
      → (c == star) ≡ false
      → fits c x ≡ true
      → Inv t (c ∷ before) rest n saved
  Inv-byte {t} {c} {x} {rest} {n} {saved} i o f = record {
    now = λ d. i.now (byte f d);
    later = λ g. drop_byte n o (i.later g);
    kept = kept-byte t c x rest n saved i.kept o;
    tail = tail-byte i o;
    text = omega arith;
    whole = omega arith;
  }

  -- Going back to the last star is right where the present place cannot match.
  retry-Decides :
      (E : Type 0) (next : Round) (t : ℕ) {x : ℕ} {before rest n : Bytes} (saved : Saved)
      → Inv t before rest (x ∷ n) saved
      → ¬ Matches rest (x ∷ n)
      → ((t' : ℕ) (b r na : Bytes)
          → t ≡ suc t'
          → length na + length rest ≡ length n + length r
          → length b + length r ≡ L
          → starts_with_star r ≡ false
          → Inv t' b r na (wild b r na)
          → Decides E G (next b r na (wild b r na)))
      → Decides E G (retry saved next)
  unfolding retry
  retry-Decides E next t unset i no_match go = λ _ g. no_match (i.kept g)
  retry-Decides E next t (wild b r []) i no_match go = absurd (omega arith)
  retry-Decides E next zero (wild b r (y ∷ na)) i no_match go = absurd (omega arith)
  retry-Decides E next (suc t) (wild b r (y ∷ na)) i no_match go =
      let (e, down, pace, le, bound, whole, other) = i.kept in
      go t b r na refl (omega arith) whole other (
        Inv-restart
          (λ g. must_take (e.0 g) (λ d. no_match (down d)), λ d. e.1 (take (omega arith) d))
          (omega arith) whole other)

  abbrev Budget : ℕ → ℕ → Bytes → Type 0
  Budget f t rest = t * (L + 1) + length rest + 2 ≤ f

  -- The hypothesis of induction: what is known of the rounds that follow.
  abbrev Next : ℕ → Round → Type 0
  Next f next =
      (t : ℕ) (b r n : Bytes) (saved : Saved)
      → Inv t b r n saved
      → Decides (Budget f t r) G (next b r n saved)

  -- After a retry the budget of the earlier position pays for the whole mask.
  retry-Next :
      (f : ℕ) (next : Round) (t : ℕ) {x : ℕ} {before rest n : Bytes} (saved : Saved)
      → Next f next
      → Inv t before rest (x ∷ n) saved
      → ¬ Matches rest (x ∷ n)
      → Decides (t * (L + 1) + 3 ≤ suc f) G (retry saved next)
  retry-Next f next t saved ih i no_match =
      retry-Decides _ next t saved i no_match λ t' b r na e pace whole other i'.
        weaken _ _ G _ (λ h. rw e at h)
          (weaken _ (suc t' * (L + 1) + 3 ≤ suc f) G _ (λ h. grind arith)
            (ih t' b r na (wild b r na) i'))

  compare-Decides :
      (f : ℕ) (next : Round) (t : ℕ) (before rest n : Bytes) (saved : Saved)
      → Next f next
      → Inv t before rest n saved
      → starts_with_star rest ≡ false
      → (length n ≡ 0 → length rest ≡ 0)
      → Decides
          ((t * (L + 1) + 3 ≤ suc f) × Budget (suc f) t rest)
          G
          (compare_bytes next before rest n saved)
  unfolding compare_bytes starts_with_star
  compare-Decides f next t before [] [] saved ih i other short =
      weaken _ _ G _ (λ h. omega arith) (ih t before [] [] saved i)
  compare-Decides f next t before [] (x ∷ n) saved ih i other short =
      weaken _ _ G _ (λ h. h.0) (retry-Next f next t saved ih i (λ d. elim d [ ]))
  compare-Decides f next t before (c ∷ rest) [] saved ih i other short =
      absurd (omega (arith, short (omega arith)))
  compare-Decides f next t before (c ∷ rest) (x ∷ n) saved ih i other short =
      elim (Bool-cases (not (to_lower c == to_lower x) && not (c == any_byte))) [
        | inl differ ↦ rw differ (
            weaken _ _ G _ (λ h. h.0)
              (retry-Next f next t saved ih i λ d. cc ((byte_inv d other).0, unfit c x differ)))
        | inr same ↦ rw same (
            weaken _ _ G _ (λ h. omega arith)
              (ih t (c ∷ before) rest n saved (Inv-byte i other (fit c x other same))))
      ]

  test_ends-Decides :
      (f : ℕ) (next : Round) (t : ℕ) (before rest n : Bytes) (saved : Saved)
      → 0 < L
      → Next f next
      → Inv t before rest n saved
      → starts_with_star rest ≡ false
      → Decides (Budget (suc f) t rest) G (test_ends next before rest n saved)
  unfolding test_ends past_mask starts_with_star
  test_ends-Decides f next t before [] [] saved pos ih i other = i.now empty
  test_ends-Decides f next t before [] (x ∷ n) saved pos ih i other =
      elim (Option-cases (trailing_star before)) [
        | inl e ↦ absurd (omega (arith, trailing_star-none before e, i.whole))
        | inr (true, e) ↦ rw e (i.tail e (star-all (x ∷ n)))
        | inr (false, e) ↦ rw e (
            retry-Decides _ (compare_bytes next) t saved i (λ d. elim d [ ])
              λ t' b r na e' pace whole o i'.
                weaken _ _ G _ (λ h. (rw e' at h))
                  (weaken _ (Budget (suc f) (suc t') []) G _ (λ h. (grind arith, grind arith))
                    (compare-Decides f next t' b r na (wild b r na) ih i' o (λ z. omega arith))))
      ]
  test_ends-Decides f next t before (c ∷ rest) [] saved pos ih i other =
      rw (skip_stars-none before rest c other) (λ _ g. not-byte-nil (star_at_end (i.later g)) other)
  test_ends-Decides f next t before (c ∷ rest) (x ∷ n) saved pos ih i other =
      weaken _ _ G _ (λ h. (omega arith, h))
        (compare-Decides f next t before (c ∷ rest) (x ∷ n) saved ih i other (λ z. omega arith))

  round-Decides :
      (f : ℕ) (next : Round) (t : ℕ) (before rest n : Bytes) (saved : Saved)
      → 0 < L
      → Next f next
      → Inv t before rest n saved
      → Decides (Budget (suc f) t rest) G (round next before rest n saved)
  unfolding round
  round-Decides f next t before rest n saved pos ih i = elim (Bool-cases (starts_with_star rest)) [
    | inr other ↦ rw other (test_ends-Decides f next t before rest n saved pos ih i other)
    | inl starry ↦ rw starry (
        let b = (skip_stars before rest).0 in
        let r = (skip_stars before rest).1 in
        let one_star = skip_stars-Matches before rest {s = n} in
        let e : G ↔ Matches (star ∷ r) n =
          (λ g. one_star.1 (i.later g), λ d. i.now (star-rest rest starry (one_star.0 d))) in
        weaken _ _ G _ (λ h. omega (arith, skip_stars-lt before rest starry))
          (test_ends-Decides f next t b r n (wild b r n) pos ih
            (Inv-restart e i.text (skip_stars-length before rest ∙ i.whole)
              (skip_stars-stops before rest))
            (skip_stars-stops before rest)))
  ]

  loop-Decides : (f : ℕ) → 0 < L → Next f (loop f)
  unfolding loop
  loop-Decides zero pos t before rest n saved i = λ h. absurd (omega arith)
  loop-Decides (suc f) pos t before rest n saved i =
      round-Decides f (loop f) t before rest n saved pos (loop-Decides f pos) i

start : (mask name : Bytes) → Inv (Matches mask name) (length mask) (length name) [] mask name unset
unfolding trailing_star
start mask name = record {
  now = λ d. d;
  later = λ d. leave (omega arith) d;
  kept = λ d. d;
  tail = λ h d. absurd (ground arith);
  text = omega arith;
  whole = omega arith;
}

complete : {E G : Type 0} (o : Outcome) → E → Decides E G o → G → o ≡ returned true
complete (returned true) e d g = refl
complete (returned false) e d g = absurd (d e g)
complete overrun e d g = absurd d

-- For a mask that is not empty, with any limit on the calls: `match` reads no byte outside the
-- two strings; an answer of 1 means that the name matches the mask; and where the limit is at
-- least length name * (length mask + 1) + length mask + 2, an answer of 0 means that it does not.
pub loop-Decides-Matches :
    (calls : ℕ) (mask name : Bytes)
    → 0 < length mask
    → Decides
        (length name * (length mask + 1) + length mask + 2 ≤ calls)
        (Matches mask name)
        (loop calls [] mask name unset)
loop-Decides-Matches calls mask name pos =
    loop-Decides (Matches mask name) (length mask) calls pos (length name) [] mask name unset
      (start mask name)

-- An answer of 1 is right for every mask that is not empty and every name.
pub match-sound :
    (mask name : Bytes) → 0 < length mask → match mask name ≡ returned true → Matches mask name
unfolding match
match-sound mask name pos e =
    let d = loop-Decides-Matches match_max_calls mask name pos in rw e at d

-- Where 512 calls are enough for the lengths, `match` answers 1 exactly on the names that match.
pub match_iff :
    (mask name : Bytes)
    → 0 < length mask
    → length name * (length mask + 1) + length mask + 2 ≤ 512
    → (match mask name ≡ returned true) ↔ Matches mask name
unfolding match
match_iff mask name pos enough = (
  match-sound mask name pos,
  complete (loop match_max_calls [] mask name unset) enough
      (loop-Decides-Matches match_max_calls mask name pos),
)
