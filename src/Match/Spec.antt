-- ===== src/Match/Spec.antt =====
-- What it means for a name to match a mask: `*` stands for any run of bytes, `?` for any byte, and
-- any other byte for itself in either case. No search order is involved.
use bopm.Prelude.{
  ℕ, ◌≡◌, Bool, true, false, not, ◌&&◌, ◌||◌, [], ◌∷◌, arith, ◌==◌, Bytes, lower_ascii,
}

abbrev pub star : ℕ
star = 42

abbrev pub any_byte : ℕ
any_byte = 63

-- A byte of the mask other than `*` accepts a byte of the name.
abbrev pub fits : ℕ → ℕ → Bool
fits c x = not (c == star) && (lower_ascii c == lower_ascii x || c == any_byte)

pub data Matches : Bytes → Bytes → Type 0 where
  empty : Matches [] []
  byte : {c x : ℕ} {m s : Bytes} → fits c x ≡ true → Matches m s → Matches (c ∷ m) (x ∷ s)
  leave : {c : ℕ} {m s : Bytes} → c ≡ star → Matches m s → Matches (c ∷ m) s
  take : {c x : ℕ} {m s : Bytes} → c ≡ star → Matches (c ∷ m) s → Matches (c ∷ m) (x ∷ s)

pub byte_inv :
    {c x : ℕ} {m s : Bytes}
    → Matches (c ∷ m) (x ∷ s)
    → (c == star) ≡ false
    → (fits c x ≡ true) × Matches m s
byte_inv (byte f d) h = (f, d)
byte_inv (leave e d) h = absurd (ground arith)
byte_inv (take e d) h = absurd (ground arith)

pub not-byte-nil : {c : ℕ} {m : Bytes} → Matches (c ∷ m) [] → (c == star) ≡ false → ⊥
not-byte-nil (leave e d) h = ground arith

pub star-star : {c : ℕ} {m s : Bytes} → c ≡ star → Matches (star ∷ c ∷ m) s → Matches (c ∷ m) s
star-star e (leave _ d) = d
star-star e (take _ d) = take e (star-star e d)
star-star e (byte f d) = absurd (ground arith)

-- Under a star the empty run may be added or dropped.
pub must_take :
    {x : ℕ} {m s : Bytes} → Matches (star ∷ m) (x ∷ s) → ¬ Matches m (x ∷ s) → Matches (star ∷ m) s
must_take (leave _ d) n = absurd (n d)
must_take (take _ d) n = d
must_take (byte f d) n = absurd (ground arith)

pub star_at_end : {m : Bytes} → Matches (star ∷ m) [] → Matches m []
star_at_end (leave _ d) = d

-- Where a byte of the mask matches under a star, what follows it begins after the first byte.
pub drop_byte :
    {c x : ℕ} {m : Bytes} (s : Bytes)
    → (c == star) ≡ false
    → Matches (star ∷ c ∷ m) (x ∷ s)
    → Matches (star ∷ m) s
drop_byte s h (leave _ (byte _ d)) = leave (omega arith) d
drop_byte s h (leave _ (leave e d)) = absurd (ground arith)
drop_byte s h (leave _ (take e d)) = absurd (ground arith)
drop_byte [] h (take _ d) = absurd (not-byte-nil (star_at_end d) h)
drop_byte (y ∷ s) h (take _ d) = take (omega arith) (drop_byte s h d)
drop_byte s h (byte f d) = absurd (ground arith)

-- A `?` behind a star takes one byte from the run.
pub star-any_byte :
    {c x : ℕ} {m : Bytes} (s : Bytes)
    → c ≡ any_byte
    → Matches (star ∷ m) s
    → Matches (star ∷ c ∷ m) (x ∷ s)
star-any_byte s e (leave h d) = leave h (byte (ground arith) d)
star-any_byte (y ∷ s) e (take h d) = take h (star-any_byte s e d)
star-any_byte (y ∷ s) e (byte f d) = absurd (ground arith)

pub star-all : (s : Bytes) → Matches (star ∷ []) s
star-all [] = leave (omega arith) empty
star-all (x ∷ s) = take (omega arith) (star-all s)
