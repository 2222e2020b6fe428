-- ===== src/Scan/Exempt.antt =====
-- `scan_checkexempt` and the masks of the scanners, read against what a mask means.
use bopm.Prelude.{
  ◌<◌, ◌≡◌, refl, ◌⊎◌, inl, inr, Bool, true, false, ◌&&◌, ◌||◌, List, [], ◌∷◌, ◌++◌, arith,
  Bool-cases, Bytes, length, All, str_eq, str_case_eq,
}
use mathlib.Core.Bool.{false≢true}
use bopm.Config.{UserConf, ScannerConf}
use bopm.Match.{Outcome, returned, overrun, match}
use bopm.Match.Spec.{Matches}
use bopm.Match.Decides.{match-sound}
use bopm.Scan.Setup.{ScannerStruct}
use bopm.Scan.Connect.{answers, is_match, scan_checkexempt, names_scanner, link_masks, scan_init}

answers-true : (o : Outcome) → answers o ≡ true → o ≡ returned true
answers-true (returned true) e = refl
answers-true (returned false) e = absurd (false≢true e)
answers-true overrun e = absurd (false≢true e)

is_match-Matches :
    (mask name : Bytes) → 0 < length mask → is_match mask name ≡ true → Matches mask name
unfolding is_match
is_match-Matches mask name pos e = match-sound mask name pos (answers-true (match mask name) e)

-- One of the masks matches the user, by the host's name or by its address.
abbrev pub AnyMatches : List Bytes → Bytes → Bytes → Type 0
AnyMatches [] mask ipmask = ⊥
AnyMatches (exempt ∷ rest) mask ipmask =
    Matches exempt mask ⊎ Matches exempt ipmask ⊎ AnyMatches rest mask ipmask

-- A user is exempt only if a mask of the exempt list, none of which is empty, matches the user's
-- mask, with the host's name or with its address.
pub scan_checkexempt-AnyMatches :
    (masks : List Bytes) (mask ipmask : Bytes)
    → All (λ m. 0 < length m) masks
    → scan_checkexempt masks mask ipmask ≡ true
    → AnyMatches masks mask ipmask
unfolding scan_checkexempt
scan_checkexempt-AnyMatches [] mask ipmask h e = absurd (false≢true e)
scan_checkexempt-AnyMatches (exempt ∷ rest) mask ipmask h e =
    elim (Bool-cases (is_match exempt mask)) [
      | inl hit ↦ inl (is_match-Matches exempt mask h.0 hit)
      | inr miss ↦ elim (Bool-cases (is_match exempt ipmask)) [
        | inl hit ↦ inr (inl (is_match-Matches exempt ipmask h.0 hit))
        | inr miss' ↦ inr (inr (scan_checkexempt-AnyMatches rest mask ipmask h.1 (ground arith)))
      ]
    ]

abbrev pub has_mask : Bytes → List Bytes → Bool
has_mask mask [] = false
has_mask mask (m ∷ masks) = str_eq m mask || has_mask mask masks

abbrev pub any_name : Bytes → List Bytes → Bool
any_name name [] = false
any_name name (n ∷ names) = str_case_eq n name || any_name name names

-- Some user block names the scanner, in any case of letters, and lists the mask.
abbrev pub is_linked : Bytes → Bytes → List UserConf → Bool
is_linked name mask [] = false
is_linked name mask (uc ∷ users) =
    (any_name name uc.scanners && has_mask mask uc.masks) || is_linked name mask users

has_mask-append :
    (mask : Bytes) (xs ys : List Bytes)
    → has_mask mask (xs ++ ys) ≡ (has_mask mask xs || has_mask mask ys)
has_mask-append mask [] ys = refl
has_mask-append mask (x ∷ xs) ys = ground (arith, has_mask-append mask xs ys)

names_scanner-any :
    (name : Bytes) (names : List Bytes) → names_scanner name names ≡ any_name name names
unfolding names_scanner
names_scanner-any name [] = refl
names_scanner-any name (n ∷ names) = ground (arith, names_scanner-any name names)

link_masks-is_linked :
    (name mask : Bytes) (users : List UserConf)
    → has_mask mask (link_masks name users) ≡ is_linked name mask users
unfolding link_masks
link_masks-is_linked name mask [] = refl
link_masks-is_linked name mask (uc ∷ users) = ground (
  arith,
  names_scanner-any name uc.scanners,
  link_masks-is_linked name mask users,
  has_mask-append mask uc.masks (link_masks name users),
)

-- The scanners stand for the scanner blocks of the configuration, in order, and each has exactly
-- the masks of the user blocks that name it.
abbrev pub Linked : List ScannerConf → List UserConf → List ScannerStruct → Type 0
Linked [] users [] = Unit
Linked [] users (_ ∷ _) = ⊥
Linked (_ ∷ _) users [] = ⊥
Linked (sc ∷ rest) users (scs ∷ scanners) =
    (scs.name ≡ sc.name)
    × ((mask : Bytes) → has_mask mask scs.masks ≡ is_linked sc.name mask users)
    × Linked rest users scanners

-- `scan_init` makes one scanner of each scanner block, in order, and gives it a mask exactly if a
-- user block names the scanner, in any case of letters, and lists the mask.
pub scan_init-Linked :
    (confs : List ScannerConf) (users : List UserConf) → Linked confs users (scan_init confs users)
unfolding scan_init
scan_init-Linked [] users = tt
scan_init-Linked (sc ∷ rest) users =
    (refl, (λ mask. link_masks-is_linked sc.name mask users), scan_init-Linked rest users)
