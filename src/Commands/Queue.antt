-- ===== src/Commands/Queue.antt =====
-- The well-formed states of the command queue.
use bopm.Prelude.{ℕ, ◌≤◌, ◌<◌, List, [], ◌∷◌, ◌++◌, arith, length, All}
use bopm.Commands.{Command, State, command_max}

-- The commands stand in the order of their times, none before `lo`.
abbrev pub OrderedFrom : ℕ → List Command → Type 0
OrderedFrom lo [] = Unit
OrderedFrom lo (cs ∷ rest) = (lo ≤ cs.added) × OrderedFrom cs.added rest

-- `now` is the present time. There are six handlers, and at most 64 commands wait.
pub record IsValid (now : ℕ) (s : State) : Type 0 where
  pub room : length s.commands ≤ command_max
  pub known : All (λ cs. cs.type < 6) s.commands
  pub aged : All (λ cs. cs.added ≤ now) s.commands
  pub ordered : OrderedFrom 0 s.commands
  pub counter : s.interval ≤ 10

pub All-append {ℓ} :
    {A : Type ℓ} (P : A → Type 0) (xs ys : List A) → All P xs → All P ys → All P (xs ++ ys)
All-append P [] ys h k = k
All-append P (x ∷ xs) ys h k = (h.0, All-append P xs ys h.1 k)

pub All-mono {ℓ} :
    {A : Type ℓ} (P Q : A → Type 0) (xs : List A) → ((x : A) → P x → Q x) → All P xs → All Q xs
All-mono P Q [] f h = tt
All-mono P Q (x ∷ xs) f h = (f x h.0, All-mono P Q xs f h.1)

-- Commands added now may stand behind those that were added before.
pub OrderedFrom-append :
    (lo now : ℕ) (xs ys : List Command)
    → OrderedFrom lo xs
    → lo ≤ now
    → All (λ cs. cs.added ≤ now) xs
    → OrderedFrom now ys
    → OrderedFrom lo (xs ++ ys)
OrderedFrom-append lo now [] [] o l a k = tt
OrderedFrom-append lo now [] (y ∷ ys) o l a k = (omega arith, k.1)
OrderedFrom-append lo now (x ∷ xs) ys o l a k =
    (o.0, OrderedFrom-append x.added now xs ys o.1 a.0 a.1 k)
