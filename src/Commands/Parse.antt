-- ===== src/Commands/Parse.antt =====
-- `command_parse`: what is queued, and that the queue keeps its bound and its order.
use bopm.Prelude.{
  ℕ, ◌+◌, ◌≤◌, ◌<◌, ◌≡◌, refl, inl, inr, true, false, Option, none, some, List, [], ◌∷◌, ◌++◌,
  arith, leb, if◌then◌else◌, Bool-cases, Option-cases, Bytes, codes, space, length, All,
  length-append, str_case_eq, split_at, split_at-append, Lacks,
}
use bopm.Config.{ChannelConf}
use bopm.Irc.Send.{irc_send}
use bopm.Commands.{
  Command, State, Handler, command_table, command_max, command_create, lookup_from, name_and_param,
  enqueue, command_parse,
}
use bopm.Commands.Queue.{OrderedFrom, IsValid, All-append, All-mono, OrderedFrom-append}

-- Two names that are equal to a third but for their case are equal but for their case.
str_case_eq-join :
    (a b c : Bytes) → str_case_eq a b ≡ true → str_case_eq a c ≡ true → str_case_eq b c ≡ true
unfolding str_case_eq
str_case_eq-join [] [] [] h k = refl
str_case_eq-join [] [] (z ∷ c) h k = k
str_case_eq-join [] (y ∷ b) c h k = cc
str_case_eq-join (x ∷ a) [] c h k = cc
str_case_eq-join (x ∷ a) (y ∷ b) [] h k = cc
str_case_eq-join (x ∷ a) (y ∷ b) (z ∷ c) h k = ground (arith, str_case_eq-join a b c)

-- `name` is equal to no command of the table.
abbrev Absent : Bytes → List (Bytes × Handler) → Type 0
Absent name [] = Unit
Absent name ((command, _) ∷ table) = (str_case_eq name command ≡ false) × Absent name table

abbrev Distinct : List (Bytes × Handler) → Type 0
Distinct [] = Unit
Distinct ((command, _) ∷ table) = Absent command table × Distinct table

table-Distinct : Distinct command_table
unfolding str_case_eq
table-Distinct = (
  (refl, (refl, (refl, (refl, (refl, tt))))),
  (
    (refl, (refl, (refl, (refl, tt)))),
    ((refl, (refl, (refl, tt))), ((refl, (refl, tt)), ((refl, tt), (tt, tt)))),
  ),
)

Absent-join :
    (name command : Bytes) (table : List (Bytes × Handler))
    → str_case_eq name command ≡ true
    → Absent command table
    → Absent name table
Absent-join name command [] h a = tt
Absent-join name command ((other, _) ∷ table) h a =
    (ground (arith, str_case_eq-join name command other), Absent-join name command table h a.1)

lookup_from-Absent :
    (name : Bytes) (create : ℕ → Command) (i : ℕ) (table : List (Bytes × Handler))
    → Absent name table
    → lookup_from name create i table ≡ []
unfolding lookup_from
lookup_from-Absent name create i [] a = refl
lookup_from-Absent name create i ((other, _) ∷ table) a =
    ground (arith, lookup_from-Absent name create (i + 1) table)

lookup_from-le :
    (name : Bytes) (create : ℕ → Command) (i : ℕ) (table : List (Bytes × Handler))
    → Distinct table
    → length (lookup_from name create i table) ≤ 1
unfolding lookup_from
lookup_from-le name create i [] d = omega arith
lookup_from-le name create i ((other, _) ∷ table) d = elim (Bool-cases (str_case_eq name other)) [
  | inl found ↦
      rw
        (
          found,
          lookup_from-Absent name create (i + 1) table (Absent-join name other table found d.0),
        )
        (omega arith)
  | inr missed ↦ rw missed (lookup_from-le name create (i + 1) table d.1)
]

-- The index of the first command of a table with a given name, in any case of letters.
unfoldable pub index_of : Bytes → ℕ → List (Bytes × Handler) → Option ℕ
index_of name i [] = none
index_of name i ((command, _) ∷ table) =
    if str_case_eq name command then some i else index_of name (i + 1) table

abbrev pub queued : (ℕ → Command) → Option ℕ → List Command
queued create none = []
queued create (some i) = create i ∷ []

lookup_from-index_of :
    (name : Bytes) (create : ℕ → Command) (i : ℕ) (table : List (Bytes × Handler))
    → Distinct table
    → lookup_from name create i table ≡ queued create (index_of name i table)
unfolding lookup_from index_of
lookup_from-index_of name create i [] d = refl
lookup_from-index_of name create i ((other, _) ∷ table) d =
    elim (Bool-cases (str_case_eq name other)) [
      | inl found ↦
          rw
            (
              found,
              lookup_from-Absent name create (i + 1) table (Absent-join name other table found d.0),
            )
            refl
      | inr missed ↦ rw missed (lookup_from-index_of name create (i + 1) table d.1)
    ]

-- With fewer than 64 commands waiting, a message `bot command param` adds one command to the end of
-- the queue if the table has it, in any case of letters, and none otherwise; either way the
-- sender's USERHOST is asked for, and nothing else of the state changes. Where no parameters follow,
-- the command has the empty string as its parameter, and not NULL.
pub command_parse-queues :
    (now : ℕ) (bot rest : Bytes) (target : ChannelConf) (irc_nick : Bytes) (s : State)
    → length s.commands < 64
    → Lacks space bot
    → command_parse now (bot ++ space ∷ rest) target irc_nick s ≡ (
      record s {
        commands =
            s.commands
            ++ queued
                (λ i. command_create i (some (name_and_param rest).1) irc_nick target now)
                (index_of (name_and_param rest).0 0 command_table);
      },
      some (irc_send (codes "USERHOST " ++ irc_nick)),
    )
unfolding command_parse
command_parse-queues now bot rest target irc_nick s room h =
    let some_room : leb command_max (length s.commands) ≡ false = ground arith in
    rw (some_room, split_at-append space bot rest h)
      (rw (lookup_from-index_of (name_and_param rest).0 _ 0 command_table table-Distinct))

lookup_from-All :
    (P : Command → Type 0) (name : Bytes) (create : ℕ → Command) (i bound : ℕ)
    (table : List (Bytes × Handler))
    → ((j : ℕ) → j < bound → P (create j))
    → i + length table ≤ bound
    → All P (lookup_from name create i table)
unfolding lookup_from
lookup_from-All P name create i bound [] f h = tt
lookup_from-All P name create i bound ((other, _) ∷ table) f h =
    elim (Bool-cases (str_case_eq name other)) [
      | inl found ↦
          rw found
            (f i (omega arith), lookup_from-All P name create (i + 1) bound table f (omega arith))
      | inr missed ↦ rw missed (lookup_from-All P name create (i + 1) bound table f (omega arith))
    ]

lookup_from-OrderedFrom :
    (now : ℕ) (name : Bytes) (create : ℕ → Command) (i : ℕ) (table : List (Bytes × Handler))
    → ((j : ℕ) → (create j).added ≡ now)
    → OrderedFrom now (lookup_from name create i table)
unfolding lookup_from
lookup_from-OrderedFrom now name create i [] f = tt
lookup_from-OrderedFrom now name create i ((other, _) ∷ table) f =
    elim (Bool-cases (str_case_eq name other)) [
      | inl found ↦
          rw found
            (omega (arith, f i), rw (f i) (lookup_from-OrderedFrom now name create (i + 1) table f))
      | inr missed ↦ rw missed (lookup_from-OrderedFrom now name create (i + 1) table f)
    ]

enqueue-IsValid :
    {before : ℕ} {s : State} (now : ℕ) (target : ChannelConf) (irc_nick : Bytes)
    (np : Bytes × Bytes)
    → before ≤ now
    → length s.commands < 64
    → IsValid before s
    → IsValid now (enqueue now target irc_nick s np).0
unfolding enqueue command_create
enqueue-IsValid {s} now target irc_nick (name, param) le room v =
    let create : ℕ → Command = λ i. command_create i (some param) irc_nick target now in
    let aged : All (λ cs. cs.added ≤ now) s.commands =
      All-mono _ _ s.commands (λ cs h. omega arith) v.aged in
    record {
      room = omega (
        arith,
        length-append s.commands (lookup_from name create 0 command_table),
        lookup_from-le name create 0 command_table table-Distinct,
      );
      known =
          All-append _ s.commands _ v.known
            (lookup_from-All _ name create 0 6 command_table (λ j h. h) (omega arith));
      aged =
          All-append _ s.commands _ aged
            (lookup_from-All _ name create 0 6 command_table (λ j h. omega arith) (omega arith));
      ordered =
          OrderedFrom-append 0 now s.commands _ v.ordered (omega arith) aged
            (lookup_from-OrderedFrom now name create 0 command_table (λ j. refl));
      counter = v.counter;
    }

pub IsValid-later :
    {before : ℕ} {s : State} (now : ℕ) → before ≤ now → IsValid before s → IsValid now s
IsValid-later {s} now le v = record {
  room = v.room;
  known = v.known;
  aged = All-mono _ _ s.commands (λ cs h. omega arith) v.aged;
  ordered = v.ordered;
  counter = v.counter;
}

-- No message brings the queue above 64 commands, out of the order of their times, or to a command
-- that has no handler, whatever it holds.
pub command_parse-IsValid :
    {before : ℕ} {s : State} (now : ℕ) (command : Bytes) (target : ChannelConf) (irc_nick : Bytes)
    → before ≤ now
    → IsValid before s
    → IsValid now (command_parse now command target irc_nick s).0
unfolding command_parse
command_parse-IsValid {s} now command target irc_nick le v =
    elim (Bool-cases (leb command_max (length s.commands))) [
      | inl full ↦ rw full (IsValid-later now le v)
      | inr room ↦ rw room (elim (Option-cases (split_at space command)) [
        | inl e ↦ rw e (IsValid-later now le v)
        | inr (np, e) ↦
            rw e (enqueue-IsValid now target irc_nick (name_and_param np.1) le (ground arith) v)
      ])
    ]
