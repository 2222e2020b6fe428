-- ===== src/Commands/Timer.antt =====
-- `command_timer`: stopping at the first command that has not timed out is as good as testing all.
use bopm.Prelude.{
  ℕ, ◌+◌, ◌-◌, ◌≤◌, ◌≡◌, refl, inl, inr, Bool, not, List, [], ◌∷◌, arith, ltb, if◌then◌else◌,
  Bool-cases, length, select, All,
}
use bopm.Commands.{Command, State, command_timeout, expire, command_timer}
use bopm.Commands.Queue.{OrderedFrom, IsValid}

abbrev pub is_fresh : ℕ → Command → Bool
is_fresh present cs = not (ltb command_timeout (present - cs.added))

select-fresh :
    (present a : ℕ) (q : List Command)
    → OrderedFrom a q
    → present - a ≤ 180
    → select (is_fresh present) q ≡ q
select-fresh present a [] o h = refl
select-fresh present a (cs ∷ rest) o h = ground (arith, select-fresh present cs.added rest)

expire-select :
    (present lo : ℕ) (q : List Command)
    → OrderedFrom lo q
    → expire present q ≡ select (is_fresh present) q
unfolding expire
expire-select present lo [] o = refl
expire-select present lo (cs ∷ rest) o =
    ground (arith, expire-select present cs.added rest, select-fresh present cs.added rest)

-- In a well-formed state the timer waits until its counter has reached 10, and then removes exactly
-- the commands that were queued more than 180 seconds ago, and restarts the counter.
pub command_timer_lem :
    (now present : ℕ) (s : State)
    → IsValid now s
    → command_timer present s ≡ (
        if ltb s.interval 10
        then record s { interval = s.interval + 1 }
        else record { commands = select (is_fresh present) s.commands; interval = 0 })
unfolding command_timer
command_timer_lem now present s v = elim (Bool-cases (ltb s.interval 10)) [
  | inl early ↦ ground arith
  | inr due ↦ rw (due, expire-select present 0 s.commands v.ordered)
]

expire-OrderedFrom :
    (present lo : ℕ) (q : List Command) → OrderedFrom lo q → OrderedFrom lo (expire present q)
unfolding expire
expire-OrderedFrom present lo [] o = tt
expire-OrderedFrom present lo (cs ∷ rest) o =
    elim (Bool-cases (ltb command_timeout (present - cs.added))) [
      | inl old ↦
          rw old (lower (expire present rest) (expire-OrderedFrom present cs.added rest o.1))
      | inr fresh ↦ rw fresh o
    ]
  where
    lower : (q : List Command) → OrderedFrom cs.added q → OrderedFrom lo q
    lower [] h = tt
    lower (x ∷ q) h = (omega arith, h.1)

expire-All :
    (P : Command → Type 0) (present : ℕ) (q : List Command) → All P q → All P (expire present q)
unfolding expire
expire-All P present [] h = tt
expire-All P present (cs ∷ rest) h = elim (Bool-cases (ltb command_timeout (present - cs.added))) [
  | inl old ↦ rw old (expire-All P present rest h.1)
  | inr fresh ↦ rw fresh h
]

length-expire : (present : ℕ) (q : List Command) → length (expire present q) ≤ length q
unfolding expire
length-expire present [] = omega arith
length-expire present (cs ∷ rest) = ground (arith, length-expire present rest)

pub command_timer-IsValid :
    {now : ℕ} {s : State} (present : ℕ) → IsValid now s → IsValid now (command_timer present s)
unfolding command_timer
command_timer-IsValid {now} {s} present v = elim (Bool-cases (ltb s.interval 10)) [
  | inl early ↦ rw early (record {
    room = v.room;
    known = v.known;
    aged = v.aged;
    ordered = v.ordered;
    counter = ground arith;
  })
  | inr due ↦ rw due (record {
    room = omega (arith, length-expire present s.commands, v.room);
    known = expire-All _ present s.commands v.known;
    aged = expire-All _ present s.commands v.aged;
    ordered = expire-OrderedFrom present 0 s.commands v.ordered;
    counter = omega arith;
  })
]
