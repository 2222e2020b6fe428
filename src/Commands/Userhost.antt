-- ===== src/Commands/Userhost.antt =====
-- `command_userhost`: only an operator's commands run, and the sender's commands leave the queue.
use bopm.Prelude.{
  ℕ, zero, suc, ◌≤◌, ◌<◌, ◌≡◌, refl, ◌≢◌, inl, inr, Bool, true, false, not, Option, none, some,
  List, [], ◌∷◌, ◌++◌, map, arith, ◌==◌, if◌then◌else◌, Bool-cases, Option-cases, Bytes, select,
  All, str_eq, length-select-le, split_at, split_at-append, Lacks,
}
use mathlib.Core.List.{append_assoc}
use bopm.Commands.{
  Command, State, call_of, Reply, done, overrun, nick_and_flag, run_commands, finish_userhost,
  command_userhost, handler,
}
use bopm.Commands.Queue.{OrderedFrom, IsValid}

abbrev pub is_from : Bytes → Command → Bool
is_from nick cs = str_eq cs.irc_nick nick

abbrev pub is_other : Bytes → Command → Bool
is_other nick cs = not (str_eq cs.irc_nick nick)

run_commands-select :
    (nick : Bytes) (oper : Bool) (q : List Command)
    → run_commands nick oper q
      ≡ (select (is_other nick) q, (if oper then map call_of (select (is_from nick) q) else []))
unfolding run_commands
run_commands-select nick true [] = refl
run_commands-select nick false [] = refl
run_commands-select nick true (cs ∷ rest) = elim (Bool-cases (str_eq cs.irc_nick nick)) [
  | inl same ↦ rw (run_commands-select nick true rest) (rw same)
  | inr other ↦ rw (run_commands-select nick true rest) (rw other)
]
run_commands-select nick false (cs ∷ rest) = elim (Bool-cases (str_eq cs.irc_nick nick)) [
  | inl same ↦ rw (run_commands-select nick false rest) (rw same)
  | inr other ↦ rw (run_commands-select nick false rest) (rw other)
]

nick_and_flag-last :
    (init : Bytes) (c : ℕ)
    → nick_and_flag (init ++ c ∷ [])
      ≡ (if c == b'*' then some (init, true) else some (init ++ c ∷ [], false))
unfolding nick_and_flag
nick_and_flag-last [] c = refl
nick_and_flag-last (a ∷ []) c = ground arith
nick_and_flag-last (a ∷ b ∷ init) c = ground (arith, nick_and_flag-last (b ∷ init) c)

-- The byte in front of the first `=` of the reply, `c`, decides. If it is `*`, the sender with the
-- nick in front of it is an operator: the commands that wait for that nick are called, in the
-- order of the queue. If it is another byte, which belongs to the nick, no command is called.
-- Either way all commands of that nick leave the queue, and the others stay in their order.
pub command_userhost_lem :
    (init : Bytes) (c : ℕ) (rest : Bytes) (s : State)
    → Lacks b'=' (init ++ c ∷ [])
    → command_userhost (init ++ c ∷ b'=' ∷ rest) s ≡ (
        if c == b'*'
        then done
            (record s { commands = select (is_other init) s.commands })
            (map call_of (select (is_from init) s.commands))
        else done (record s { commands = select (is_other (init ++ c ∷ [])) s.commands }) [])
unfolding command_userhost finish_userhost
command_userhost_lem init c rest s h =
    let e : init ++ c ∷ b'=' ∷ rest ≡ (init ++ c ∷ []) ++ b'=' ∷ rest =
      rw (append_assoc init (c ∷ []) (b'=' ∷ rest)) in
    rw e (
      ground (
        arith,
        split_at-append b'=' (init ++ c ∷ []) rest h,
        nick_and_flag-last init c,
        run_commands-select init true s.commands,
        run_commands-select (init ++ c ∷ []) false s.commands,
      ))

-- A reply that begins with `=` makes the code read the byte in front of it.
pub command_userhost-no_nick :
    (rest : Bytes) (s : State) → command_userhost (b'=' ∷ rest) s ≡ overrun
unfolding command_userhost split_at
command_userhost-no_nick rest s = refl

-- What a reply leaves is well-formed, and each call has a handler.
abbrev pub Good : ℕ → Reply → Type 0
Good now (done s calls) = IsValid now s × All (λ call. handler call.type ≢ none) calls
Good now overrun = Unit

handler-known : (type : ℕ) → type < 6 → handler type ≢ none
unfolding handler
handler-known zero h = cc
handler-known (suc zero) h = cc
handler-known (suc (suc zero)) h = cc
handler-known (suc (suc (suc zero))) h = cc
handler-known (suc (suc (suc (suc zero)))) h = cc
handler-known (suc (suc (suc (suc (suc zero))))) h = cc
handler-known (suc (suc (suc (suc (suc (suc n)))))) h = absurd (omega arith)

select-All :
    (P : Command → Type 0) (p : Command → Bool) (q : List Command) → All P q → All P (select p q)
select-All P p [] h = tt
select-All P p (cs ∷ rest) h = elim (Bool-cases (p cs)) [
  | inl keep ↦ rw keep (h.0, select-All P p rest h.1)
  | inr drop ↦ rw drop (select-All P p rest h.1)
]

lower_first : (lo hi : ℕ) (q : List Command) → lo ≤ hi → OrderedFrom hi q → OrderedFrom lo q
lower_first lo hi [] h o = tt
lower_first lo hi (cs ∷ rest) h o = (omega arith, o.1)

select-OrderedFrom :
    (p : Command → Bool) (lo : ℕ) (q : List Command)
    → OrderedFrom lo q
    → OrderedFrom lo (select p q)
select-OrderedFrom p lo [] o = tt
select-OrderedFrom p lo (cs ∷ rest) o = elim (Bool-cases (p cs)) [
  | inl keep ↦ rw keep (o.0, select-OrderedFrom p cs.added rest o.1)
  | inr drop ↦
      rw drop (lower_first lo cs.added (select p rest) o.0 (select-OrderedFrom p cs.added rest o.1))
]

select-IsValid :
    {now : ℕ} {s : State} (p : Command → Bool)
    → IsValid now s
    → IsValid now (record s { commands = select p s.commands })
select-IsValid {s} p v = record {
  room = omega (arith, length-select-le p s.commands, v.room);
  known = select-All _ p s.commands v.known;
  aged = select-All _ p s.commands v.aged;
  ordered = select-OrderedFrom p 0 s.commands v.ordered;
  counter = v.counter;
}

calls_known :
    (q : List Command)
    → All (λ cs. cs.type < 6) q
    → All (λ call. handler call.type ≢ none) (map call_of q)
calls_known [] h = tt
calls_known (cs ∷ rest) h = (handler-known cs.type h.0, calls_known rest h.1)

finish_userhost-Good :
    {now : ℕ} (s : State) (flagged : Option (Bytes × Bool))
    → IsValid now s
    → Good now (finish_userhost s flagged)
unfolding finish_userhost
finish_userhost-Good s none v = tt
finish_userhost-Good s (some (nick, true)) v = rw (run_commands-select nick true s.commands) (
  select-IsValid (is_other nick) v,
  calls_known (select (is_from nick) s.commands) (select-All _ (is_from nick) s.commands v.known),
)
finish_userhost-Good s (some (nick, false)) v =
    rw (run_commands-select nick false s.commands) (select-IsValid (is_other nick) v, tt)

-- Whatever the reply holds, if the code does not fault then the state that it leaves is
-- well-formed, and every call that it makes is of a command with a handler.
pub command_userhost-Good :
    {now : ℕ} (reply : Bytes) (s : State) → IsValid now s → Good now (command_userhost reply s)
unfolding command_userhost
command_userhost-Good reply s v = elim (Option-cases (split_at b'=' reply)) [
  | inl e ↦ rw (e, command_userhost) (v, tt)
  | inr (parts, e) ↦ rw (e, command_userhost) (finish_userhost-Good s (nick_and_flag parts.0) v)
]
