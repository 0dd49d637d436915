-- ===== src/Command/Register.antt =====
-- The order of the commands, and what is found among them.
use Prim.Native.Nat.{Ordering}
use mathlib.Core.List.{append_assoc}
use mlib.Prelude.{
  ◌≡◌, ◌≢◌, ◌⊎◌, refl, sym, ◌∙◌, ap, inl, inr, none, some, List, [], ◌∷◌, ◌++◌, if◌then◌else◌,
  arith,
}
use mlib.Memory.{Status, ok, failed}
use mlib.Text.{Text, strcmp, is_eq}
use mlib.Text.Order.{strcmp-eq, strcmp_self, strcmp_swap}
use mlib.Lists.{ListHead, IsListHead}
use mlib.Command.{Command, register_behind, command_register, find_command}

strcmp-gt : (s t : Text) → strcmp s t ≡ Ordering.gt → strcmp t s ≡ Ordering.lt
unfolding strcmp
strcmp-gt [] [] h = cc
strcmp-gt [] (d ∷ t) h = cc
strcmp-gt (c ∷ s) [] h = refl
strcmp-gt (c ∷ s) (d ∷ t) h = ground (arith, strcmp-gt s t)

Ordering-cases : (o : Ordering) → (o ≡ Ordering.eq) ⊎ (o ≡ Ordering.lt) ⊎ (o ≡ Ordering.gt)
Ordering-cases Ordering.eq = inl refl
Ordering-cases Ordering.lt = inr (inl refl)
Ordering-cases Ordering.gt = inr (inr refl)

module _ {Main : Type 0} where
  -- Where the names put a command: in front of the first that is greater.
  unfoldable pub placed : Command Main → List (Command Main) → Status × List (Command Main)
  placed command [] = (ok, command ∷ [])
  placed command (cmd ∷ cmds) =
      let further = placed command cmds in
      elim (strcmp command.name cmd.name) [
        | Ordering.eq ↦ (failed, cmd ∷ cmds)
        | Ordering.lt ↦ (ok, command ∷ cmd ∷ cmds)
        | Ordering.gt ↦ (further.0, cmd ∷ further.1)
      ]

  -- Each name is less than the next.
  abbrev pub Ascending : List (Command Main) → Type 0
  Ascending [] = Unit
  Ascending (c ∷ []) = Unit
  Ascending (c ∷ d ∷ cmds) = (strcmp c.name d.name ≡ Ordering.lt) × Ascending (d ∷ cmds)

  -- In front of these commands, `c` keeps the order.
  abbrev pub Before : Command Main → List (Command Main) → Type 0
  Before c [] = Unit
  Before c (d ∷ cmds) = strcmp c.name d.name ≡ Ordering.lt

  placed_nil : (command : Command Main) → placed command [] ≡ (ok, command ∷ [])
  unfolding placed
  placed_nil command = refl

  placed_eq :
      (command d : Command Main) (cmds : List (Command Main))
      → strcmp command.name d.name ≡ Ordering.eq
      → placed command (d ∷ cmds) ≡ (failed, d ∷ cmds)
  unfolding placed
  placed_eq command d cmds e = ground arith

  placed_lt :
      (command d : Command Main) (cmds : List (Command Main))
      → strcmp command.name d.name ≡ Ordering.lt
      → placed command (d ∷ cmds) ≡ (ok, command ∷ d ∷ cmds)
  unfolding placed
  placed_lt command d cmds e = ground arith

  placed_gt :
      (command d : Command Main) (cmds : List (Command Main))
      → strcmp command.name d.name ≡ Ordering.gt
      → placed command (d ∷ cmds) ≡ ((placed command cmds).0, d ∷ (placed command cmds).1)
  unfolding placed
  placed_gt command d cmds e = ground arith

  Ascending-cons :
      (c : Command Main) (cmds : List (Command Main))
      → Before c cmds
      → Ascending cmds
      → Ascending (c ∷ cmds)
  Ascending-cons c [] b h = tt
  Ascending-cons c (d ∷ cmds) b h = (b, h)

  Ascending-tail :
      (c : Command Main) (cmds : List (Command Main))
      → Ascending (c ∷ cmds)
      → Before c cmds × Ascending cmds
  Ascending-tail c [] h = (tt, tt)
  Ascending-tail c (d ∷ cmds) h = h

  placed-Before :
      (c command : Command Main) (cmds : List (Command Main))
      → Before c cmds
      → strcmp c.name command.name ≡ Ordering.lt
      → Before c (placed command cmds).1
  unfolding placed
  placed-Before c command [] b lt = lt
  placed-Before c command (d ∷ cmds) b lt = ground arith

  find-placed :
      (command : Command Main) (cmds : List (Command Main)) (name : Text)
      → (placed command cmds).0 ≡ ok
      → find_command name (placed command cmds).1
        ≡ (if is_eq (strcmp command.name name) then some command else find_command name cmds)
  unfolding placed find_command
  find-placed command [] name taken = refl
  find-placed command (d ∷ cmds) name taken = ground (
    arith,
    find-placed command cmds name,
    strcmp-eq command.name name,
    strcmp-eq d.name name,
    strcmp_self name,
  )

  placed_refused :
      (command : Command Main) (cmds : List (Command Main))
      → (placed command cmds).0 ≡ failed
      → ((placed command cmds).1 ≡ cmds) × (find_command command.name cmds ≢ none)
  unfolding placed find_command
  placed_refused command [] h = cc
  placed_refused command (d ∷ cmds) h = ground (
    arith,
    placed_refused command cmds,
    strcmp_swap command.name d.name,
    strcmp-eq command.name d.name,
    strcmp_self d.name,
  )

  placed-Ascending :
      (command : Command Main) (cmds : List (Command Main))
      → Ascending cmds
      → Ascending (placed command cmds).1
  placed-Ascending command [] h = rw (placed_nil command) tt
  placed-Ascending command (d ∷ cmds) h =
      let r = Ascending-tail d cmds h in
      elim (Ordering-cases (strcmp command.name d.name)) [
        | inl e ↦ rw (placed_eq command d cmds e) h
        | inr (inl e) ↦ rw (placed_lt command d cmds e) (e, h)
        | inr (inr e) ↦ rw (placed_gt command d cmds e) (
            Ascending-cons d (placed command cmds).1
              (placed-Before d command cmds r.0 (strcmp-gt command.name d.name e))
              (placed-Ascending command cmds r.1))
      ]

  module _ {h : ListHead} (k : IsListHead h) where
    register_behind-placed :
        (before cmds : List (Command Main)) (command : Command Main)
        → register_behind h before cmds command
          ≡ ((placed command cmds).0, before ++ (placed command cmds).1)
    unfolding register_behind placed
    register_behind-placed before [] command = rw (k.adds_before before command []) refl
    register_behind-placed before (d ∷ cmds) command = ground (
      arith,
      register_behind-placed (before ++ d ∷ []) cmds command,
      k.adds_before before command (d ∷ cmds),
      append_assoc before (d ∷ []) (placed command cmds).1,
    )

    pub command_register-placed :
        (command : Command Main) (cmds : List (Command Main))
        → command_register h command cmds ≡ placed command cmds
    unfolding command_register
    command_register-placed command cmds = register_behind-placed [] cmds command

    -- If the commands are in strictly ascending order of their names, they still are after a
    -- registration, whether it is taken or refused; so no name is registered twice. The list
    -- inserts as include/mlib/list.h documents.
    pub command_register-Ascending :
        (command : Command Main) (cmds : List (Command Main))
        → Ascending cmds
        → Ascending (command_register h command cmds).1
    command_register-Ascending command cmds a =
        rw (command_register-placed command cmds) (placed-Ascending command cmds a)

    -- After a registration that returns 0, with a list that inserts as include/mlib/list.h
    -- documents, the new command is found under its own name, and under every other name what was
    -- found before.
    pub find-command_register :
        (command : Command Main) (cmds : List (Command Main)) (name : Text)
        → (command_register h command cmds).0 ≡ ok
        → find_command name (command_register h command cmds).1
          ≡ (if is_eq (strcmp command.name name) then some command else find_command name cmds)
    find-command_register command cmds name taken = rw (command_register-placed command cmds) (
        find-placed command cmds name
          (ap (λ x. x.0) (sym (command_register-placed command cmds)) ∙ taken))

    -- A registration that returns -1 changes nothing, and the command's name was registered before.
    -- The list inserts as include/mlib/list.h documents.
    pub command_register_refused :
        (command : Command Main) (cmds : List (Command Main))
        → (command_register h command cmds).0 ≡ failed
        → ((command_register h command cmds).1 ≡ cmds) × (find_command command.name cmds ≢ none)
    command_register_refused command cmds refused = rw (command_register-placed command cmds) (
        placed_refused command cmds
          (ap (λ x. x.0) (sym (command_register-placed command cmds)) ∙ refused))
