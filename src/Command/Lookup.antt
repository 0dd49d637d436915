-- ===== src/Command/Lookup.antt =====
-- Searching ascending commands, and registering one after the other.
use Prim.Native.Nat.{Ordering}
use mathlib.Core.Path.{subst}
use mlib.Prelude.{
  Option-cases, ◌≡◌, ◌≢◌, ◌⊎◌, refl, sym, ◌∙◌, ap, inl, inr, Option, none, some, List, [], ◌∷◌,
  Bool-cases, arith,
}
use mlib.Memory.{Status, ok, failed}
use mlib.Text.{Text, strcmp, is_eq}
use mlib.Text.Order.{strcmp-eq, strcmp_self, strcmp_swap}
use mlib.Lists.{ListHead, IsListHead}
use mlib.Command.{Command, command_register, find_command}
use mlib.Command.Register.{
  Ascending, find-command_register, command_register_refused, command_register-placed, placed,
}

strcmp_trans :
    (s t u : Text) → strcmp s t ≡ Ordering.lt → strcmp t u ≡ Ordering.lt → strcmp s u ≡ Ordering.lt
unfolding strcmp
strcmp_trans [] [] u p q = cc
strcmp_trans [] (d ∷ t) [] p q = cc
strcmp_trans [] (d ∷ t) (e ∷ u) p q = refl
strcmp_trans (c ∷ s) [] u p q = cc
strcmp_trans (c ∷ s) (d ∷ t) [] p q = cc
strcmp_trans (c ∷ s) (d ∷ t) (e ∷ u) p q = ground (arith, strcmp_trans s t u)

module _ {Main : Type 0} where
  -- A name in front of all of them is not among them.
  below_none :
      (name : Text) (c : Command Main) (cmds : List (Command Main))
      → Ascending (c ∷ cmds)
      → strcmp name c.name ≡ Ordering.lt
      → find_command name (c ∷ cmds) ≡ none
  unfolding find_command
  below_none name c [] a lt = ground (arith, strcmp_swap name c.name)
  below_none name c (d ∷ cmds) a lt = ground (
    arith,
    strcmp_swap name c.name,
    below_none name d cmds a.1 (strcmp_trans name c.name d.name lt a.0),
  )

  Ascending-behind :
      (c : Command Main) (cmds : List (Command Main)) → Ascending (c ∷ cmds) → Ascending cmds
  Ascending-behind c [] a = tt
  Ascending-behind c (d ∷ cmds) a = a.1

  placed_new :
      (command : Command Main) (cmds : List (Command Main))
      → Ascending cmds
      → (placed command cmds).0 ≡ ok
      → find_command command.name cmds ≡ none
  unfolding find_command placed
  placed_new command [] a taken = refl
  placed_new command (d ∷ cmds) a taken = ground (
    arith,
    placed_new command cmds (Ascending-behind d cmds a),
    below_none command.name d cmds a,
    strcmp-eq d.name command.name,
    strcmp_self d.name,
  )

  -- What is there comes before what is registered.
  abbrev pub first_of : Option (Command Main) → Option (Command Main) → Option (Command Main)
  first_of none other = other
  first_of (some cmd) other = some cmd

  pub first_of-none : (o : Option (Command Main)) → first_of o none ≡ o
  first_of-none none = refl
  first_of-none (some cmd) = refl

  pub first_of_assoc :
      (a b c : Option (Command Main)) → first_of (first_of a b) c ≡ first_of a (first_of b c)
  first_of_assoc none b c = refl
  first_of_assoc (some cmd) b c = refl

  pub find-cons :
      (command : Command Main) (cmds : List (Command Main)) (name : Text)
      → find_command name (command ∷ cmds)
        ≡ first_of (find_command name (command ∷ [])) (find_command name cmds)
  unfolding find_command
  find-cons command cmds name = elim (Bool-cases (is_eq (strcmp command.name name))) [
    | inl same ↦ rw same refl
    | inr other ↦ rw other refl
  ]

  module _ {h : ListHead} (k : IsListHead h) where
    Status-cases :
        (command : Command Main) (cmds : List (Command Main))
        → ((command_register h command cmds).0 ≡ ok)
          ⊎ ((command_register h command cmds).0 ≡ failed)
    Status-cases command cmds = go (command_register h command cmds).0
      where
        go : (s : Status) → (s ≡ ok) ⊎ (s ≡ failed)
        go ok = inl refl
        go failed = inr refl

    pub find-registered :
        (command : Command Main) (cmds : List (Command Main)) (name : Text)
        → Ascending cmds
        → find_command name (command_register h command cmds).1
          ≡ first_of (find_command name cmds) (find_command name (command ∷ []))
    unfolding find_command
    find-registered command cmds name a = elim (Status-cases command cmds) [
      | inl taken ↦
          let found = find-command_register k command cmds name taken in
          let new =
            placed_new command cmds a
              (ap (λ r. r.0) (sym (command_register-placed k command cmds)) ∙ taken) in
          elim (Bool-cases (is_eq (strcmp command.name name))) [
            | inl same ↦
                let eq = strcmp-eq command.name name (ground (arith, same)) in
                let absent = subst (λ (n : Text). find_command n cmds ≡ none) eq new in
                rw (found, same, absent) refl
            | inr other ↦ rw (found, other) (sym (first_of-none (find_command name cmds)))
          ]
      | inr refused ↦
          let (left, there) = command_register_refused k command cmds refused in
          rw left (elim (Bool-cases (is_eq (strcmp command.name name))) [
            | inl same ↦
                let eq = strcmp-eq command.name name (ground (arith, same)) in
                let present = subst (λ (n : Text). find_command n cmds ≢ none) eq there in
                elim (Option-cases (find_command name cmds)) [
                  | inl absent ↦ absurd (present absent)
                  | inr (cmd, found) ↦ rw found refl
                ]
            | inr other ↦ rw other (sym (first_of-none (find_command name cmds)))
          ])
    ]
