-- ===== src/Lists.antt =====
-- The calls of include/mlib/list.h, a copy of the Linux kernel's list, are a parameter. A list head
-- is the sequence of the structs that hang on it, and a node in it is the cut between the structs
-- in front of it and the rest.
use mlib.Prelude.{◌≡◌, List, ◌∷◌, ◌++◌}

pub record ListHead : Type 1 where
  -- `list_add_tail(new, node)`: the structs in front of the node, the new one, the node and what
  -- follows. The node is the head itself where nothing follows.
  pub list_add_tail : {A : Type 0} → List A → A → List A → List A
  -- `list_add(new, head)`
  pub list_add : {A : Type 0} → A → List A → List A
  -- `list_del(node)`: the structs in front of the node, the node, and what follows.
  pub list_del : {A : Type 0} → List A → A → List A → List A

-- What the file documents: "Insert a new entry before the specified head", "after the specified
-- head", "deletes entry from list".
pub record IsListHead (h : ListHead) : Type 1 where
  pub adds_before :
      {A : Type 0} (before : List A) (a : A) (after : List A)
      → h.list_add_tail before a after ≡ before ++ a ∷ after
  pub adds_first : {A : Type 0} (a : A) (others : List A) → h.list_add a others ≡ a ∷ others
  pub deletes :
      {A : Type 0} (before : List A) (a : A) (after : List A)
      → h.list_del before a after ≡ before ++ after
