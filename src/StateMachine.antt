-- ===== src/StateMachine.antt =====
-- The states of a hierarchical state machine: components/state_machine/include/state_base.hpp and
-- the two kinds of history state beside it. A state is a number, a null pointer `none`.
mod Path
mod Activity
mod Tests
use espp.Prelude.{ℕ, zero, suc, ◌==◌, Option, none, some, List, [], ◌∷◌, ◌++◌, if◌then◌else◌}

pub data Kind : Type 0 where
  plain deep_history shallow_history : Kind

-- All the state objects: the class of each, and its two pointers.
pub record Machine : Type 0 where
  pub kind : ℕ → Kind
  pub parent_state : ℕ → Option ℕ
  pub active_state : ℕ → Option ℕ

-- The calls of functions that are generated from a model.
pub data Call : Type 0 where
  entry exit initialize ticked : ℕ → Call

abbrev pub set_active_child : ℕ → Option ℕ → Machine → Machine
set_active_child s child m = record m {
  active_state = λ x. if x == s then child else m.active_state x;
}

abbrev pub set_parent_state : ℕ → Option ℕ → Machine → Machine
set_parent_state s parent m = record m {
  parent_state = λ x. if x == s then parent else m.parent_state x;
}

-- A new state object, with itself as its active state.
unfoldable pub construct : ℕ → Kind → Option ℕ → Machine → Machine
construct s kind parent m = record m {
  kind = λ x. if x == s then kind else m.kind x;
  parent_state = λ x. if x == s then parent else m.parent_state x;
  active_state = λ x. if x == s then some s else m.active_state x;
}

abbrev other : ℕ → Option ℕ → Option ℕ
other s none = none
other s (some c) = if c == s then none else some c

-- The active state, if it is neither null nor the state itself.
unfoldable pub active_child : Machine → ℕ → Option ℕ
active_child m s = other s (m.active_state s)

-- In what follows `none` is fuel that did not suffice.
unfoldable pub get_active_leaf : ℕ → Machine → ℕ → Option ℕ
get_active_leaf zero m s = none
get_active_leaf (suc fuel) m s = elim (active_child m s) [
  | none ↦ some s
  | some c ↦ get_active_leaf fuel m c
]

-- A state that is called with no override of `tick`.
unfoldable pub tick : ℕ → Machine → ℕ → Option (List Call)
tick zero m s = none
tick (suc fuel) m s = elim (active_child m s) [
  | none ↦ some (ticked s ∷ [])
  | some c ↦ elim (tick fuel m c) [ none ↦ none | some calls ↦ some (ticked s ∷ calls) ]
]

unfoldable pub exit_children : ℕ → Machine → ℕ → Option (List Call)
exit_children zero m s = none
exit_children (suc fuel) m s = elim (active_child m s) [
  | none ↦ some []
  | some c ↦ elim (exit_children fuel m c) [
    | none ↦ none
    | some calls ↦ some (calls ++ (exit c ∷ []))
  ]
]

unfoldable pub set_shallow_history : Machine → ℕ → List Call
set_shallow_history m s = elim (active_child m s) [
  | none ↦ initialize s ∷ []
  | some c ↦ entry c ∷ initialize c ∷ []
]

unfoldable pub set_deep_history : ℕ → Machine → ℕ → Option (List Call)
set_deep_history zero m s = none
set_deep_history (suc fuel) m s = elim (active_child m s) [
  | none ↦ some (initialize s ∷ [])
  | some c ↦ elim (set_deep_history fuel m c) [ none ↦ none | some calls ↦ some (entry c ∷ calls) ]
]

-- The machine, and the calls of a history state.
unfoldable pub make_active : ℕ → Machine → ℕ → Option (Machine × List Call)
make_active zero m s = none
make_active (suc fuel) m s = elim (m.parent_state s) [
  | none ↦ some (m, [])
  | some p ↦ elim (m.kind s) [
    | plain ↦ make_active fuel (set_active_child p (some s) m) p
    | deep_history ↦ elim (set_deep_history fuel m p) [ none ↦ none | some calls ↦ some (m, calls) ]
    | shallow_history ↦ some (m, set_shallow_history m p)
  ]
]
