-- ===== src/StateMachine/Path.antt =====
-- The way from a state to its active leaf.
use espp.Prelude.{
  ℕ, zero, suc, ◌+◌, ◌≤◌, ◌<◌, ◌≡◌, inl, inr, refl, none, some, List, [], ◌∷◌, ◌++◌, length, map,
  arith, Option-cases,
}
use espp.StateMachine.{
  Machine, Call, entry, exit, initialize, ticked, active_child, get_active_leaf, tick,
  exit_children, set_deep_history,
}

-- `Down m s path leaf`: following the active children of `s` passes `path` and ends at `leaf`.
pub data Down (m : Machine) : ℕ → List ℕ → ℕ → Type 0 where
  at_leaf : (s : ℕ) → active_child m s ≡ none → Down m s [] s
  below :
      (s c : ℕ) (path : List ℕ) (leaf : ℕ)
      → active_child m s ≡ some c
      → Down m c path leaf
      → Down m s (c ∷ path) leaf

-- The tree of the states: a parent has a smaller depth, no depth is above the height, and the active
-- state is null, the state itself or a child.
pub record IsTree (m : Machine) (depth : ℕ → ℕ) (height : ℕ) : Type 0 where
  pub deeper : (s p : ℕ) → m.parent_state s ≡ some p → depth p < depth s
  pub bounded : (s : ℕ) → depth s ≤ height
  pub child : (s c : ℕ) → active_child m s ≡ some c → m.parent_state c ≡ some s

-- The exits, the innermost state first.
pub exits : List ℕ → List Call
exits [] = []
exits (c ∷ path) = exits path ++ (exit c ∷ [])

-- The four walks at once.
pub record Walks (fuel : ℕ) (m : Machine) (s : ℕ) (path : List ℕ) (leaf : ℕ) : Type 0 where
  pub found : get_active_leaf fuel m s ≡ some leaf
  pub left : exit_children fuel m s ≡ some (exits path)
  pub entered : set_deep_history fuel m s ≡ some (map entry path ++ (initialize leaf ∷ []))
  pub ran : tick fuel m s ≡ some (ticked s ∷ map ticked path)

pub Down-Walks :
    (fuel : ℕ) (m : Machine) (s : ℕ) (path : List ℕ) (leaf : ℕ)
    → Down m s path leaf
    → length path < fuel
    → Walks fuel m s path leaf
unfolding exits get_active_leaf exit_children set_deep_history tick
Down-Walks zero m s path leaf d h = absurd (omega arith)
Down-Walks (suc fuel) m _ _ _ (at_leaf s e) h = record {
  found = rw (get_active_leaf, e) refl;
  left = rw (exit_children, e) refl;
  entered = rw (set_deep_history, e) refl;
  ran = rw (tick, e) refl;
}
Down-Walks (suc fuel) m _ _ _ (below s c path leaf e d) h =
    let r = Down-Walks fuel m c path leaf d (omega arith) in
    record {
      found = rw (get_active_leaf, e) r.found;
      left = rw (exit_children, e, r.left) refl;
      entered = rw (set_deep_history, e, r.entered) refl;
      ran = rw (tick, e, r.ran) refl;
    }

-- In a tree every state has an active leaf.
Down-exists :
    (fuel : ℕ) (m : Machine) (depth : ℕ → ℕ) (height : ℕ) (s : ℕ)
    → IsTree m depth height
    → height < fuel + depth s
    → (path : List ℕ) × (leaf : ℕ) × Down m s path leaf × (length path + depth s ≤ height)
Down-exists zero m depth height s t h = absurd (omega (arith, t.bounded s, h))
Down-exists (suc fuel) m depth height s t h = elim (Option-cases (active_child m s)) [
  | inl e ↦ ([], s, at_leaf s e, omega (arith, t.bounded s))
  | inr (c, e) ↦
      let deep : depth s < depth c = t.deeper c s (t.child s c e) in
      let (path, leaf, d, b) = Down-exists fuel m depth height c t (omega (arith, h, deep)) in
      (c ∷ path, leaf, below s c path leaf e d, omega (arith, b, deep))
]

-- In a tree of states of which none is deeper than `height`, the loops over the active states of a
-- state end with more than `height` as fuel, and agree: there are a path of active children and a
-- leaf at its end such that the leaf is found, a deep history enters the states of the path from the
-- top and initialises the leaf, the same states are exited from the bottom, and all of them tick.
pub Walks-exist :
    (fuel : ℕ) (m : Machine) (depth : ℕ → ℕ) (height : ℕ) (s : ℕ)
    → IsTree m depth height
    → height < fuel
    → (path : List ℕ) × (leaf : ℕ) × Down m s path leaf × Walks fuel m s path leaf
Walks-exist fuel m depth height s t h =
    let (path, leaf, d, b) = Down-exists fuel m depth height s t (omega (arith, h)) in
    (path, leaf, d, Down-Walks fuel m s path leaf d (omega (arith, b, h)))
