-- ===== src/StateMachine/Tests.antt =====
-- A machine of four states: 0 above 1 and 3, and 1 above 2.
use espp.Prelude.{
  ℕ, zero, suc, ◌≡◌, ◌≢◌, ◌==◌, if◌then◌else◌, sym, ap, ◌≤◌, ◌<◌, ◌∷◌, [], List, some, none, Option,
  refl, arith,
}
use espp.StateMachine.{
  Machine, plain, entry, initialize, active_child, make_active, set_deep_history,
}
use espp.StateMachine.Path.{Down, at_leaf, IsTree, Walks, Walks-exist}
use espp.StateMachine.Activity.{some-value, make_active-Down}

abbrev above : ℕ → Option ℕ
above zero = none
above (suc zero) = some 0
above (suc (suc zero)) = some 1
above (suc (suc (suc zero))) = some 0
above (suc (suc (suc (suc x)))) = none

abbrev active : ℕ → Option ℕ
active zero = some 3
active (suc zero) = some 2
active (suc (suc x)) = some (suc (suc x))

abbrev depth : ℕ → ℕ
depth zero = 0
depth (suc zero) = 1
depth (suc (suc zero)) = 2
depth (suc (suc (suc zero))) = 1
depth (suc (suc (suc (suc x)))) = 0

abbrev lamp : Machine
lamp = record { kind = λ s. plain; parent_state = above; active_state = active }

lamp-deeper : (s p : ℕ) → above s ≡ some p → depth p < depth s
lamp-deeper zero p e = ground (arith, e)
lamp-deeper (suc zero) p e = ground (arith, e)
lamp-deeper (suc (suc zero)) p e = ground (arith, e)
lamp-deeper (suc (suc (suc zero))) p e = ground (arith, e)
lamp-deeper (suc (suc (suc (suc x)))) p e = ground (arith, e)

lamp-bounded : (s : ℕ) → depth s ≤ 2
lamp-bounded zero = omega arith
lamp-bounded (suc zero) = omega arith
lamp-bounded (suc (suc zero)) = omega arith
lamp-bounded (suc (suc (suc zero))) = omega arith
lamp-bounded (suc (suc (suc (suc x)))) = omega arith

itself : (x c : ℕ) → (if x == x then none else some x) ≢ some c
itself x c e = ground (arith, e)

lamp-child : (s c : ℕ) → active_child lamp s ≡ some c → above c ≡ some s
unfolding active_child
lamp-child zero c e = ap above (sym (some-value 3 c e))
lamp-child (suc zero) c e = ap above (sym (some-value 2 c e))
lamp-child (suc (suc x)) c e = absurd (itself (suc (suc x)) c e)

lamp-IsTree : IsTree lamp depth 2
lamp-IsTree = record { deeper = lamp-deeper; bounded = lamp-bounded; child = lamp-child }

Walks-exist_example :
    (path : List ℕ) × (leaf : ℕ) × Down lamp 1 path leaf × Walks 3 lamp 1 path leaf
Walks-exist_example = Walks-exist 3 lamp depth 2 1 lamp-IsTree (omega arith)

below_one : Down lamp 2 [] 2
unfolding active_child
below_one = at_leaf 2 refl

-- 2 becomes active although 3 was.
make_active-Down_example :
    (m' : Machine) × (root : ℕ) × (way : List ℕ) × (make_active 3 lamp 2 ≡ some (m', []))
    × (above root ≡ none)
    × Down m' root way 2
    × IsTree m' depth 2
make_active-Down_example =
    make_active-Down 3 lamp depth 2 2 [] 2 lamp-IsTree refl (λ x p e. refl) below_one (omega arith)

deep_history : set_deep_history 3 lamp 1 ≡ some (entry 2 ∷ initialize 2 ∷ [])
unfolding set_deep_history active_child
deep_history = refl
