-- ===== src/StateMachine/Activity.antt =====
-- What make_active changes.
use espp.Prelude.{
  ℕ, zero, suc, ◌<◌, ◌≡◌, ◌≢◌, inl, inr, refl, sym, ap, ◌∙◌, ◌==◌, true, false, Option, none, some,
  List, [], ◌∷◌, arith, Option-cases, Bool-cases, ==_iff,
}
use mathlib.Core.Bool.{false≢true}
use espp.StateMachine.{Machine, plain, active_child, make_active, set_active_child}
use espp.StateMachine.Path.{Down, at_leaf, below, IsTree}

differ : (x p : ℕ) → x ≢ p → (x == p) ≡ false
differ x p h = ground (arith, h)

same : (p : ℕ) → (p == p) ≡ true
same p = ground arith

active_child-other :
    (m : Machine) (p x : ℕ) (child : Option ℕ)
    → x ≢ p
    → active_child (set_active_child p child m) x ≡ active_child m x
unfolding active_child
active_child-other m p x child h = rw (active_child, differ x p h) refl

active_child-same :
    (m : Machine) (p c : ℕ) → c ≢ p → active_child (set_active_child p (some c) m) p ≡ some c
unfolding active_child
active_child-same m p c h = rw (active_child, same p, differ c p h) refl

-- A path does not notice a change above it.
Down-above :
    (m : Machine) (depth : ℕ → ℕ) (height p : ℕ) (child : Option ℕ)
    → IsTree m depth height
    → (s : ℕ) (path : List ℕ) (leaf : ℕ) → Down m s path leaf
    → depth p < depth s
    → Down (set_active_child p child m) s path leaf
Down-above m depth height p child t _ _ _ (at_leaf s e) h =
    at_leaf s (active_child-other m p s child (λ q. omega (arith, ap depth q, h)) ∙ e)
Down-above m depth height p child t _ _ _ (below s c path leaf e d) h =
    below s c path leaf (active_child-other m p s child (λ q. omega (arith, ap depth q, h)) ∙ e) (
      Down-above m depth height p child t c path leaf d
        (omega (arith, h, t.deeper c s (t.child s c e))))

differ-false : (x p : ℕ) → (x == p) ≡ false → x ≢ p
differ-false x p q r = false≢true (sym q ∙ (==_iff x p).1 r)

deeper-differs :
    (m : Machine) (depth : ℕ → ℕ) (height p s : ℕ)
    → IsTree m depth height
    → m.parent_state s ≡ some p
    → s ≢ p
deeper-differs m depth height p s t e q = omega (arith, ap depth q, t.deeper s p e)

pub some-value {ℓ} : {A : Type ℓ} (a b : A) → some a ≡ some b → a ≡ b
some-value a b e = cc (e)

child-set :
    (m : Machine) (p s x c : ℕ)
    → m.parent_state s ≡ some p
    → x ≡ p
    → s ≢ p
    → active_child (set_active_child p (some s) m) x ≡ some c
    → m.parent_state c ≡ some x
child-set m p s x c e xp sp h =
    let sc : some s ≡ some c =
      sym (active_child-same m p s sp)
      ∙ ap (active_child (set_active_child p (some s) m)) (sym xp)
      ∙ h in
    ap m.parent_state (sym (some-value s c sc)) ∙ e ∙ ap some (sym xp)

child-kept :
    (m : Machine) (depth : ℕ → ℕ) (height p s : ℕ)
    → IsTree m depth height
    → m.parent_state s ≡ some p
    → (x c : ℕ) → active_child (set_active_child p (some s) m) x ≡ some c
    → m.parent_state c ≡ some x
child-kept m depth height p s t e x c h = elim (Bool-cases (x == p)) [
  | inl q ↦ child-set m p s x c e ((==_iff x p).0 q) (deeper-differs m depth height p s t e) h
  | inr q ↦ t.child x c (sym (active_child-other m p x (some s) (λ r. differ-false x p q r)) ∙ h)
]

set_active_child-IsTree :
    (m : Machine) (depth : ℕ → ℕ) (height p s : ℕ)
    → IsTree m depth height
    → m.parent_state s ≡ some p
    → IsTree (set_active_child p (some s) m) depth height
set_active_child-IsTree m depth height p s t e = record {
  deeper = t.deeper;
  bounded = t.bounded;
  child = child-kept m depth height p s t e;
}

-- In a tree of states in which `s` and all states with children are plain, and with more fuel than
-- the depth of `s`: make_active ends without a call, the machine is a tree again, and from a state
-- without a parent the active children lead to the active leaf of `s`.
pub make_active-Down :
    (fuel : ℕ) (m : Machine) (depth : ℕ → ℕ) (height s : ℕ) (path : List ℕ) (leaf : ℕ)
    → IsTree m depth height
    → m.kind s ≡ plain
    → ((x p : ℕ) → m.parent_state x ≡ some p → m.kind p ≡ plain)
    → Down m s path leaf
    → depth s < fuel
    → (m' : Machine) × (root : ℕ) × (way : List ℕ) × (make_active fuel m s ≡ some (m', []))
      × (m.parent_state root ≡ none)
      × Down m' root way leaf
      × IsTree m' depth height
unfolding make_active
make_active-Down zero m depth height s path leaf t k ks d h = absurd (omega (arith, h))
make_active-Down (suc fuel) m depth height s path leaf t k ks d h =
    elim (Option-cases (m.parent_state s)) [
      | inl e ↦ (m, s, path, rw (make_active, e) refl, e, d, t)
      | inr (p, e) ↦
          let deep : depth p < depth s = t.deeper s p e in
          let other : s ≢ p = deeper-differs m depth height p s t e in
          let (m', root, way, r, top, down, tree) =
            make_active-Down fuel (set_active_child p (some s) m) depth height p (s ∷ path) leaf
              (set_active_child-IsTree m depth height p s t e) (ks s p e) ks
              (below p s path leaf (active_child-same m p s other)
                (Down-above m depth height p (some s) t s path leaf d deep))
              (omega (arith, deep, h)) in
          (m', root, way, rw (make_active, e, k) r, top, down, tree)
    ]
