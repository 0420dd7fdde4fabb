-- ===== src/Ftp/Rounds.antt =====
-- What holds of a session over any sequence of rounds of its task: task_function of components/ftp/
-- include/ftp_client_session.hpp.
use espp.Prelude.{arith, ℕ, suc, ◌+◌, ◌*◌, ◌≡◌, refl, Bool, not, Option, none, some, List, [], ◌∷◌}
use mathlib.Core.Path.{subst}
use espp.Ftp.Machine.{Host}
use espp.Ftp.State.{Session, Outcome}
use espp.Ftp.Steps.{IsStep, Ends, Ends-if, Ends-crash, Ends-weaken, IsStep-same, IsStep-then}
use espp.Ftp.Safety.{Crashes, request-Good}
use espp.Ftp.{going_on, handle_received, task_function}

module _ {W : Type 0} (host : Host W) where
  going_on-Step :
      (s : Session W) (o : Outcome W)
      → Ends Unit (IsStep 2 s) o
      → Ends Unit (IsStep 2 s) (going_on host o)
  unfolding going_on Ends
  going_on-Step s none h = h
  going_on-Step s (some (b, s1)) h = h

  received-Step :
      (o : Option (List ℕ)) (s : Session W) → Ends Unit (IsStep 2 s) (handle_received host o s)
  unfolding handle_received Ends
  received-Step none s = IsStep-same 2 s s refl refl refl
  received-Step (some []) s = IsStep-same 2 s s refl refl refl
  received-Step (some (c ∷ request)) s = going_on-Step s _ (
      Ends-crash (Crashes host (c ∷ request) s) Unit (IsStep 2 s) _ (λ h. tt)
        (request-Good host (c ∷ request) s))

  round-Step : (s : Session W) → Ends Unit (IsStep 2 s) (task_function host s)
  unfolding task_function Ends
  round-Step s = Ends-if Unit (IsStep 2 s) (not s.socket) _ _ (IsStep-same 2 s s refl refl refl) (
      Ends-if Unit (IsStep 2 s) (not (host.is_connected s.world)) _ _
        (IsStep-same 2 s _ refl refl refl)
        (Ends-weaken Unit (IsStep 2 s) (IsStep 2 (record s { world = (host.receive s.world).1 })) _
          (received-Step ((host.receive s.world).0) _)
          (λ s2 p. IsStep-then 0 2 s _ s2 (IsStep-same 0 s _ refl refl refl) p)))

  task_function-Step :
      (s s1 : Session W) (stop : Bool) → task_function host s ≡ some (stop, s1) → IsStep 2 s s1
  unfolding Ends
  task_function-Step s s1 stop e = subst (Ends Unit (IsStep 2 s)) e (round-Step s)

  -- Rounds of the task, each of which ends; before a round, the host may move to any state.
  pub data Rounds : ℕ → Session W → Session W → Type 0 where
    no_round : (s : Session W) → Rounds 0 s s
    then_round :
        (n : ℕ) (s s1 s2 : Session W) (w : W) (stop : Bool)
        → task_function host (record s { world = w }) ≡ some (stop, s1)
        → Rounds n s1 s2
        → Rounds (suc n) s s2

  -- After any number n of rounds of the task none of which crashes, whatever the host does before
  -- and in each of them, a current directory that was absolute still is, the server's own address
  -- is the same, and the replies sent since are at most 2n.
  pub Rounds-IsStep : (n : ℕ) (s s1 : Session W) → Rounds n s s1 → IsStep (n * 2) s s1
  Rounds-IsStep _ _ _ (no_round s) = IsStep-same 0 s s refl refl refl
  Rounds-IsStep _ _ _ (then_round n s s1 s2 w stop e r) =
      let first : IsStep 2 s s1 =
        IsStep-then 0 2 s (record s { world = w }) s1 (IsStep-same 0 s _ refl refl refl)
          (task_function-Step (record s { world = w }) s1 stop e) in
      let both : IsStep (2 + n * 2) s s2 =
        IsStep-then 2 (n * 2) s s1 s2 first (Rounds-IsStep n s1 s2 r) in
      let count : 2 + n * 2 ≡ suc n * 2 = omega arith in subst (λ k. IsStep k s s2) count both
