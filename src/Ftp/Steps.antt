-- ===== src/Ftp/Steps.antt =====
-- What a step of a session keeps, and how it is carried through the combinators of components/ftp/
-- include/ftp_client_session.hpp.
use espp.Prelude.{
  if◌then◌else◌, sym, ℕ, suc, ◌+◌, ◌≤◌, ◌≡◌, refl, sym, ap, ◌∙◌, Bool, true, false, Option, none,
  some, List, [], ◌∷◌, ◌++◌, length, arith, length-append, if◌then◌else◌,
}
use mathlib.Core.List.{append_assoc}
use mathlib.Core.Bool.{false≢true}
use espp.Ftp.FilePath.{is_absolute}
use espp.Ftp.Machine.{Host}
use espp.Ftp.State.{if_test, Session, Outcome, when_true, when_either, send}

pub if_true : {A : Type 0} → (b : Bool) (x y : A) → b ≡ true → (if b then x else y) ≡ x
if_true true x y e = refl
if_true false x y e = absurd (false≢true e)

pub if_false : {A : Type 0} → (b : Bool) (x y : A) → b ≡ false → (if b then x else y) ≡ y
if_false true x y e = absurd (false≢true (sym e))
if_false false x y e = refl

-- `after` is `before` with at most `n` texts more.
unfoldable pub Adds : ℕ → List (List ℕ) → List (List ℕ) → Type 0
Adds n before after = (more : List (List ℕ)) × (after ≡ more ++ before) × (length more ≤ n)

-- The current directory stays absolute, the server's address is kept, and at most `n` replies are
-- sent.
pub record IsStep {W : Type 0} (n : ℕ) (s s1 : Session W) : Type 0 where
  pub stays_absolute :
      is_absolute s.current_directory ≡ true → is_absolute s1.current_directory ≡ true
  pub same_address : s1.local_ip_address ≡ s.local_ip_address
  pub replies : Adds n s.sent s1.sent

pub Adds-same : (n : ℕ) (sent : List (List ℕ)) → Adds n sent sent
unfolding Adds
Adds-same n sent = ([], refl, omega arith)

pub Adds-one :
    (n : ℕ) (text : List ℕ) (before after : List (List ℕ))
    → Adds n before after
    → Adds (suc n) before (text ∷ after)
unfolding Adds
Adds-one n text before after (more, e, h) = (text ∷ more, ap (λ l. text ∷ l) e, omega (arith, h))

pub Adds-then : (n m : ℕ) (a b c : List (List ℕ)) → Adds n a b → Adds m b c → Adds (n + m) a c
unfolding Adds
Adds-then n m a b c (xs, e, h) (ys, f, k) = (
  ys ++ xs,
  f ∙ ap (λ l. ys ++ l) e ∙ sym (append_assoc ys xs a),
  omega (arith, length-append ys xs, h, k),
)

module _ {W : Type 0} where
  -- With the directory, the address and the log of another session.
  pub IsStep-same :
      (n : ℕ) (s s1 : Session W)
      → s1.current_directory ≡ s.current_directory
      → s1.local_ip_address ≡ s.local_ip_address
      → s1.sent ≡ s.sent
      → IsStep n s s1
  IsStep-same n s s1 cd ip log = record {
    stays_absolute = λ h. ap is_absolute cd ∙ h;
    same_address = ip;
    replies = rw (log) (Adds-same n s.sent);
  }

  pub IsStep-then : (n m : ℕ) (a b c : Session W) → IsStep n a b → IsStep m b c → IsStep (n + m) a c
  IsStep-then n m a b c p q = record {
    stays_absolute = λ h. q.stays_absolute (p.stays_absolute h);
    same_address = q.same_address ∙ p.same_address;
    replies = Adds-then n m a.sent b.sent c.sent p.replies q.replies;
  }

  pub IsStep-more : (n : ℕ) (a b : Session W) → IsStep n a b → IsStep (suc n) a b
  unfolding Adds
  IsStep-more n a b p =
      let (more, e, h) = p.replies in
      record {
        stays_absolute = p.stays_absolute;
        same_address = p.same_address;
        replies = (more, e, omega (arith, h));
      }

  -- What holds at the end: `N` after a crash, `P` of the session otherwise.
  unfoldable pub Ends : Type 0 → (Session W → Type 0) → Outcome W → Type 0
  Ends N P none = N
  Ends N P (some (sent, s)) = P s

  module _ (N : Type 0) (P : Session W → Type 0) where
    pub Ends-if :
        (b : Bool) (x y : Outcome W) → Ends N P x → Ends N P y → Ends N P (if b then x else y)
    Ends-if true x y hx hy = hx
    Ends-if false x y hx hy = hy

    pub Ends-test :
        (b : Bool) (x y : Outcome W)
        → (b ≡ true → Ends N P x)
        → (b ≡ false → Ends N P y)
        → Ends N P (if b then x else y)
    Ends-test true x y hx hy = hx refl
    Ends-test false x y hx hy = hy refl

    pub Ends-if_test :
        (o : Option Bool) (x y : Outcome W)
        → (o ≡ none → N)
        → (o ≡ some true → Ends N P x)
        → (o ≡ some false → Ends N P y)
        → Ends N P (if_test o x y)
    unfolding Ends if_test
    Ends-if_test none x y h hx hy = h refl
    Ends-if_test (some true) x y h hx hy = hx refl
    Ends-if_test (some false) x y h hx hy = hy refl

    pub Ends-when :
        (Q : Session W → Type 0) (o : Outcome W) (next : Session W → Outcome W)
        → Ends N Q o
        → ((s : Session W) → Q s → P s)
        → ((s : Session W) → Q s → Ends N P (next s))
        → Ends N P (when_true o next)
    unfolding Ends when_true
    Ends-when Q none next q h k = q
    Ends-when Q (some (false, s)) next q h k = h s q
    Ends-when Q (some (true, s)) next q h k = k s q

    pub Ends-either :
        (Q : Session W → Type 0) (o : Outcome W) (bad good : Session W → Outcome W)
        → Ends N Q o
        → ((s : Session W) → Q s → Ends N P (bad s))
        → ((s : Session W) → Q s → Ends N P (good s))
        → Ends N P (when_either o bad good)
    unfolding Ends when_either
    Ends-either Q none bad good q h k = q
    Ends-either Q (some (false, s)) bad good q h k = h s q
    Ends-either Q (some (true, s)) bad good q h k = k s q

    pub Ends-weaken :
        (Q : Session W → Type 0) (o : Outcome W)
        → Ends N Q o
        → ((s : Session W) → Q s → P s)
        → Ends N P o
    unfolding Ends
    Ends-weaken Q none q h = q
    Ends-weaken Q (some (b, s)) q h = h s q

  pub Ends-crash :
      (N M : Type 0) (P : Session W → Type 0) (o : Outcome W) → (N → M) → Ends N P o → Ends M P o
  unfolding Ends
  Ends-crash N M P none f h = f h
  Ends-crash N M P (some (b, s)) f h = h

  module _ (host : Host W) (N : Type 0) where
    pub send-Step :
        (n : ℕ) (text : List ℕ) (s s1 : Session W)
        → IsStep n s s1
        → Ends N (IsStep (suc n) s) (send host text s1)
    unfolding Ends send
    send-Step n text s s1 p = record {
      stays_absolute = p.stays_absolute;
      same_address = p.same_address;
      replies = Adds-one n text s.sent s1.sent p.replies;
    }
