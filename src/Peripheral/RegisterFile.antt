-- ===== src/Peripheral/RegisterFile.antt =====
-- The devices that the drivers expect on the bus: files of byte registers whose address counts up
-- during a transfer.
use espp.Prelude.{
  ℕ, zero, suc, ◌+◌, ◌*◌, ◌^◌, ◌≤◌, ◌<◌, ◌≡◌, refl, ap₂, ◌⊎◌, inl, inr, Bool, true, Option, none,
  some, List, [], ◌∷◌, ◌++◌, length, if◌then◌else◌, ◌==◌, arith,
}
use espp.Peripheral.{Config, register_bytes}

-- The registers after a transfer that starts at `reg`.
unfoldable pub stored : ℕ → List ℕ → (ℕ → ℕ) → ℕ → ℕ
stored reg [] registers r = registers r
stored reg (byte ∷ bytes) registers r =
    if r == reg then byte else stored (suc reg) bytes registers r

-- `n` registers from `reg` on.
unfoldable pub span : (ℕ → ℕ) → ℕ → ℕ → List ℕ
span registers reg zero = []
span registers reg (suc n) = registers reg ∷ span registers (suc reg) n

-- A write of a register's address and bytes stores them. A read of a register, over
-- `read_register` or, where there is none, over `write_then_read`, shows the bytes from there on and
-- changes no register.
pub record IsRegisterFile {S : Type 0} (config : Config S) (registers : S → ℕ → ℕ) : Type 0 where
  pub writer : Option ℕ → List ℕ → S → Bool × S
  pub writes : config.write ≡ some writer
  pub written : S → ℕ → List ℕ → S
  pub write_law :
      (reg : ℕ) (bytes : List ℕ) (bus : S)
      → reg + length bytes ≤ 2 ^ (8 * config.reg_addr_size)
      → writer config.address (register_bytes config.reg_addr_size reg ++ bytes) bus
        ≡ (true, written bus reg bytes)
  pub write_stores :
      (reg : ℕ) (bytes : List ℕ) (bus : S) (r : ℕ)
      → reg + length bytes ≤ 2 ^ (8 * config.reg_addr_size)
      → registers (written bus reg bytes) r ≡ stored reg bytes (registers bus) r
  pub after_read : S → ℕ → ℕ → S
  pub read_law :
      ((f : Option ℕ → ℕ → List ℕ → S → Bool × List ℕ × S) × (config.read_register ≡ some f)
        × ((reg : ℕ) (buffer : List ℕ) (bus : S)
            → reg + length buffer ≤ 2 ^ (8 * config.reg_addr_size)
            → f config.address reg buffer bus ≡ (
              true,
              span (registers bus) reg (length buffer),
              after_read bus reg (length buffer),
            )))
      ⊎ ((config.read_register ≡ none)
          × ((f : Option ℕ → List ℕ → List ℕ → S → Bool × List ℕ × S) × (config.write_then_read
                ≡ some f)
              × ((reg : ℕ) (buffer : List ℕ) (bus : S)
                  → reg + length buffer ≤ 2 ^ (8 * config.reg_addr_size)
                  → f config.address (register_bytes config.reg_addr_size reg) buffer bus ≡ (
                    true,
                    span (registers bus) reg (length buffer),
                    after_read bus reg (length buffer),
                  ))))
  pub read_keeps :
      (reg n : ℕ) (bus : S) (r : ℕ) → registers (after_read bus reg n) r ≡ registers bus r

pub span-cong : (f g : ℕ → ℕ) (reg n : ℕ) → ((r : ℕ) → f r ≡ g r) → span f reg n ≡ span g reg n
unfolding span
span-cong f g reg zero h = refl
span-cong f g reg (suc n) h = ap₂ ◌∷◌ (h reg) (span-cong f g (suc reg) n h)

-- Registers before the transfer keep what they held.
pub stored-before :
    (reg : ℕ) (bytes : List ℕ) (f : ℕ → ℕ) (r : ℕ) → r < reg → stored reg bytes f r ≡ f r
unfolding stored
stored-before reg [] f r h = refl
stored-before reg (b ∷ bytes) f r h =
    ground (arith, stored-before (suc reg) bytes f r (omega arith))

pub stored-beyond :
    (reg : ℕ) (bytes : List ℕ) (f : ℕ → ℕ) (r : ℕ)
    → reg + length bytes ≤ r
    → stored reg bytes f r ≡ f r
unfolding stored
stored-beyond reg [] f r h = refl
stored-beyond reg (b ∷ bytes) f r h =
    ground (arith, stored-beyond (suc reg) bytes f r (omega arith))

pub stored-here :
    (reg byte : ℕ) (bytes : List ℕ) (f : ℕ → ℕ) → stored reg (byte ∷ bytes) f reg ≡ byte
unfolding stored
stored-here reg byte bytes f = ground arith

stored-later :
    (reg byte : ℕ) (bytes : List ℕ) (f : ℕ → ℕ) (r : ℕ)
    → reg < r
    → stored reg (byte ∷ bytes) f r ≡ stored (suc reg) bytes f r
unfolding stored
stored-later reg byte bytes f r h = ground arith

span-later :
    (reg byte : ℕ) (bytes : List ℕ) (f : ℕ → ℕ) (from n : ℕ)
    → reg < from
    → span (stored reg (byte ∷ bytes) f) from n ≡ span (stored (suc reg) bytes f) from n
unfolding span
span-later reg byte bytes f from zero h = refl
span-later reg byte bytes f from (suc n) h =
    ap₂ ◌∷◌ (stored-later reg byte bytes f from h)
      (span-later reg byte bytes f (suc from) n (omega arith))

-- What was stored is what the registers show.
pub span-stored :
    (reg : ℕ) (bytes : List ℕ) (f : ℕ → ℕ) → span (stored reg bytes f) reg (length bytes) ≡ bytes
unfolding span
span-stored reg [] f = refl
span-stored reg (b ∷ bytes) f =
    rw (span-later reg b bytes f (suc reg) (length bytes) (omega arith))
      (ap₂ ◌∷◌ (stored-here reg b bytes f) (span-stored (suc reg) bytes f))

pub span-stored-apart :
    (reg : ℕ) (bytes : List ℕ) (f : ℕ → ℕ) (from n : ℕ)
    → (from + n ≤ reg) ⊎ (reg + length bytes ≤ from)
    → span (stored reg bytes f) from n ≡ span f from n
unfolding span
span-stored-apart reg bytes f from zero h = refl
span-stored-apart reg bytes f from (suc n) (inl h) =
    ap₂ ◌∷◌ (stored-before reg bytes f from (omega arith))
      (span-stored-apart reg bytes f (suc from) n (inl (omega arith)))
span-stored-apart reg bytes f from (suc n) (inr h) =
    ap₂ ◌∷◌ (stored-beyond reg bytes f from h)
      (span-stored-apart reg bytes f (suc from) n (inr (omega arith)))
