-- ===== src/Exec.antt =====
-- The control flow of a request handler: C statements over the driver's state, in which any of them
-- may return early with a status, or wait for an event that never comes.
use mvisor_win_vgpu_driver.Common.{ℕ, Bool, true, false, ltb, ◌^◌}

pub data Result {ℓ} (A : Type ℓ) : Type ℓ where
  ok : A → Result A
  -- `return status`
  leave : ℕ → Result A
  -- `KeWaitForSingleObject` with no time limit that does not return.
  blocked : Result A

abbrev pub Exec {ℓ} : Type ℓ → Type ℓ → Type ℓ
Exec S A = S → Result A × S

-- `NT_SUCCESS`: a status is not negative as a 32-bit integer.
abbrev pub nt_success : ℕ → Bool
nt_success status = ltb status (2 ^ 31)

module _ {ℓ} {S A : Type ℓ} where
  unfoldable pub return : A → Exec S A
  return a s = (ok a, s)

  unfoldable pub leave_with : ℕ → Exec S A
  leave_with status s = (leave status, s)

  unfoldable pub read : (S → A) → Exec S A
  read f s = (ok (f s), s)

module _ {S : Type 0} where
  unfoldable pub modify : (S → S) → Exec S (Unit {0})
  modify f s = (ok tt, f s)

  -- `if (!test) return status;`
  unfoldable pub unless : Bool → ℕ → Exec S (Unit {0})
  unless true status s = (ok tt, s)
  unless false status s = (leave status, s)

module _ {ℓ} {S A B : Type ℓ} where
  abbrev pub resume : Result A → (A → Exec S B) → Exec S B
  resume (ok a) k s = k a s
  resume (leave status) k s = (leave status, s)
  resume blocked k s = (blocked, s)

  infixl 10 ◌>>=◌ ◌>>◌
  -- Opening this opens the statements above too.
  unfoldable pub ◌>>=◌ : Exec S A → (A → Exec S B) → Exec S B
  unfolding return leave_with read modify unless
  ◌>>=◌ m k s = let (r, t) = m s in resume r k t

  abbrev pub ◌>>◌ : Exec S A → Exec S B → Exec S B
  m >> k = m >>= λ _. k
