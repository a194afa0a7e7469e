-- ===== src/Router/Run.antt =====
-- What a call ends in. The C program has no exceptions: a fault is a behaviour that it has instead of
-- a result.

-- A null pointer that is followed, an access outside of a block of memory, and a lock that its holder waits for.
pub data Fault : Type 0 where
  null_pointer out_of_bounds deadlock : Fault

pub data Run {ℓ} (A : Type ℓ) : Type ℓ where
  ok : A → Run A
  fault : Fault → Run A

infixl 5 ◌>>=◌
abbrev pub ◌>>=◌ {ℓ κ} : {A : Type ℓ} {B : Type κ} → Run A → (A → Run B) → Run B
ok a >>= f = f a
fault e >>= f = fault e
