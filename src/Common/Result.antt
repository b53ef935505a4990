-- ===== src/Common/Result.antt =====
-- Runs of C code that can meet undefined behaviour.
pub data Fault : Type 0 where
  null_pointer past_end assertion uninitialized : Fault

pub data Result (A : Type 0) : Type 0 where
  ok : A → Result A
  fault : Fault → Result A

infixl 5 ◌>>=◌
abbrev pub ◌>>=◌ : {A B : Type 0} → Result A → (A → Result B) → Result B
ok a >>= f = f a
fault e >>= f = fault e
