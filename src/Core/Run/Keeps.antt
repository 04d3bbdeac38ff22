-- ===== src/Core/Run/Keeps.antt =====
-- Invariants of the hart over the steps of crates/rv64-core/src/cpu.rs: a property that a step keeps
-- whatever it returns, and the rules for the ways that steps are put together.
use lish.Prelude.{Bool, true, false, Option, none, some, if◌then◌else◌, ◌≡◌, refl, arith}
use lish.Core.Exception.{Exception, Result, ok, err}
use lish.Core.Cpu.{Cpu}
use lish.Core.Run.{Run, ◌>>=◌, ◌>>◌, return, throw, get, modify, require, on_bus}

pub record Keeps {M A : Type 0} (P : Cpu → Type 0) (m : Run M A) : Type 0 where
  pub kept : (c : Cpu) (b : M) → P c → P (m c b).1

module _ {M : Type 0} {P : Cpu → Type 0} where
  pub return-Keeps : {A : Type 0} (a : A) → Keeps {M = M} P (return a)
  unfolding return
  return-Keeps a = record { kept = λ c b p. p }

  pub throw-Keeps : {A : Type 0} (e : Exception) → Keeps {M = M} {A = A} P (throw e)
  unfolding throw
  throw-Keeps e = record { kept = λ c b p. p }

  pub get-Keeps : Keeps {M = M} P get
  unfolding get
  get-Keeps = record { kept = λ c b p. p }

  pub modify-Keeps : (f : Cpu → Cpu) → ((c : Cpu) → P c → P (f c)) → Keeps {M = M} P (modify f)
  unfolding modify
  modify-Keeps f k = record { kept = λ c b p. k c p }

  pub on_bus-Keeps : {A : Type 0} (f : M → Result A × M) → Keeps P (on_bus f)
  unfolding on_bus
  on_bus-Keeps f = record { kept = λ c b p. p }

  pub require-Keeps : {A : Type 0} (o : Option A) (e : Exception) → Keeps {M = M} P (require o e)
  unfolding require throw return
  require-Keeps none e = record { kept = λ c b p. p }
  require-Keeps (some a) e = record { kept = λ c b p. p }

  pub bind-Keeps :
      {A B : Type 0} (m : Run M A) (f : A → Run M B)
      → Keeps P m
      → ((a : A) → Keeps P (f a))
      → Keeps P (m >>= f)
  unfolding ◌>>=◌
  bind-Keeps {A = A} m f k l = record { kept = λ c b p. continued c b p (m c b).0 refl }
    where
      continued : (c : Cpu) (b : M) → P c → (r : Result A) → (m c b).0 ≡ r → P ((m >>= f) c b).1
      continued c b p (ok a) e = ground (arith, (l a).kept (m c b).1 (m c b).2 (k.kept c b p))
      continued c b p (err x) e = ground (arith, k.kept c b p)

  pub then-Keeps :
      {B : Type 0} (m : Run M (Unit {0})) (n : Run M B) → Keeps P m → Keeps P n → Keeps P (m >> n)
  unfolding ◌>>◌
  then-Keeps m n k l = bind-Keeps m (λ u. n) k (λ u. l)

  pub if-Keeps :
      {A : Type 0} (t : Bool) (m n : Run M A) → Keeps P m → Keeps P n → Keeps P (if t then m else n)
  if-Keeps true m n k l = k
  if-Keeps false m n k l = l

pub ruleset keeping = (
  return-Keeps, throw-Keeps, get-Keeps, modify-Keeps, on_bus-Keeps, require-Keeps, bind-Keeps,
  then-Keeps, if-Keeps,
)
