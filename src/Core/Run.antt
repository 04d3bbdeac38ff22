-- ===== src/Core/Run.antt =====
-- Code of crates/rv64-core/src/cpu.rs that takes the hart and the bus by `&mut` and returns a
-- `Result`: a function from both states to the result and both states. `?` is a bind.
pub mod Keeps
use lish.Prelude.{ℕ, Option, none, some}
use lish.Core.Exception.{Exception, Result, ok, err}
use lish.Core.Cpu.{Cpu}
use lish.Core.Bus.{Bus}
use lish.Core.Mmu.{translate}
use lish.Core.Cpu.{Access}

abbrev pub Run : Type 0 → Type 0 → Type 0
Run M A = Cpu → M → Result A × Cpu × M

infixl 5 ◌>>=◌ ◌>>◌
unfoldable pub ◌>>=◌ : {M A B : Type 0} → Run M A → (A → Run M B) → Run M B
◌>>=◌ m f c b = elim (m c b).0 [
  | ok a ↦ f a (m c b).1 (m c b).2
  | err e ↦ (err e, (m c b).1, (m c b).2)
]

unfoldable pub ◌>>◌ : {M B : Type 0} → Run M (Unit {0}) → Run M B → Run M B
m >> k = m >>= λ _. k

unfoldable pub return : {M A : Type 0} → A → Run M A
return a c b = (ok a, c, b)

unfoldable pub throw : {M A : Type 0} → Exception → Run M A
throw e c b = (err e, c, b)

-- The hart, and an assignment to it.
unfoldable pub get : {M : Type 0} → Run M Cpu
get c b = (ok c, c, b)

unfoldable pub modify : {M : Type 0} → (Cpu → Cpu) → Run M (Unit {0})
modify f c b = (ok tt, f c, b)

-- A value computed from the hart, or else an exception.
unfoldable pub require : {M A : Type 0} → Option A → Exception → Run M A
require none e = throw e
require (some a) e = return a

-- A call of the bus.
unfoldable pub on_bus : {M A : Type 0} → (M → Result A × M) → Run M A
on_bus f c b = ((f b).0, c, (f b).1)

unfoldable pub translated : {M : Type 0} → Bus M → ℕ → Access → Run M ℕ
translated bus va access c b = translate bus c b va access
