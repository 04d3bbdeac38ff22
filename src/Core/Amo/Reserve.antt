-- ===== src/Core/Amo/Reserve.antt =====
-- Load-reserved and store-conditional, and traps between them: crates/rv64-core/src/cpu.rs.
use lish.Prelude.{ℕ, ◌≡◌, arith, Bool, some, none}
use lish.Core.Exception.{ok}
use lish.Core.Cpu.{Cpu, wr, refresh_jit_tlb_context}
use lish.Core.Bus.{Bus}
use lish.Core.Trap.{take_trap, enter_trap, log_trap}
use lish.Core.Run.{◌>>=◌, ◌>>◌, get, modify}
use lish.Core.Amo.{load_reserved, store_conditional, astore, reserved, release}

take_trap-reservation :
    (c c' : Cpu) (cause tval : ℕ) (is_interrupt : Bool)
    → take_trap c cause tval is_interrupt ≡ some c'
    → c'.reservation ≡ none
unfolding take_trap enter_trap log_trap refresh_jit_tlb_context
take_trap-reservation c c' cause tval is_interrupt e = ground arith

module _ {M : Type 0} (bus : Bus M) where
  -- After a trap, SC stores nothing: its result is one, whatever was reserved before, and no fault
  -- comes of its address.
  pub sc_after_trap :
      (c c' : Cpu) (m : M) (cause tval dest addr src : ℕ) (is_interrupt is64 : Bool)
      → take_trap c cause tval is_interrupt ≡ some c'
      → store_conditional bus is64 dest addr src c' m ≡ (ok tt, release (wr c' dest 1), m)
  unfolding store_conditional ◌>>=◌ ◌>>◌ get modify reserved
  sc_after_trap c c' m cause tval dest addr src is_interrupt is64 e =
      ground (arith, take_trap-reservation c c' cause tval is_interrupt e)

  -- After LR, SC of the same address makes its store, and its result is zero unless that faults.
  pub sc_after_lr :
      (c c' : Cpu) (m m' : M) (d dest addr src : ℕ) (wide is64 : Bool)
      → load_reserved bus wide d addr c m ≡ (ok tt, c', m')
      → store_conditional bus is64 dest addr src c' m'
        ≡ (astore bus is64 addr src >> modify (λ c. release (wr c dest 0))) c' m'
  unfolding store_conditional load_reserved ◌>>=◌ ◌>>◌ get modify reserved wr
  sc_after_lr c c' m m' d dest addr src wide is64 e = ground arith
