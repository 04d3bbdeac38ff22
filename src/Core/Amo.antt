-- ===== src/Core/Amo.antt =====
-- The atomic instructions of `execute_decoded`, crates/rv64-core/src/cpu.rs: LR, SC and the
-- read-modify-writes.
mod Tests
pub mod Order
pub mod Reserve
use lish.Prelude.{
  ℕ, ◌%◌, Bool, true, false, not, ◌&&◌, Option, none, some, get_or, ltb, ◌==◌, ◌!=◌, if◌then◌else◌,
  add64, u32_mod, bit_and, bit_or, bit_xor, shr,
}
use lish.Prelude.Signed.{signed_of, ltb_ℤ}
use lish.Core.Exception.{illegal_instruction}
use lish.Core.Cpu.{Cpu, wr}
use lish.Core.Bus.{Bus}
use lish.Core.Decode.{rd, rs1, rs2, funct3, funct7}
use lish.Core.Run.{Run, ◌>>=◌, ◌>>◌, return, get, modify, require}
use lish.Core.Memory.{ld, st}
use lish.Core.Alu.{slt64, sext_word}

-- The width that funct3 gives: whether it is 64 bits.
unfoldable pub amo_width : ℕ → Option Bool
amo_width f3 = if f3 == 2 then some false else if f3 == 3 then some true else none

-- `signed_lt`, of the operands cut to the width.
abbrev pub amo_slt : Bool → ℕ → ℕ → Bool
amo_slt is64 co cs = if is64 then slt64 co cs else ltb_ℤ (signed_of 32 co) (signed_of 32 cs)

-- What a read-modify-write stores: MIN, MAX, MINU and MAXU compare the operands at the width.
unfoldable pub amo_new : ℕ → Bool → ℕ → ℕ → Option ℕ
amo_new funct5 is64 old src =
    let co = if is64 then old else old % u32_mod in
    let cs = if is64 then src else src % u32_mod in
    if funct5 == 0x01
    then some src
    else if funct5 == 0x00
    then some (add64 old src)
    else if funct5 == 0x04
    then some (bit_xor old src)
    else if funct5 == 0x0c
    then some (bit_and old src)
    else if funct5 == 0x08
    then some (bit_or old src)
    else if funct5 == 0x10
    then some (if amo_slt is64 co cs then old else src)
    else if funct5 == 0x14
    then some (if not (amo_slt is64 co cs) && co != cs then old else src)
    else if funct5 == 0x18
    then some (if ltb co cs then old else src)
    else if funct5 == 0x1c
    then some (if ltb cs co then old else src)
    else none

-- `self.reservation == Some(addr)`.
unfoldable pub reserved : Cpu → ℕ → Bool
reserved c addr = elim c.reservation [ none ↦ false | some held ↦ held == addr ]

abbrev pub reserve : ℕ → Cpu → Cpu
reserve addr c = record c { reservation = some addr }

abbrev pub release : Cpu → Cpu
release c = record c { reservation = none }

module _ {M : Type 0} (bus : Bus M) where
  -- `aload!`, which sign-extends a word, and `astore!`.
  unfoldable pub aload : Bool → ℕ → Run M ℕ
  aload true addr = ld bus 8 addr
  aload false addr = do v ← ld bus 4 addr; return (sext_word 32 v)

  unfoldable pub astore : Bool → ℕ → ℕ → Run M (Unit {0})
  astore true addr v = st bus 8 addr v
  astore false addr v = st bus 4 addr v

  unfoldable pub load_reserved : Bool → ℕ → ℕ → Run M (Unit {0})
  load_reserved is64 dest addr = do
    v ← aload is64 addr
    modify (reserve addr)
    modify (λ c. wr c dest v)

  -- A store that faults leaves the reservation.
  unfoldable pub store_conditional : Bool → ℕ → ℕ → ℕ → Run M (Unit {0})
  store_conditional is64 dest addr src = do
    c ← get
    if reserved c addr
        then (do astore is64 addr src; modify (λ c. wr c dest 0))
        else modify (λ c. wr c dest 1)
    modify release

  unfoldable pub read_modify_write : ℕ → ℕ → Bool → ℕ → ℕ → ℕ → Run M (Unit {0})
  read_modify_write insn funct5 is64 dest addr src = do
    old ← aload is64 addr
    new ← require (amo_new funct5 is64 old src) (illegal_instruction insn)
    astore is64 addr new
    modify (λ c. wr c dest old)

  unfoldable pub amo : ℕ → Run M (Unit {0})
  amo insn = do
    c ← get
    is64 ← require (amo_width (funct3 insn)) (illegal_instruction insn)
    if shr (funct7 insn) 2 == 0x02
        then load_reserved is64 (rd insn) (get_or c.x (rs1 insn) 0)
        else if shr (funct7 insn) 2 == 0x03
        then store_conditional is64 (rd insn) (get_or c.x (rs1 insn) 0) (get_or c.x (rs2 insn) 0)
        else read_modify_write insn (shr (funct7 insn) 2) is64 (rd insn) (get_or c.x (rs1 insn) 0)
            (get_or c.x (rs2 insn) 0)
