-- ===== src/Core/Step/Tests.antt =====
-- Runs of programs by the interpreters of crates/rv64-core/src/cpu.rs.
use lish.Prelude.{
  ℕ, ◌≤◌, zero, suc, ◌≡◌, get_or, refl, false, arith, List, [], ◌∷◌, ◌++◌, length, replicate,
}
use lish.Prelude.Memory.{to_le_bytes, from_le_bytes, read_at}
use lish.Core.Cpu
use lish.Core.Cpu.{Cpu, has_system}
use lish.Core.Exception.{ok}
use lish.Core.Bus.{FlatMemory, flat_bus, fetch32_if_safe, offset, checked_sub, checked_add}
use lish.Core.Compressed.{DecodedInsn, from_word}
use lish.Core.Exec.{execute_decoded, execute, exec_op_imm, branch, retire}
use lish.Core.Cpu.{wr}
use lish.Core.Decode.{opcode, funct3, rd, rs1, rs2, imm_b, sra64, sign_extend_32}
use lish.Core.Alu.{branch_taken}
use lish.Core.Float.{FloatUnit}
use lish.Core.Step.{
  rounds, decoded_rounds, decoded_round, settle_decoded, step, fetch_word, safe_word, whole_word,
}
use lish.Core.Run.{◌>>=◌, ◌>>◌, get, return, translated, throw, modify, require}
use lish.Core.Mmu.{translate}
use lish.Core.Step.Decoded.{Cached, cached_end, cached_next, After, decoded_rounds_lem}

-- No floating-point arithmetic.
abbrev no_floats : FloatUnit
no_floats = record {
  fma32 = λ a b c rm. (0, 0);
  fma64 = λ a b c rm. (0, 0);
  op_fp = λ c insn. (ok tt, c);
}

-- addi x1, x0, 5; beq x0, x0, 8; addi x2, x0, 7; ecall.
abbrev program : List ℕ
program =
    to_le_bytes 4 0x0050_0093
    ++ to_le_bytes 4 0x0000_0463
    ++ to_le_bytes 4 0x0070_0113
    ++ to_le_bytes 4 0x0000_0073
    ++ replicate 32 0

abbrev memory : FlatMemory
memory = record { base = 0; mem = program }

-- The first three instructions, decoded; the second jumps over the third.
abbrev block : List DecodedInsn
block = from_word 0x0050_0093 ∷ from_word 0x0000_0463 ∷ from_word 0x0070_0113 ∷ []

-- The hart and the memory after the first instructions.
abbrev after : ℕ → Cpu × FlatMemory
after zero = (Cpu.new, memory)
after (suc n) =
    let (c, m) = after n in
    let (stopped, c', m') =
      decoded_round flat_bus no_floats false (get_or block n (from_word 0)) c m in
    (c', m')

fetched_first :
    step flat_bus no_floats (after 0).0 (after 0).1
    ≡ execute_decoded flat_bus no_floats (from_word 0x0050_0093) (after 0).0 (after 0).1
unfolding Cpu.new decoded_round settle_decoded step fetch_word safe_word whole_word ◌>>=◌ ◌>>◌ get
    return translated translate flat_bus fetch32_if_safe offset checked_sub checked_add read_at
    from_le_bytes to_le_bytes execute_decoded execute from_word exec_op_imm branch retire wr throw
    modify opcode require branch_taken funct3 rd rs1 rs2 imm_b sra64 sign_extend_32
fetched_first = refl

-- The second instruction is fetched where the first has left the hart.
fetched_second :
    step flat_bus no_floats (after 1).0 (after 1).1
    ≡ execute_decoded flat_bus no_floats (from_word 0x0000_0463) (after 1).0 (after 1).1
unfolding Cpu.new decoded_round settle_decoded step fetch_word safe_word whole_word ◌>>=◌ ◌>>◌ get
    return translated translate flat_bus fetch32_if_safe offset checked_sub checked_add read_at
    from_le_bytes to_le_bytes execute_decoded execute from_word exec_op_imm branch retire wr throw
    modify opcode require branch_taken funct3 rd rs1 rs2 imm_b sra64 sign_extend_32
fetched_second = refl

-- The branch goes past the third.
past : (after 2).0.pc ≡ 12
unfolding Cpu.new decoded_round settle_decoded step fetch_word safe_word whole_word ◌>>=◌ ◌>>◌ get
    return translated translate flat_bus fetch32_if_safe offset checked_sub checked_add read_at
    from_le_bytes to_le_bytes execute_decoded execute from_word exec_op_imm branch retire wr throw
    modify opcode require branch_taken funct3 rd rs1 rs2 imm_b sra64 sign_extend_32
past = refl

third :
    (after 2).0.pc ≡ 8
    → step flat_bus no_floats (after 2).0 (after 2).1
      ≡ execute_decoded flat_bus no_floats (from_word 0x0070_0113) (after 2).0 (after 2).1
third here = absurd (different (after 2).0.pc past here)
  where
    different : (n : ℕ) → n ≡ 12 → n ≡ 8 → ⊥
    different n a b = omega arith

block-Cached : Cached flat_bus no_floats false block 0 Cpu.new memory
unfolding from_word
block-Cached =
    cached_next (λ quiet here. fetched_first)
      (cached_next (λ quiet here. fetched_second)
        (cached_next (λ quiet here. third here) cached_end))

decoded_rounds_lem_example :
    (k : ℕ) × (k ≤ length block)
    × After flat_bus no_floats false
        (decoded_rounds flat_bus no_floats false block Cpu.new memory)
        (rounds flat_bus no_floats false k Cpu.new memory)
unfolding Cpu.new
decoded_rounds_lem_example =
    decoded_rounds_lem flat_bus no_floats false block Cpu.new memory block-Cached
