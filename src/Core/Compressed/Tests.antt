-- ===== src/Core/Compressed/Tests.antt =====
-- Runs of the expander and the decoder: crates/rv64-core/src/compressed.rs and decode.rs.
use lish.Prelude.{◌≡◌, refl, some}
use lish.Core.Compressed.{enc_i, expand, expand_1, sext, imm6, imm_shamt}

-- C.LI a0, -1 is ADDI a0, x0, -1.
c_li : expand 0x557d ≡ some 0xfff0_0513
unfolding expand expand_1 imm6 imm_shamt sext enc_i
c_li = refl
