-- ===== src/Core/Csr/Bits.antt =====
-- The bits of mstatus, mip and mie, and misa: crates/rv64-core/src/csr.rs.
use lish.Prelude.{ℕ, ◌*◌, ◌^◌, bit_or}

abbrev pub mstatus_sie : ℕ
mstatus_sie = 2 ^ 1

abbrev pub mstatus_mie : ℕ
mstatus_mie = 2 ^ 3

abbrev pub mstatus_spie : ℕ
mstatus_spie = 2 ^ 5

abbrev pub mstatus_mpie : ℕ
mstatus_mpie = 2 ^ 7

abbrev pub mstatus_spp : ℕ
mstatus_spp = 2 ^ 8

abbrev pub mstatus_mpp : ℕ
mstatus_mpp = 3 * 2 ^ 11

abbrev pub mstatus_fs : ℕ
mstatus_fs = 3 * 2 ^ 13

abbrev pub mstatus_mprv : ℕ
mstatus_mprv = 2 ^ 17

abbrev pub mstatus_sum : ℕ
mstatus_sum = 2 ^ 18

abbrev pub mstatus_mxr : ℕ
mstatus_mxr = 2 ^ 19

abbrev pub mstatus_tvm : ℕ
mstatus_tvm = 2 ^ 20

abbrev pub mstatus_tw : ℕ
mstatus_tw = 2 ^ 21

abbrev pub mstatus_tsr : ℕ
mstatus_tsr = 2 ^ 22

abbrev pub mstatus_uxl : ℕ
mstatus_uxl = 3 * 2 ^ 32

abbrev pub mstatus_sxl : ℕ
mstatus_sxl = 3 * 2 ^ 34

abbrev pub mstatus_sd : ℕ
mstatus_sd = 2 ^ 63

abbrev pub irq_ssip : ℕ
irq_ssip = 2 ^ 1

abbrev pub irq_msip : ℕ
irq_msip = 2 ^ 3

abbrev pub irq_stip : ℕ
irq_stip = 2 ^ 5

abbrev pub irq_mtip : ℕ
irq_mtip = 2 ^ 7

abbrev pub irq_seip : ℕ
irq_seip = 2 ^ 9

abbrev pub irq_meip : ℕ
irq_meip = 2 ^ 11

-- The bits of mstatus that are visible through sstatus.
abbrev pub sstatus_mask : ℕ
sstatus_mask =
    bit_or
      (bit_or
        (bit_or
          (bit_or (bit_or (bit_or (bit_or mstatus_sie mstatus_spie) mstatus_spp) mstatus_fs)
            mstatus_sum)
          mstatus_mxr)
        mstatus_uxl)
      mstatus_sd

abbrev pub misa_value : ℕ
misa_value =
    bit_or
      (bit_or
        (bit_or
          (bit_or (bit_or (bit_or (bit_or (bit_or ((2 * 2 ^ 62)) (2 ^ 0)) (2 ^ 2)) (2 ^ 3)) (2 ^ 5))
            (2 ^ 8))
          (2 ^ 12))
        (2 ^ 18))
      (2 ^ 20)
