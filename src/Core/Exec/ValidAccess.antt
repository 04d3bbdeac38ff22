-- ===== src/Core/Exec/ValidAccess.antt =====
-- The invariant of the hart over memory accesses: crates/rv64-core/src/cpu.rs, `ld`, `st` and the
-- atomics.
use lish.Prelude.{ℕ, zero, suc, refl, Bool, true, false, Option}
use lish.Core.Cpu.{Cpu, Access, has_system}
use lish.Core.Bus.{Bus}
use lish.Core.Run.{translated}
use lish.Core.Run.Keeps.{Keeps, keeping, return-Keeps}
use lish.Core.Memory.{ld, ld_bytes, ld_whole, st, st_bytes, st_whole, fill_step}
use lish.Core.Amo.{aload, astore, amo, load_reserved, store_conditional, read_modify_write}
use lish.Core.Exec.Frame.{IsValid, frame-IsValid, wr-IsValid, translate-frame, fill_jtlb-frame}

module _ {M : Type 0} (bus : Bus M) (s : Bool) where
  pub translated-Keeps : (va : ℕ) (access : Access) → Keeps (IsValid s) (translated bus va access)
  unfolding translated
  translated-Keeps va access = record {
    kept = λ c b p. frame-IsValid c _ (translate-frame bus c b va access) p;
  }

  pub fill_step-Keeps :
      (va pa : ℕ) (for_store : Bool) → Keeps (IsValid s) (fill_step bus va pa for_store)
  fill_step-Keeps va pa for_store = record {
    kept = λ c b p. frame-IsValid c _ (fill_jtlb-frame bus c b va pa for_store) p;
  }

  pub ld_bytes-Keeps : (n i va v : ℕ) → Keeps (IsValid s) (ld_bytes bus n i va v)
  unfolding ld_bytes
  ld_bytes-Keeps zero i va v = return-Keeps v
  ld_bytes-Keeps (suc n) i va v =
      search (keeping, translated-Keeps, ld_bytes-Keeps n) depth 12 fits 3000

  pub ld-Keeps : (n va : ℕ) → Keeps (IsValid s) (ld bus n va)
  unfolding ld ld_whole
  ld-Keeps n va =
      search (keeping, translated-Keeps, fill_step-Keeps, ld_bytes-Keeps) depth 14 fits 5000

  pub st_bytes-Keeps : (n i va v : ℕ) → Keeps (IsValid s) (st_bytes bus n i va v)
  unfolding st_bytes
  st_bytes-Keeps zero i va v = return-Keeps tt
  st_bytes-Keeps (suc n) i va v =
      search (keeping, translated-Keeps, st_bytes-Keeps n) depth 12 fits 3000

  pub st-Keeps : (n va v : ℕ) → Keeps (IsValid s) (st bus n va v)
  unfolding st st_whole
  st-Keeps n va v =
      search (keeping, translated-Keeps, fill_step-Keeps, st_bytes-Keeps) depth 14 fits 5000

  pub aload-Keeps : (is64 : Bool) (addr : ℕ) → Keeps (IsValid s) (aload bus is64 addr)
  unfolding aload
  aload-Keeps true addr = ld-Keeps 8 addr
  aload-Keeps false addr = search (keeping, ld-Keeps) depth 12 fits 3000

  pub astore-Keeps : (is64 : Bool) (addr v : ℕ) → Keeps (IsValid s) (astore bus is64 addr v)
  unfolding astore
  astore-Keeps true addr v = st-Keeps 8 addr v
  astore-Keeps false addr v = st-Keeps 4 addr v

  pub set_reservation-IsValid :
      (r : Option ℕ) (c : Cpu) → IsValid s c → IsValid s (record c { reservation = r })
  unfolding has_system
  set_reservation-IsValid r c = frame-IsValid c _ (refl, refl)

  pub amo-Keeps : (insn : ℕ) → Keeps (IsValid s) (amo bus insn)
  unfolding amo load_reserved store_conditional read_modify_write
  amo-Keeps insn =
      search (keeping, aload-Keeps, astore-Keeps, wr-IsValid, set_reservation-IsValid) depth 20 fits
        20000
