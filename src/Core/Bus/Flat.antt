-- ===== src/Core/Bus/Flat.antt =====
-- Reads and writes of flat memory, inside it and outside:
-- crates/rv64-core/src/bus.rs.
use lish.Prelude.{
  ℕ, ◌+◌, ◌-◌, ◌^◌, ◌≤◌, ◌<◌, ◌≡◌, ◌⊎◌, inl, inr, ap, subst, refl, arith, Option, none, some, List,
  length,
}
use lish.Prelude.Memory.{
  read_at, write_at, to_le_bytes, from_le_bytes, length-write_at, length-to_le_bytes,
  read_at-write_at, read_at-write_at_apart, from_le_bytes-to_le_bytes,
}
use lish.Core.Exception.{ok, err, load_access_fault, store_access_fault}
use lish.Core.Bus.{FlatMemory, offset, read, write}

abbrev pub InRange : FlatMemory → ℕ → ℕ → Type 0
InRange f addr n = (f.base ≤ addr) × (addr + n ≤ f.base + length f.mem)

-- Memory of at most 2 ^ 64 bytes.
abbrev pub Fits : FlatMemory → Type 0
Fits f = length f.mem < 2 ^ 64

pub offset-InRange :
    (f : FlatMemory) (addr n : ℕ)
    → Fits f
    → InRange f addr n
    → offset f addr n ≡ some (addr - f.base)
unfolding offset
offset-InRange f addr n v r = ground arith

offset-some :
    (f : FlatMemory) (addr n off : ℕ)
    → offset f addr n ≡ some off
    → InRange f addr n × (off ≡ addr - f.base)
unfolding offset
offset-some f addr n off e = (ground arith, ground arith)

offset-length :
    (f : FlatMemory) (mem : List ℕ) (addr n : ℕ)
    → length mem ≡ length f.mem
    → offset (record f { mem = mem }) addr n ≡ offset f addr n
unfolding offset
offset-length f mem addr n e = ground arith

-- The memory after a write.
abbrev written : ℕ → FlatMemory → ℕ → ℕ → FlatMemory
written n f addr val = record f { mem = write_at (addr - f.base) (to_le_bytes n val) f.mem }

write-InRange :
    (f : FlatMemory) (n addr val : ℕ)
    → Fits f
    → InRange f addr n
    → write n f addr val ≡ (ok tt, written n f addr val)
unfolding write
write-InRange f n addr val v r = ground (arith, offset-InRange f addr n v r)

offset-written :
    (f : FlatMemory) (n addr val other k : ℕ)
    → offset (written n f addr val) other k ≡ offset f other k
offset-written f n addr val other k =
    offset-length f _ other k (length-write_at (addr - f.base) (to_le_bytes n val) f.mem)

read_same :
    (f : FlatMemory) (n addr val : ℕ)
    → Fits f
    → InRange f addr n
    → val < 256 ^ n
    → read n (written n f addr val) addr ≡ (ok val, written n f addr val)
unfolding read
read_same f n addr val v r fits =
    let back : read_at (addr - f.base) n (written n f addr val).mem ≡ to_le_bytes n val =
      subst (λ k. read_at (addr - f.base) k (written n f addr val).mem ≡ to_le_bytes n val)
        (length-to_le_bytes n val)
        (read_at-write_at (addr - f.base) (to_le_bytes n val) f.mem
          (omega (arith, length-to_le_bytes n val))) in
    ground (
      arith,
      offset-written f n addr val addr n,
      offset-InRange f addr n v r,
      ap from_le_bytes back,
      from_le_bytes-to_le_bytes n val fits,
    )

read_apart :
    (f : FlatMemory) (n addr val other k : ℕ) (o : Option ℕ)
    → InRange f addr n
    → offset f other k ≡ o
    → (other + k ≤ addr) ⊎ (addr + n ≤ other)
    → (read k (written n f addr val) other).0 ≡ (read k f other).0
unfolding read
read_apart f n addr val other k none r e apart = ground (arith, offset-written f n addr val other k)
read_apart f n addr val other k (some off) r e apart =
    let at = offset-some f other k off e in
    ground (
      arith,
      offset-written f n addr val other k,
      read_at-write_at_apart (addr - f.base) off k (to_le_bytes n val) f.mem
          (shift at.0 at.1 apart),
    )
  where
    shift :
        InRange f other k
        → off ≡ other - f.base
        → (other + k ≤ addr) ⊎ (addr + n ≤ other)
        → (off + k ≤ addr - f.base) ⊎ (addr - f.base + length (to_le_bytes n val) ≤ off)
    shift q d (inl p) = inl (omega arith)
    shift q d (inr p) = inr (omega (arith, length-to_le_bytes n val))

-- A write of n bytes inside a memory of less than 2 ^ 64 bytes succeeds; then a read of the same
-- bytes gives the value, and k bytes that do not overlap these read as before.
pub read-write :
    (f : FlatMemory) (n addr val k other : ℕ)
    → Fits f
    → InRange f addr n
    → val < 256 ^ n
    → (other + k ≤ addr) ⊎ (addr + n ≤ other)
    → let (r, f') = write n f addr val in
      (r ≡ ok tt) × (read n f' addr ≡ (ok val, f')) × ((read k f' other).0 ≡ (read k f other).0)
read-write f n addr val k other v r fits apart = rw (write-InRange f n addr val v r) (
  refl,
  read_same f n addr val v r fits,
  read_apart f n addr val other k (offset f other k) r refl apart,
)

-- A read or write that does not lie inside the memory is a fault at its address, and changes
-- nothing.
pub outside_faults :
    (f : FlatMemory) (n addr val : ℕ)
    → ¬ InRange f addr n
    → (read n f addr ≡ (err (load_access_fault addr), f))
      × (write n f addr val ≡ (err (store_access_fault addr), f))
unfolding read write
outside_faults f n addr val out = refused (offset f addr n) refl
  where
    refused :
        (o : Option ℕ)
        → offset f addr n ≡ o
        → (read n f addr ≡ (err (load_access_fault addr), f))
          × (write n f addr val ≡ (err (store_access_fault addr), f))
    refused none e = (ground arith, ground arith)
    refused (some off) e = absurd (out (offset-some f addr n off e).0)
