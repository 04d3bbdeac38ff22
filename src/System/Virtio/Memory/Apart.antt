-- ===== src/System/Virtio/Memory/Apart.antt =====
-- Words of guest memory that a write elsewhere leaves alone, and those it wrote:
-- crates/rv64-system/src/virtio.rs.
use lish.Prelude.{
  ℕ, suc, ◌+◌, ◌^◌, ◌≤◌, ◌<◌, ◌≡◌, refl, ap, arith, Option-cases, ◌⊎◌, inl, inr, List, length,
  Option, none, some,
}
use lish.Prelude.Memory.{
  length-read_at, length-write_at, read_at-write_at_front, read_at-write_at_apart, to_le_bytes,
  from_le_bytes, length-to_le_bytes,
}
use lish.Core.Bus.{checked_sub, checked_add}
use lish.System.Ram.{checked_ram_range}
use lish.System.Virtio.Memory.{Outside, guest_slice, guest_write, read_word, write_word}

pub range_lem :
    (l b a n : ℕ) (r : ℕ × ℕ) → checked_ram_range l b a n ≡ some r → (a ≡ b + r.0) × (r.0 + n ≤ l)
unfolding checked_ram_range checked_sub checked_add
range_lem l b a n r e = ground arith

pub guest_slice-guest_write_apart :
    (o : Outside) (a b n : ℕ) (bytes : List ℕ)
    → (b + n ≤ a) ⊎ (a + length bytes ≤ b)
    → guest_slice (guest_write o a bytes).1 b n ≡ guest_slice o b n
unfolding guest_slice guest_write
guest_slice-guest_write_apart o a b n bytes apart =
    elim (Option-cases (checked_ram_range (length o.ram) o.ram_base a (length bytes))) [
      | inl e ↦ rw (e, guest_write) refl
      | inr (r, e) ↦
          let (at, _) = range_lem _ _ _ _ r e in
          let size = length-write_at r.0 bytes o.ram in
          elim (Option-cases (checked_ram_range (length o.ram) o.ram_base b n)) [
            | inl f ↦ ground (arith, e, f, size)
            | inr (s, f) ↦
                let (bt, _) = range_lem _ _ _ _ s f in
                let same =
                  read_at-write_at_apart r.0 s.0 n bytes o.ram (ground (arith, at, bt, apart)) in
                ground (arith, e, f, size, same)
          ]
    ]

-- A word is the same after a write to other addresses.
pub read_word-write_word_apart :
    (n m : ℕ) (o : Outside) (a b v : ℕ)
    → (b + m ≤ a) ⊎ (a + n ≤ b)
    → read_word m (write_word n o a v) b ≡ read_word m o b
unfolding read_word write_word
read_word-write_word_apart n m o a b v apart =
    let same =
      guest_slice-guest_write_apart o a b m (to_le_bytes n v)
        (ground (arith, length-to_le_bytes n v, apart)) in
    ap (λ (s : Option (List ℕ)). elim s [ none ↦ none | some bytes ↦ some (from_le_bytes bytes) ])
      same

pub guest_write-length :
    (o : Outside) (a : ℕ) (bytes : List ℕ)
    → (length (guest_write o a bytes).1.ram ≡ length o.ram)
      × ((guest_write o a bytes).1.ram_base ≡ o.ram_base)
unfolding guest_write
guest_write-length o a bytes =
    elim (Option-cases (checked_ram_range (length o.ram) o.ram_base a (length bytes))) [
      | inl e ↦ rw (e, guest_write) (refl, refl)
      | inr (r, e) ↦ rw (e, guest_write) (length-write_at r.0 bytes o.ram, refl)
    ]

pub shorter_range :
    (l b a n m : ℕ) (r : ℕ × ℕ)
    → checked_ram_range l b a n ≡ some r
    → m ≤ n
    → checked_ram_range l b a m ≡ some (r.0, r.0 + m)
unfolding checked_ram_range checked_sub checked_add
shorter_range l b a n m r e le = ground arith

-- A half word of what was just written in RAM.
pub read_word-write_word :
    (k : ℕ) (o : Outside) (a v : ℕ) (r : ℕ × ℕ)
    → checked_ram_range (length o.ram) o.ram_base a (suc (suc k)) ≡ some r
    → v < 2 ^ 16
    → read_word 2 (write_word (suc (suc k)) o a v) a ≡ some v
unfolding read_word write_word guest_write guest_slice to_le_bytes from_le_bytes
read_word-write_word k o a v r e small =
    let bytes = to_le_bytes (suc (suc k)) v in
    let size = length-to_le_bytes (suc (suc k)) v in
    let (_, inside) = range_lem _ _ _ _ r e in
    let e' = shorter_range (length o.ram) o.ram_base a (suc (suc k)) 2 r e (omega arith) in
    let got =
      read_at-write_at_front r.0 2 bytes o.ram (omega (arith, inside, size))
        (omega (arith, size)) in
    ground (arith, e, e', size, got, length-write_at r.0 bytes o.ram)

pub guest_slice-length :
    (o : Outside) (addr len : ℕ) (s : List ℕ) → guest_slice o addr len ≡ some s → length s ≡ len
unfolding guest_slice
guest_slice-length o addr len s e =
    elim (Option-cases (checked_ram_range (length o.ram) o.ram_base addr len)) [
      | inl f ↦ absurd (ground (arith, e, f))
      | inr (r, f) ↦
          let (_, inside) = range_lem _ _ _ _ r f in
          ground (arith, e, f, length-read_at r.0 len o.ram inside)
    ]
