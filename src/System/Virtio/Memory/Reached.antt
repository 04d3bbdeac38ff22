-- ===== src/System/Virtio/Memory/Reached.antt =====
-- What a device can do outside itself: crates/rv64-system/src/virtio.rs, whose only write to guest
-- memory is `guest_write`.
use lish.Prelude.{ℕ, List}
use lish.System.Virtio.Memory.{Outside, guest_write, write_word}
use lish.Prelude.Memory.{to_le_bytes}

-- The second state is the first one after writes by `guest_write` and new request ids.
pub data Reached : Outside → Outside → Type 0 where
  start : {o : Outside} → Reached o o
  wrote :
      {o p : Outside} (addr : ℕ) (bytes : List ℕ)
      → Reached o p
      → Reached o (guest_write p addr bytes).1
  counted : {o p : Outside} (n : ℕ) → Reached o p → Reached o (record p { next_id = n })

pub then-Reached : {o p q : Outside} → Reached o p → Reached p q → Reached o q
then-Reached r start = r
then-Reached r (wrote addr bytes s) = wrote addr bytes (then-Reached r s)
then-Reached r (counted n s) = counted n (then-Reached r s)

pub one_write : (o : Outside) (addr : ℕ) (bytes : List ℕ) → Reached o (guest_write o addr bytes).1
one_write o addr bytes = wrote addr bytes start

pub one_word : (n : ℕ) (o : Outside) (addr v : ℕ) → Reached o (write_word n o addr v)
unfolding write_word
one_word n o addr v = one_write o addr (to_le_bytes n v)
