-- ===== src/System/Virtio/Transport.antt =====
-- The virtqueues: `process` and `service` of
-- crates/rv64-system/src/virtio.rs. The loop of `process` takes fuel, and is `none` without it.
pub mod Rounds
pub mod Writes
pub mod Ends
pub mod Endless
use lish.Prelude.{
  ℕ, zero, suc, ◌+◌, ◌*◌, ◌%◌, ◌^◌, Bool, true, false, ◌||◌, List, [], ◌∷◌, get_or, set, Option,
  none, some, leb, ◌==◌, ◌!=◌, if◌then◌else◌, bit_and, bit_or,
}
use lish.Core.Bus.{checked_add}
use lish.System.Virtio.Memory.{Outside, checked_mul, read_word, write_word}
use lish.System.Virtio.Device.{
  VirtioDev, Queue, no_queue, max_queues, block, external_block, net, PendingBlockRequest,
}
use lish.System.Virtio.Disk.{Desc, serve_disk}
use lish.System.Virtio.External.{is_some, in_ram, serve_external}
use lish.System.Virtio.Net.{receive, transmit}

unfoldable pub service : VirtioDev → ℕ → List Desc → Outside → Option ℕ × VirtioDev × Outside
service d qi chain o = elim d.backend [
  | block disk ↦
      let (written, disk', o') = serve_disk disk chain o in
      (written, record d { backend = block disk' }, o')
  | external_block size pending ↦
      let (written, pending', o') = serve_external size pending qi chain o in
      (written, record d { backend = external_block size pending' }, o')
  | net mac inbox outbox ↦
      let (written, inbox', outbox', o') =
        if qi == 0 then receive inbox outbox chain o else transmit inbox outbox chain o in
      (written, record d { backend = net mac inbox' outbox' }, o')
]

unfoldable pub queue_at : VirtioDev → ℕ → Queue
queue_at d qi = get_or d.queues qi no_queue

-- `avail.idx`, and the head of the next chain.
unfoldable pub avail_idx : Outside → Queue → Option ℕ
avail_idx o q = elim (checked_add q.avail 2) [ none ↦ none | some addr ↦ read_word 2 o addr ]

unfoldable pub next_head : Outside → Queue → Option ℕ
next_head o q =
    let slot = q.last_avail_idx % q.num in
    elim (checked_add q.avail (4 + slot * 2)) [ none ↦ none | some addr ↦ read_word 2 o addr ]

-- A word of a descriptor.
unfoldable pub desc_word : Outside → ℕ → ℕ → ℕ → Option ℕ
desc_word o base off n = elim (checked_add base off) [
  | none ↦ none
  | some addr ↦ read_word n o addr
]

-- The descriptor with number di, and its flags.
unfoldable pub desc_at : Outside → Queue → ℕ → Option (Desc × ℕ × ℕ)
desc_at o q di = elim (checked_mul di 16) [
  | none ↦ none
  | some off ↦ elim (checked_add q.desc off) [
    | none ↦ none
    | some base ↦ elim (read_word 8 o base) [
      | none ↦ none
      | some addr ↦ elim (desc_word o base 8 4) [
        | none ↦ none
        | some len ↦ elim (desc_word o base 12 2) [
          | none ↦ none
          | some flags ↦
              some (record { addr = addr; len = len; writable = bit_and flags 2 != 0 }, flags, base)
        ]
      ]
    ]
  ]
]

-- The chain from descriptor di on, of at most `left` descriptors.
unfoldable pub walk_chain : ℕ → Outside → Queue → ℕ → Option (List Desc)
walk_chain zero o q di = some []
walk_chain (suc left) o q di = elim (desc_at o q di) [
  | none ↦ none
  | some (d, flags, base) ↦
      if bit_and flags 1 == 0 then some (d ∷ []) else elim (desc_word o base 14 2) [
        | none ↦ none
        | some next ↦ elim (walk_chain left o q next) [ none ↦ none | some rest ↦ some (d ∷ rest) ]
      ]
]

-- Where the chain is given back: the used ring's index and its entry.
pub record UsedSlot : Type 0 where
  pub index_addr : ℕ
  pub entry : ℕ
  pub idx : ℕ

unfoldable pub used_slot : Outside → Queue → Option UsedSlot
used_slot o q = elim (checked_add q.used 2) [
  | none ↦ none
  | some index_addr ↦ elim (read_word 2 o index_addr) [
    | none ↦ none
    | some idx ↦ elim (checked_add q.used (4 + idx % q.num * 8)) [
      | none ↦ none
      | some entry ↦
          if in_ram o entry 8
          then some (record { index_addr = index_addr; entry = entry; idx = idx })
          else none
    ]
  ]
]

-- What waits for a completion is told where to publish it.
unfoldable pub remember : VirtioDev → ℕ → UsedSlot → VirtioDev
remember d head u = elim d.backend [
  | external_block size pending ↦ elim pending [
    | none ↦ d
    | some request ↦ record d {
      backend = external_block size (
          some (record request {
            head = head;
            used_index_addr = u.index_addr;
            used_entry = u.entry;
            used_idx = u.idx;
          }));
    }
  ]
  | block _ ↦ d
  | net _ _ _ ↦ d
]

-- The three writes to the used ring.
unfoldable pub publish : Outside → ℕ → ℕ → UsedSlot → Outside
publish o head written u =
    let o' = write_word 4 o u.entry head in
    let o'' = write_word 4 o' (u.entry + 4) written in
    write_word 2 o'' u.index_addr ((u.idx + 1) % 2 ^ 16)

-- The chain is done: the queue advances and the interrupt is raised.
unfoldable pub advance_queue : VirtioDev → ℕ → VirtioDev
advance_queue d qi =
    let q = queue_at d qi in
    record d {
      queues = set d.queues qi (record q { last_avail_idx = (q.last_avail_idx + 1) % 2 ^ 16 });
      int_status = bit_or d.int_status 1;
    }

unfoldable pub serve_chain :
    VirtioDev → ℕ → ℕ → List Desc → UsedSlot → Outside → Bool × VirtioDev × Outside
serve_chain d qi head chain u o =
    let (result, d', o') = service d qi chain o in
    elim result [
      | none ↦ (false, remember d' head u, o')
      | some written ↦ (true, advance_queue d' qi, publish o' head written u)
    ]

-- One round of the loop of `process`, and whether there is another.
unfoldable pub process_round : ℕ → VirtioDev → Outside → Bool × VirtioDev × Outside
process_round qi d o =
    let q = queue_at d qi in
    if q.num == 0 then (false, d, o) else elim (avail_idx o q) [
      | none ↦ (false, d, o)
      | some idx ↦ if q.last_avail_idx == idx then (false, d, o) else elim (next_head o q) [
        | none ↦ (false, d, o)
        | some head ↦ elim (walk_chain q.num o q head) [
          | none ↦ (false, d, o)
          | some chain ↦ elim (used_slot o q) [
            | none ↦ (false, d, o)
            | some u ↦ serve_chain d qi head chain u o
          ]
        ]
      ]
    ]

unfoldable pub process_loop : ℕ → ℕ → VirtioDev → Outside → Option (VirtioDev × Outside)
process_loop zero qi d o = none
process_loop (suc fuel) qi d o =
    let (again, d', o') = process_round qi d o in
    elim again [ true ↦ process_loop fuel qi d' o' | false ↦ some (d', o') ]

unfoldable pub has_pending_block_request : VirtioDev → Bool
has_pending_block_request d = elim d.backend [
  | external_block _ pending ↦ is_some pending
  | block _ ↦ false
  | net _ _ _ ↦ false
]

unfoldable pub process : ℕ → ℕ → VirtioDev → Outside → Option (VirtioDev × Outside)
process fuel qi d o =
    if leb max_queues qi || (queue_at d qi).ready == 0
    then some (d, o)
    else if has_pending_block_request d
    then some (d, o)
    else process_loop fuel qi d o

unfoldable pub pending_block_request : VirtioDev → Option PendingBlockRequest
pending_block_request d = elim d.backend [
  | external_block _ pending ↦ pending
  | block _ ↦ none
  | net _ _ _ ↦ none
]
