-- ===== src/System/Virtio/Transport/Endless.antt =====
-- Rings that overlap: the loop of `process` in crates/rv64-system/src/virtio.rs, which reads the
-- index of the available ring in every round, after it has written to the used ring.
use lish.Prelude.{
  ℕ, zero, suc, ◌+◌, ◌*◌, ◌%◌, ◌^◌, ◌≤◌, ◌<◌, ◌≡◌, ◌≢◌, refl, sym, ◌∙◌, subst, arith, true,
  Option-cases, ◌⊎◌, inl, inr, List, length, length-set, none, some,
}
use lish.Core.Bus.{checked_add}
use lish.System.Ram.{checked_ram_range}
use lish.System.Virtio.Memory.{Outside, read_word, write_word, checked_mul}
use lish.Prelude.Memory.{to_le_bytes}
use lish.System.Virtio.Memory.Apart.{
  shorter_range, read_word-write_word_apart, read_word-write_word, guest_write-length,
}
use lish.System.Virtio.Device.{VirtioDev, net, Queue}
use lish.System.Virtio.Disk.{Desc}
use lish.System.Virtio.Transport.{
  UsedSlot, queue_at, advance_queue, publish, avail_idx, next_head, desc_word, desc_at, walk_chain,
  used_slot, serve_chain, process_round, process_loop, process,
}
use lish.System.Virtio.Transport.Ends.{
  transmit_chain, queue_at-advance_queue, loop-again, net-has_pending,
}

-- A queue of one slot whose used ring is its available ring, with one chain to serve.
pub record Overlaps (q : Queue) (o : Outside) : Type 0 where
  pub one_slot : q.num ≡ 1
  pub overlap : q.used ≡ q.avail
  pub fits : q.avail + 12 < 2 ^ 64
  pub idx : ℕ
  pub head : ℕ
  pub chain : List Desc
  pub range : ℕ × ℕ
  pub index_range : ℕ × ℕ
  pub index_in_ram : checked_ram_range (length o.ram) o.ram_base (q.avail + 2) 2 ≡ some index_range
  pub idx_there : read_word 2 o (q.avail + 2) ≡ some idx
  pub idx_small : idx < 2 ^ 16
  pub last_small : q.last_avail_idx < 2 ^ 16
  pub ahead : q.last_avail_idx ≢ idx
  pub head_there : read_word 2 o (q.avail + 4) ≡ some head
  pub head_small : head < 2 ^ 16
  pub in_room : checked_ram_range (length o.ram) o.ram_base (q.avail + 4) 8 ≡ some range
  pub chain_there : walk_chain 1 o q head ≡ some chain
  pub desc_apart : (q.desc + head * 16 + 16 ≤ q.avail + 2) ⊎ (q.avail + 12 ≤ q.desc + head * 16)

-- A network device with such a queue to transmit from.
pub record IsEndless (d : VirtioDev) (o : Outside) : Type 0 where
  pub mac : List ℕ
  pub inbox : List (List ℕ)
  pub outbox : List (List ℕ)
  pub backend_is : d.backend ≡ net mac inbox outbox
  pub two : 1 < length d.queues
  pub ring : Overlaps (queue_at d 1) o

-- The slot that every round writes.
abbrev slot_of : ℕ → ℕ → UsedSlot
slot_of avail idx = record { index_addr = avail + 2; entry = avail + 4; idx = idx }

endless_round :
    (d : VirtioDev) (o : Outside) (w : Overlaps (queue_at d 1) o)
    → process_round 1 d o ≡ serve_chain d 1 w.head w.chain (slot_of (queue_at d 1).avail w.idx) o
unfolding process_round avail_idx next_head used_slot checked_add
endless_round d o w =
    let q = queue_at d 1 in
    let there : avail_idx o q ≡ some w.idx = ground (arith, w.idx_there, w.fits) in
    let first : next_head o q ≡ some w.head = ground (arith, w.head_there, w.one_slot, w.fits) in
    let slot : used_slot o q ≡ some (slot_of q.avail w.idx) =
      ground (arith, w.idx_there, w.one_slot, w.overlap, w.fits, w.in_room) in
    let chain : walk_chain q.num o q w.head ≡ some w.chain =
      subst (λ n. walk_chain n o q w.head ≡ some w.chain) (sym w.one_slot) w.chain_there in
    ground (arith, w.one_slot, there, w.ahead, first, chain, slot)

-- Addresses that no round writes.
read_word-publish :
    (o : Outside) (a idx head written m b : ℕ)
    → (b + m ≤ a + 2) ⊎ (a + 12 ≤ b)
    → read_word m (publish o head written (slot_of a idx)) b ≡ read_word m o b
unfolding publish
read_word-publish o a idx head written m b apart =
    let o1 = write_word 4 o (a + 4) head in
    let o2 = write_word 4 o1 (a + 4 + 4) written in
    read_word-write_word_apart 2 m o2 (a + 2) b ((idx + 1) % 2 ^ 16) (ground (arith, apart))
    ∙ read_word-write_word_apart 4 m o1 (a + 4 + 4) b written (ground (arith, apart))
    ∙ read_word-write_word_apart 4 m o (a + 4) b head (ground (arith, apart))

-- The descriptor is the same.
desc_at-publish :
    (o : Outside) (q : Queue) (idx head written di : ℕ)
    → (q.desc + di * 16 + 16 ≤ q.avail + 2) ⊎ (q.avail + 12 ≤ q.desc + di * 16)
    → desc_at (publish o head written (slot_of q.avail idx)) q di ≡ desc_at o q di
unfolding desc_at desc_word checked_mul checked_add
desc_at-publish o q idx head written di apart =
    let base = q.desc + di * 16 in
    let keep = read_word-publish o q.avail idx head written in
    ground (
      arith,
      keep 8 base (ground (arith, apart)),
      keep 4 (base + 8) (ground (arith, apart)),
      keep 2 (base + 12) (ground (arith, apart)),
    )

desc_at-base :
    (o : Outside) (q : Queue) (di : ℕ) (x : Desc × ℕ × ℕ)
    → desc_at o q di ≡ some x
    → x.2 ≡ q.desc + di * 16
unfolding desc_at checked_mul checked_add
desc_at-base o q di x e = ground (arith, e)

desc_word-publish :
    (o : Outside) (q : Queue) (idx head written di : ℕ)
    → (q.desc + di * 16 + 16 ≤ q.avail + 2) ⊎ (q.avail + 12 ≤ q.desc + di * 16)
    → desc_word (publish o head written (slot_of q.avail idx)) (q.desc + di * 16) 14 2
      ≡ desc_word o (q.desc + di * 16) 14 2
unfolding desc_word checked_add
desc_word-publish o q idx head written di apart =
    let keep = read_word-publish o q.avail idx head written 2 (q.desc + di * 16 + 14) in
    ground (arith, keep (ground (arith, apart)))

walk_chain-publish :
    (o : Outside) (q : Queue) (idx head written di : ℕ)
    → (q.desc + di * 16 + 16 ≤ q.avail + 2) ⊎ (q.avail + 12 ≤ q.desc + di * 16)
    → walk_chain 1 (publish o head written (slot_of q.avail idx)) q di ≡ walk_chain 1 o q di
unfolding walk_chain
walk_chain-publish o q idx head written di apart =
    let same = desc_at-publish o q idx head written di apart in
    elim (Option-cases (desc_at o q di)) [
      | inl e ↦ ground (arith, same, e)
      | inr (x, e) ↦
          let base = desc_at-base o q di x e in
          let next = desc_word-publish o q idx head written di apart in
          ground (arith, same, e, base, next)
    ]

-- The index of the available ring is the one of the used ring, which has just advanced.
index-publish :
    (o : Outside) (a idx head written : ℕ) (r : ℕ × ℕ)
    → checked_ram_range (length o.ram) o.ram_base (a + 2) 2 ≡ some r
    → read_word 2 (publish o head written (slot_of a idx)) (a + 2) ≡ some ((idx + 1) % 2 ^ 16)
unfolding publish write_word
index-publish o a idx head written r e =
    let o1 = write_word 4 o (a + 4) head in
    let o2 = write_word 4 o1 (a + 4 + 4) written in
    let (l1, b1) = guest_write-length o (a + 4) (to_le_bytes 4 head) in
    let (l2, b2) = guest_write-length o1 (a + 4 + 4) (to_le_bytes 4 written) in
    read_word-write_word 0 o2 (a + 2) ((idx + 1) % 2 ^ 16) r (ground (arith, e, l1, b1, l2, b2))
      (omega arith)

-- The entry of the used ring is the slot of the available ring: the same head again.
head-publish :
    (o : Outside) (a idx head written : ℕ) (r : ℕ × ℕ)
    → checked_ram_range (length o.ram) o.ram_base (a + 4) 8 ≡ some r
    → head < 2 ^ 16
    → read_word 2 (publish o head written (slot_of a idx)) (a + 4) ≡ some head
unfolding publish
head-publish o a idx head written r e small =
    let o1 = write_word 4 o (a + 4) head in
    let o2 = write_word 4 o1 (a + 4 + 4) written in
    read_word-write_word_apart 2 2 o2 (a + 2) (a + 4) ((idx + 1) % 2 ^ 16) (inr (omega arith))
    ∙ read_word-write_word_apart 4 2 o1 (a + 4 + 4) (a + 4) written (inl (omega arith))
    ∙ read_word-write_word 2 o (a + 4) head (r.0, r.0 + 4)
        (shorter_range (length o.ram) o.ram_base (a + 4) 8 4 r e (omega arith)) small

publish-length :
    (o : Outside) (head written : ℕ) (u : UsedSlot)
    → (length (publish o head written u).ram ≡ length o.ram)
      × ((publish o head written u).ram_base ≡ o.ram_base)
unfolding publish write_word
publish-length o head written u =
    let o1 = write_word 4 o u.entry head in
    let o2 = write_word 4 o1 (u.entry + 4) written in
    let (l1, b1) = guest_write-length o u.entry (to_le_bytes 4 head) in
    let (l2, b2) = guest_write-length o1 (u.entry + 4) (to_le_bytes 4 written) in
    let (l3, b3) = guest_write-length o2 u.index_addr (to_le_bytes 2 ((u.idx + 1) % 2 ^ 16)) in
    (l3 ∙ l2 ∙ l1, b3 ∙ b2 ∙ b1)

same_walk :
    (q : Queue) (o : Outside) (w : Overlaps q o)
    → walk_chain 1
        (publish o w.head 0 (slot_of q.avail w.idx))
        (record q { last_avail_idx = (q.last_avail_idx + 1) % 2 ^ 16 })
        w.head
      ≡ some w.chain
unfolding walk_chain desc_at
same_walk q o w = walk_chain-publish o q w.idx w.head 0 w.head w.desc_apart ∙ w.chain_there

net_stays :
    (d : VirtioDev) (mac : List ℕ) (inbox outbox : List (List ℕ))
    → d.backend ≡ net mac inbox outbox
    → (advance_queue d 1).backend ≡ net mac inbox outbox
unfolding advance_queue
net_stays d mac inbox outbox e = e

advanced_length : (d : VirtioDev) → length (advance_queue d 1).queues ≡ length d.queues
unfolding advance_queue
advanced_length d = length-set d.queues 1 _

Overlaps-publish :
    (q : Queue) (o : Outside) (w : Overlaps q o)
    → Overlaps
        (record q { last_avail_idx = (q.last_avail_idx + 1) % 2 ^ 16 })
        (publish o w.head 0 (slot_of q.avail w.idx))
Overlaps-publish q o w =
    let (size, base) = publish-length o w.head 0 (slot_of q.avail w.idx) in
    record {
      one_slot = w.one_slot;
      overlap = w.overlap;
      fits = w.fits;
      idx = (w.idx + 1) % 2 ^ 16;
      head = w.head;
      chain = w.chain;
      range = w.range;
      index_range = w.index_range;
      index_in_ram = ground (arith, w.index_in_ram, size, base);
      idx_there = index-publish o q.avail w.idx w.head 0 w.index_range w.index_in_ram;
      idx_small = omega arith;
      last_small = omega arith;
      ahead = λ e. w.ahead (omega (arith, e, w.idx_small, w.last_small));
      head_there = head-publish o q.avail w.idx w.head 0 w.range w.in_room w.head_small;
      head_small = w.head_small;
      in_room = ground (arith, w.in_room, size, base);
      chain_there = same_walk q o w;
      desc_apart = w.desc_apart;
    }

-- A round goes on, and the next one is in the same position.
IsEndless-step :
    (d : VirtioDev) (o : Outside)
    → IsEndless d o
    → (d' : VirtioDev) × (o' : Outside) × (process_round 1 d o ≡ (true, d', o')) × IsEndless d' o'
unfolding queue_at
IsEndless-step d o w =
    let q = queue_at d 1 in
    let u = slot_of q.avail w.ring.idx in
    let (outbox', served) =
      transmit_chain d w.mac w.inbox w.outbox w.ring.head w.ring.chain u o w.backend_is in
    let sent : VirtioDev = record d { backend = net w.mac w.inbox outbox' } in
    let q' : Queue = record q { last_avail_idx = (q.last_avail_idx + 1) % 2 ^ 16 } in
    let o' = publish o w.ring.head 0 u in
    let next : queue_at (advance_queue sent 1) 1 ≡ q' = queue_at-advance_queue sent 1 w.two in
    (
      advance_queue sent 1,
      o',
      endless_round d o w.ring ∙ served,
      record {
        mac = w.mac;
        inbox = w.inbox;
        outbox = outbox';
        backend_is = net_stays sent w.mac w.inbox outbox' refl;
        two = omega (arith, w.two, advanced_length sent);
        ring = subst (λ t. Overlaps t o') (sym next) (Overlaps-publish q o w.ring);
      },
    )

endless_loop :
    (fuel : ℕ) (d : VirtioDev) (o : Outside) → IsEndless d o → process_loop fuel 1 d o ≡ none
unfolding process_loop
endless_loop zero d o w = refl
endless_loop (suc fuel) d o w =
    let (d', o', goes_on, w') = IsEndless-step d o w in
    loop-again fuel 1 d d' o o' goes_on ∙ endless_loop fuel d' o' w'

-- No number of rounds is enough to process a transmit queue of one slot whose used ring is its
-- available ring: each round makes the chain that it gives back available again.
pub transmit_never_ends :
    (d : VirtioDev) (o : Outside) (fuel : ℕ)
    → IsEndless d o
    → (queue_at d 1).ready ≢ 0
    → process fuel 1 d o ≡ none
unfolding process
transmit_never_ends d o fuel w on =
    ground
      (arith, on, net-has_pending d w.mac w.inbox w.outbox w.backend_is, endless_loop fuel d o w)
