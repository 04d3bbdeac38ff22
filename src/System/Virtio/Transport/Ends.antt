-- ===== src/System/Virtio/Transport/Ends.antt =====
-- The loop of `process` ends, or does not: crates/rv64-system/src/virtio.rs, with the network backend.
use lish.Prelude.{
  ℕ, zero, suc, ◌+◌, ◌-◌, ◌*◌, ◌%◌, ◌^◌, ◌≤◌, ◌<◌, ◌≡◌, refl, sym, ap, ◌∙◌, subst, arith, true,
  false, Bool-cases, ◌⊎◌, inl, inr, List, [], ◌∷◌, length, get_or, get_or-set, length-set, some,
  leb, ◌==◌, ◌||◌,
}
use native.Mathlib.Nat.{mod-lt}
use lish.Core.Bus.{checked_add}
use lish.System.Virtio.Memory.{Outside, write_word}
use lish.System.Virtio.Memory.Apart.{read_word-write_word_apart}
use lish.System.Virtio.Device.{VirtioDev, net, Queue, no_queue, max_queues}
use lish.System.Virtio.Disk.{Desc}
use lish.System.Virtio.Net.{receive, transmit}
use lish.System.Virtio.Transport.{
  UsedSlot, service, queue_at, serve_chain, advance_queue, publish, avail_idx, used_slot,
  process_round, process_loop, process, has_pending_block_request,
}
use lish.System.Virtio.Transport.Rounds.{Round-cases}

-- A round on the queue of a frame that goes on has taken a frame from the mailbox.
receive_again :
    (d : VirtioDev) (mac : List ℕ) (inbox outbox : List (List ℕ)) (head : ℕ) (chain : List Desc)
    (u : UsedSlot) (o : Outside)
    → d.backend ≡ net mac inbox outbox
    → (serve_chain d 0 head chain u o).0 ≡ true
    → (rest : List (List ℕ)) × (length inbox ≡ suc (length rest))
      × ((serve_chain d 0 head chain u o).1.backend ≡ net mac rest outbox)
unfolding serve_chain service receive advance_queue
receive_again d mac [] outbox head chain u o e again = absurd (ground (arith, e, again))
receive_again d mac (frame ∷ inbox) outbox head chain u o e again =
    (inbox, refl, ground (arith, e, again))

receive_loop :
    (fuel : ℕ) (d : VirtioDev) (mac : List ℕ) (inbox outbox : List (List ℕ)) (o : Outside)
    → d.backend ≡ net mac inbox outbox
    → length inbox < fuel
    → (r : VirtioDev × Outside) × (process_loop fuel 0 d o ≡ some r)
unfolding process_loop
receive_loop zero d mac inbox outbox o e enough = absurd (omega arith)
receive_loop (suc fuel) d mac inbox outbox o e enough =
    let (_, d1, o1) = process_round 0 d o in
    elim (Bool-cases (process_round 0 d o).0) [
      | inr done ↦ ((d1, o1), rw (process_loop, done) refl)
      | inl again ↦ elim (Round-cases 0 d o) [
        | inl idle ↦ absurd (ground (arith, idle, again))
        | inr s ↦
            let (rest, size, e') =
              receive_again d mac inbox outbox s.head s.chain s.slot o e
                (sym (ap (λ t. t.0) s.serves) ∙ again) in
            let (r, ends) =
              receive_loop fuel d1 mac rest outbox o1 (ap (λ t. t.1.backend) s.serves ∙ e')
                (omega (arith, size, enough)) in
            (r, rw (process_loop, again) ends)
      ]
    ]

pub net-has_pending :
    (d : VirtioDev) (mac : List ℕ) (inbox outbox : List (List ℕ))
    → d.backend ≡ net mac inbox outbox
    → has_pending_block_request d ≡ false
unfolding has_pending_block_request
net-has_pending d mac inbox outbox e = ground (arith, e)

-- A notification of the receive queue is processed in one round more than there are frames for the
-- guest, whatever the guest's memory holds.
pub process_receive_ends :
    (d : VirtioDev) (mac : List ℕ) (inbox outbox : List (List ℕ)) (o : Outside) (fuel : ℕ)
    → d.backend ≡ net mac inbox outbox
    → length inbox < fuel
    → (r : VirtioDev × Outside) × (process fuel 0 d o ≡ some r)
unfolding process has_pending_block_request
process_receive_ends d mac inbox outbox o fuel e enough =
    elim (Bool-cases (leb max_queues 0 || (queue_at d 0).ready == 0)) [
      | inl off ↦ ((d, o), rw (process, off) refl)
      | inr on ↦
          let (r, ends) = receive_loop fuel d mac inbox outbox o e enough in
          (r, rw (process, on, net-has_pending d mac inbox outbox e) ends)
    ]

-- The used ring does not reach the index of the available ring.
abbrev pub RingsApart : Queue → Type 0
RingsApart q = (q.avail + 4 ≤ q.used + 2) ⊎ (q.used + 4 + q.num * 8 ≤ q.avail + 2)

pub used_slot-at :
    (o : Outside) (q : Queue) (u : UsedSlot)
    → used_slot o q ≡ some u
    → (u.index_addr ≡ q.used + 2) × (u.entry ≡ q.used + (4 + u.idx % q.num * 8))
unfolding used_slot checked_add
used_slot-at o q u e = ground (arith, e)

-- Giving a chain back leaves the index of the available ring as it is.
avail_idx-publish :
    (o : Outside) (q : Queue) (u : UsedSlot) (head written : ℕ)
    → (q.num == 0) ≡ false
    → used_slot o q ≡ some u
    → RingsApart q
    → avail_idx (publish o head written u) q ≡ avail_idx o q
unfolding avail_idx publish checked_add
avail_idx-publish o q u head written some_num e apart =
    let (at, entry) = used_slot-at o q u e in
    let small : u.idx % q.num < q.num = mod-lt u.idx (ground arith) in
    let slot : u.idx % q.num * 8 + 8 ≤ q.num * 8 = omega (arith, small) in
    let o1 = write_word 4 o u.entry head in
    let o2 = write_word 4 o1 (u.entry + 4) written in
    ground (
      arith,
      read_word-write_word_apart 4 2 o u.entry (q.avail + 2) head
          (ground (arith, entry, slot, apart)),
      read_word-write_word_apart 4 2 o1 (u.entry + 4) (q.avail + 2) written
          (ground (arith, entry, slot, apart)),
      read_word-write_word_apart 2 2 o2 u.index_addr (q.avail + 2) ((u.idx + 1) % 2 ^ 16)
          (ground (arith, at, slot, apart)),
    )

transmit_lem :
    (inbox outbox : List (List ℕ)) (chain : List Desc) (o : Outside)
    → (outbox' : List (List ℕ)) × (transmit inbox outbox chain o ≡ (some 0, inbox, outbox', o))
unfolding transmit
transmit_lem inbox outbox chain o = ((transmit inbox outbox chain o).2, ground arith)

pub transmit_chain :
    (d : VirtioDev) (mac : List ℕ) (inbox outbox : List (List ℕ)) (head : ℕ) (chain : List Desc)
    (u : UsedSlot) (o : Outside)
    → d.backend ≡ net mac inbox outbox
    → (outbox' : List (List ℕ)) × (serve_chain d 1 head chain u o ≡ (
      true,
      advance_queue (record d { backend = net mac inbox outbox' }) 1,
      publish o head 0 u,
    ))
unfolding serve_chain service
transmit_chain d mac inbox outbox head chain u o e =
    let (outbox', sent) = transmit_lem inbox outbox chain o in
    let served : service d 1 chain o ≡ (some 0, record d { backend = net mac inbox outbox' }, o) =
      ground (arith, e, sent) in
    (outbox', ground (arith, served))

pub queue_at-advance_queue :
    (d : VirtioDev) (qi : ℕ)
    → qi < length d.queues
    → queue_at (advance_queue d qi) qi
      ≡ (let q = queue_at d qi in record q { last_avail_idx = (q.last_avail_idx + 1) % 2 ^ 16 })
unfolding queue_at advance_queue
queue_at-advance_queue d qi lt =
    let q = get_or d.queues qi no_queue in
    ground (
      arith,
      get_or-set d.queues qi qi (record q { last_avail_idx = (q.last_avail_idx + 1) % 2 ^ 16 })
          no_queue,
    )

loop-stop :
    (fuel qi : ℕ) (d d' : VirtioDev) (o o' : Outside)
    → process_round qi d o ≡ (false, d', o')
    → process_loop (suc fuel) qi d o ≡ some (d', o')
unfolding process_loop
loop-stop fuel qi d d' o o' e = ground (arith, e)

pub loop-again :
    (fuel qi : ℕ) (d d' : VirtioDev) (o o' : Outside)
    → process_round qi d o ≡ (true, d', o')
    → process_loop (suc fuel) qi d o ≡ process_loop fuel qi d' o'
unfolding process_loop
loop-again fuel qi d d' o o' e = ground (arith, e)

transmit_loop :
    (fuel k : ℕ) (d : VirtioDev) (mac : List ℕ) (inbox outbox : List (List ℕ)) (o : Outside)
    (idx : ℕ)
    → d.backend ≡ net mac inbox outbox
    → 1 < length d.queues
    → avail_idx o (queue_at d 1) ≡ some idx
    → (queue_at d 1).last_avail_idx < 2 ^ 16
    → idx ≡ ((queue_at d 1).last_avail_idx + k) % 2 ^ 16
    → RingsApart (queue_at d 1)
    → k < fuel
    → (r : VirtioDev × Outside) × (process_loop fuel 1 d o ≡ some r)
unfolding queue_at advance_queue avail_idx
transmit_loop zero k d mac inbox outbox o idx e two there last ahead apart enough =
    absurd (omega arith)
transmit_loop (suc fuel) k d mac inbox outbox o idx e two there last ahead apart enough =
    elim (Round-cases 1 d o) [
      | inl idle ↦ ((d, o), loop-stop fuel 1 d d o o idle)
      | inr s ↦
          let q = queue_at d 1 in
          let same : idx ≡ s.idx = ground (arith, there, s.idx_there) in
          let (outbox', chain) = transmit_chain d mac inbox outbox s.head s.chain s.slot o e in
          let d1 = advance_queue (record d { backend = net mac inbox outbox' }) 1 in
          let o1 = publish o s.head 0 s.slot in
          let round : process_round 1 d o ≡ (true, d1, o1) = s.serves ∙ chain in
          let q' : Queue = record q { last_avail_idx = (q.last_avail_idx + 1) % 2 ^ 16 } in
          let next : queue_at d1 1 ≡ q' =
            queue_at-advance_queue (record d { backend = net mac inbox outbox' }) 1 two in
          let stays = avail_idx-publish o q s.slot s.head 0 s.num_not_zero s.slot_there apart in
          let counts : (queue_at d1 1).last_avail_idx ≡ (q.last_avail_idx + 1) % 2 ^ 16 =
            ap (λ t. t.last_avail_idx) next in
          let some_left : 0 < k = ground (arith, same, s.idx_ahead, ahead, last) in
          let (r, ends) =
            transmit_loop fuel (k - 1) d1 mac inbox outbox' o1 idx refl
              (omega (arith, two, length-set d.queues 1 q'))
              (subst (λ t. avail_idx o1 t ≡ some idx) (sym next) (stays ∙ there))
              (omega (arith, counts)) (omega (arith, counts, ahead, some_left))
              (subst RingsApart (sym next) apart) (omega (arith, enough, some_left)) in
          (r, loop-again fuel 1 d d1 o o1 round ∙ ends)
    ]

-- A notification of the transmit queue is processed in at most 2 ^ 16 rounds, if the used ring does
-- not reach the index of the available ring.
pub process_transmit_ends :
    (d : VirtioDev) (mac : List ℕ) (inbox outbox : List (List ℕ)) (o : Outside) (idx fuel : ℕ)
    → d.backend ≡ net mac inbox outbox
    → 1 < length d.queues
    → avail_idx o (queue_at d 1) ≡ some idx
    → idx < 2 ^ 16
    → (queue_at d 1).last_avail_idx < 2 ^ 16
    → RingsApart (queue_at d 1)
    → 2 ^ 16 ≤ fuel
    → (r : VirtioDev × Outside) × (process fuel 1 d o ≡ some r)
unfolding process
process_transmit_ends d mac inbox outbox o idx fuel e two there small last apart enough =
    let k = (idx + (2 ^ 16 - (queue_at d 1).last_avail_idx)) % 2 ^ 16 in
    elim (Bool-cases (leb max_queues 1 || (queue_at d 1).ready == 0)) [
      | inl off ↦ ((d, o), rw (process, off) refl)
      | inr on ↦
          let (r, ends) =
            transmit_loop fuel k d mac inbox outbox o idx e two there last
              (omega (arith, small, last)) apart (omega (arith, enough)) in
          (r, rw (process, on, net-has_pending d mac inbox outbox e) ends)
    ]
