-- ===== src/System/Virtio/Reachable/Valid.antt =====
-- The invariant of a device: crates/rv64-system/src/virtio.rs, `VirtioDev`.
use lish.Prelude.{
  ℕ, zero, suc, ◌^◌, ◌≤◌, ◌<◌, ◌≡◌, refl, arith, true, List, [], ◌∷◌, ◌++◌, length, length-append,
  length-set, get_or, set, get_or-set, ltb, leb,
}
use lish.System.Virtio.Device.{
  VirtioDev, Backend, block, external_block, net, Queue, no_queue, no_queues, net_max_frame,
  net_queue_limit, queue_num_max,
}
use lish.System.Virtio.Transport.{queue_at}

-- No frame is longer than the limit.
abbrev pub AllSmall : List (List ℕ) → Type 0
AllSmall [] = Unit {0}
AllSmall (frame ∷ rest) = (length frame ≤ net_max_frame) × AllSmall rest

abbrev pub IsBounded : List (List ℕ) → Type 0
IsBounded frames = (length frames ≤ net_queue_limit) × AllSmall frames

abbrev pub Mailboxes : Backend → Type 0
Mailboxes (block disk) = Unit {0}
Mailboxes (external_block size pending) = Unit {0}
Mailboxes (net mac inbox outbox) = IsBounded inbox × IsBounded outbox

pub record IsValid (d : VirtioDev) : Type 0 where
  pub two : length d.queues ≡ 2
  pub in_queues : d.queue_sel < 2
  pub nums : (qi : ℕ) → (queue_at d qi).num ≤ queue_num_max d
  pub indices : (qi : ℕ) → (queue_at d qi).last_avail_idx < 2 ^ 16
  pub mailboxes : Mailboxes d.backend

AllSmall-append :
    (xs : List (List ℕ)) (frame : List ℕ)
    → AllSmall xs
    → length frame ≤ net_max_frame
    → AllSmall (xs ++ (frame ∷ []))
AllSmall-append [] frame all small = (small, tt)
AllSmall-append (x ∷ xs) frame (first, rest) small = (first, AllSmall-append xs frame rest small)

-- A frame goes into a mailbox that has room.
pub IsBounded-append :
    (xs : List (List ℕ)) (frame : List ℕ)
    → IsBounded xs
    → ltb (length xs) net_queue_limit ≡ true
    → leb (length frame) net_max_frame ≡ true
    → IsBounded (xs ++ (frame ∷ []))
IsBounded-append xs frame (size, all) room small = (
  ground (arith, length-append xs (frame ∷ []), room),
  AllSmall-append xs frame all (ground (arith, small)),
)

-- A change of the backend to one of the same kind.
pub backend-IsValid :
    (d : VirtioDev) (b : Backend)
    → IsValid d
    → queue_num_max (record d { backend = b }) ≡ queue_num_max d
    → Mailboxes b
    → IsValid (record d { backend = b })
unfolding queue_at
backend-IsValid d b v same m = record {
  two = v.two;
  in_queues = v.in_queues;
  nums = λ qi. omega (arith, v.nums qi, same);
  indices = v.indices;
  mailboxes = m;
}

-- A change of one queue.
pub queue-IsValid :
    (d : VirtioDev) (qi status : ℕ) (q : Queue)
    → IsValid d
    → q.num ≤ queue_num_max d
    → q.last_avail_idx < 2 ^ 16
    → IsValid (record d { queues = set d.queues qi q; int_status = status })
unfolding queue_at queue_num_max
queue-IsValid d qi status q v num index = record {
  two = omega (arith, v.two, length-set d.queues qi q);
  in_queues = v.in_queues;
  nums = λ j. ground (arith, get_or-set d.queues qi j q no_queue, v.nums j, num);
  indices = λ j. ground (arith, get_or-set d.queues qi j q no_queue, v.indices j, index);
  mailboxes = v.mailboxes;
}

-- Queues after a reset.
no_queues-empty : (qi : ℕ) → get_or no_queues qi no_queue ≡ no_queue
no_queues-empty zero = refl
no_queues-empty (suc zero) = refl
no_queues-empty (suc (suc qi)) = refl

pub fresh-IsValid :
    (d : VirtioDev) → d.queues ≡ no_queues → d.queue_sel < 2 → Mailboxes d.backend → IsValid d
unfolding queue_at
fresh-IsValid d e small m = record {
  two = ground (arith, e);
  in_queues = small;
  nums = λ qi. ground (arith, e, no_queues-empty qi);
  indices = λ qi. ground (arith, e, no_queues-empty qi);
  mailboxes = m;
}
