-- ===== src/System/Virtio/Reachable/Registers.antt =====
-- Register writes and mailboxes keep the invariant: `write`, `net_input` and `net_take_output` of
-- crates/rv64-system/src/virtio.rs.
use lish.Prelude.{
  ℕ, ◌^◌, ◌≤◌, ◌<◌, ◌≡◌, refl, subst, arith, Bool, true, false, ◌&&◌, Bool-cases, inl, inr, List,
  length, none, ltb, leb, ◌==◌, if◌then◌else◌,
}
use lish.System.Virtio.Device.{
  VirtioDev, Backend, block, external_block, net, Queue, net_max_frame, net_queue_limit,
  queue_num_max, selected, set_selected, write_device_status, write_register, write, net_input,
  net_take_output,
}
use lish.System.Virtio.Transport.{queue_at}
use lish.System.Virtio.Reachable.Valid.{
  Mailboxes, IsValid, IsBounded-append, backend-IsValid, queue-IsValid, fresh-IsValid,
}

set_selected-IsValid :
    (d : VirtioDev) (q : Queue)
    → IsValid d
    → q.num ≤ queue_num_max d
    → q.last_avail_idx < 2 ^ 16
    → IsValid (set_selected d q)
unfolding set_selected
set_selected-IsValid d q v num index = queue-IsValid d d.queue_sel d.int_status q v num index

pub net_input-IsValid : (d : VirtioDev) (frame : List ℕ) → IsValid d → IsValid (net_input d frame)
unfolding net_input queue_num_max
net_input-IsValid d frame v = got d.backend refl
  where
    got : (b : Backend) → d.backend ≡ b → IsValid (net_input d frame)
    got (block disk) e = rw (e, net_input) v
    got (external_block size pending) e = rw (e, net_input) v
    got (net mac inbox outbox) e =
        let (before, sent) = subst Mailboxes e v.mailboxes in
        elim (Bool-cases (leb (length frame) net_max_frame && ltb (length inbox) net_queue_limit)) [
          | inr dropped ↦ rw (e, net_input, dropped) v
          | inl kept ↦
              rw (e, net_input, kept)
                (backend-IsValid d _ v (ground (arith, e)) (
                  IsBounded-append inbox frame before (ground (arith, kept)) (ground (arith, kept)),
                  sent,
                ))
        ]

pub net_take_output-IsValid : (d : VirtioDev) → IsValid d → IsValid (net_take_output d).1
unfolding net_take_output queue_num_max
net_take_output-IsValid d v = taken d.backend refl
  where
    taken : (b : Backend) → d.backend ≡ b → IsValid (net_take_output d).1
    taken (block disk) e = rw (e, net_take_output) v
    taken (external_block size pending) e = rw (e, net_take_output) v
    taken (net mac inbox outbox) e =
        let (got, _) = subst Mailboxes e v.mailboxes in
        rw (e, net_take_output) (backend-IsValid d _ v (ground (arith, e)) (got, (omega arith, tt)))

-- A register write.
if-IsValid : (t : Bool) (x y : VirtioDev) → IsValid x → IsValid y → IsValid (if t then x else y)
if-IsValid true x y v w = v
if-IsValid false x y v w = w

sel-IsValid :
    (d : VirtioDev) (status features driver sel int : ℕ)
    → IsValid d
    → sel < 2
    → IsValid (record d {
      status = status;
      device_features_sel = features;
      driver_features_sel = driver;
      queue_sel = sel;
      int_status = int;
    })
unfolding queue_at queue_num_max
sel-IsValid d status features driver sel int v small = record {
  two = v.two;
  in_queues = small;
  nums = v.nums;
  indices = v.indices;
  mailboxes = v.mailboxes;
}

reset-IsValid : (d : VirtioDev) (val : ℕ) → IsValid d → IsValid (write_device_status d val)
unfolding write_device_status
reset-IsValid d val v = elim (Bool-cases (val == 0)) [
  | inr on ↦ rw (on, write_device_status) (sel-IsValid d val _ _ _ _ v v.in_queues)
  | inl off ↦
      rw (off, write_device_status) (fresh-IsValid _ refl v.in_queues (kept d.backend v.mailboxes))
]
  where
    kept :
        (b : Backend)
        → Mailboxes b
        → Mailboxes (elim b [
          | external_block size _ ↦ external_block size none
          | block disk ↦ block disk
          | net mac inbox outbox ↦ net mac inbox outbox
        ])
    kept (block disk) m = tt
    kept (external_block size pending) m = tt
    kept (net mac inbox outbox) m = m

write_register-IsValid :
    (d : VirtioDev) (offset val : ℕ) → IsValid d → IsValid (write_register d offset val)
unfolding write_register selected queue_at
write_register-IsValid d offset val v =
    let q = selected d in
    let num = v.nums d.queue_sel in
    let index = v.indices d.queue_sel in
    if-IsValid (offset == 0x014) _ _ (sel-IsValid d _ _ _ _ _ v v.in_queues) (
      if-IsValid (offset == 0x024) _ _ (sel-IsValid d _ _ _ _ _ v v.in_queues) (
        if-IsValid (offset == 0x030) _ _ (sel-IsValid d _ _ _ _ _ v (omega arith)) (
          if-IsValid (offset == 0x038) _ _ (set_selected-IsValid d _ v (omega arith) index) (
            if-IsValid (offset == 0x044) _ _ (set_selected-IsValid d _ v num index) (
              if-IsValid (offset == 0x064) _ _ (sel-IsValid d _ _ _ _ _ v v.in_queues) (
                if-IsValid (offset == 0x070) _ _ (reset-IsValid d val v) (
                  if-IsValid (offset == 0x080) _ _ (set_selected-IsValid d _ v num index) (
                    if-IsValid (offset == 0x084) _ _ (set_selected-IsValid d _ v num index) (
                      if-IsValid (offset == 0x090) _ _ (set_selected-IsValid d _ v num index) (
                        if-IsValid (offset == 0x094) _ _ (set_selected-IsValid d _ v num index) (
                          if-IsValid (offset == 0x0a0) _ _ (set_selected-IsValid d _ v num index) (
                            if-IsValid (offset == 0x0a4) _ _ (set_selected-IsValid d _ v num index)
                              v))))))))))))

pub write-IsValid : (d : VirtioDev) (offset val : ℕ) → IsValid d → IsValid (write d offset val).1
unfolding write
write-IsValid d offset val v = elim (Bool-cases (offset == 0x050)) [
  | inl notify ↦ rw (notify, write) v
  | inr other ↦ rw (other, write) (write_register-IsValid d offset val v)
]
