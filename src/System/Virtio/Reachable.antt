-- ===== src/System/Virtio/Reachable.antt =====
-- The states that a device can come to: every operation of `VirtioDev` in
-- crates/rv64-system/src/virtio.rs that changes it.
pub mod Valid
pub mod Queues
pub mod Registers
use lish.Prelude.{
  ℕ, zero, suc, ◌+◌, ◌-◌, ◌*◌, ◌%◌, ◌^◌, ◌≤◌, ◌<◌, ◌≡◌, refl, sym, ap, ◌∙◌, subst, arith, min, Bool,
  true, false, not, ◌&&◌, ◌||◌, Bool-cases, Option-cases, inl, inr, List, [], ◌∷◌, ◌++◌, length,
  length-append, length-set, length-drop, drop, get_or, set, get_or-set, Option, none, some, ltb,
  leb, ◌==◌, ◌!=◌, if◌then◌else◌,
}
use lish.System.Virtio.Memory.{Outside}
use lish.System.Virtio.Device.{
  VirtioDev, Backend, block, external_block, net, Queue, no_queue, no_queues, PendingBlockRequest,
  net_max_frame, net_queue_limit, net_hdr_len, queue_num_max, selected, set_selected,
  write_device_status, write_register, write, net_input, net_take_output, new, max_queues,
}
use lish.System.Virtio.Disk.{Desc}
use lish.System.Virtio.Net.{receive, transmit, reassemble}
use lish.System.Virtio.Transport.{
  UsedSlot, service, queue_at, remember, advance_queue, serve_chain, process_round, process_loop,
  process, has_pending_block_request,
}
use lish.System.Virtio.Transport.Rounds.{Serving, Round-cases}
use lish.System.Virtio.Completion.{complete_block_request, commit, completion_targets_valid}
use lish.System.Virtio.Reachable.Valid.{
  AllSmall, IsBounded, Mailboxes, IsValid, IsBounded-append, backend-IsValid, queue-IsValid,
  fresh-IsValid,
}
use lish.System.Virtio.Reachable.Queues.{process-IsValid, complete-IsValid}
use lish.System.Virtio.Reachable.Registers.{
  write-IsValid, net_input-IsValid, net_take_output-IsValid,
}

-- What becomes of a device: register writes, queues processed to the end, completions by the host,
-- and frames to and from it.
pub data Reachable (b : Backend) : VirtioDev → Type 0 where
  made : Reachable b (new b)
  written : {d : VirtioDev} (offset val : ℕ) → Reachable b d → Reachable b (write d offset val).1
  processed :
      {d d' : VirtioDev} (fuel qi : ℕ) (o o' : Outside)
      → process fuel qi d o ≡ some (d', o')
      → Reachable b d
      → Reachable b d'
  completed :
      {d : VirtioDev} (id : ℕ) (bytes : List ℕ) (ok : Bool) (o : Outside)
      → Reachable b d
      → Reachable b (complete_block_request d id bytes ok o).1
  sent : {d : VirtioDev} (frame : List ℕ) → Reachable b d → Reachable b (net_input d frame)
  collected : {d : VirtioDev} → Reachable b d → Reachable b (net_take_output d).1

-- Whatever the guest and the host do with a device, its queues are two, no deeper than it says and
-- with 16-bit indices, the selected queue is one of them, and neither mailbox holds more than 256
-- frames or a frame above 1600 bytes, if this is so of the mailboxes at first.
pub reachable-IsValid : (b : Backend) (d : VirtioDev) → Mailboxes b → Reachable b d → IsValid d
unfolding new
reachable-IsValid b d m made = fresh-IsValid (new b) refl (omega arith) m
reachable-IsValid b d m (written {d = c} offset val r) =
    write-IsValid c offset val (reachable-IsValid b c m r)
reachable-IsValid b d m (processed {d = c} fuel qi o o' e r) =
    process-IsValid fuel qi c d o o' (reachable-IsValid b c m r) e
reachable-IsValid b d m (completed {d = c} id bytes ok o r) =
    complete-IsValid c id bytes ok o (reachable-IsValid b c m r)
reachable-IsValid b d m (sent {d = c} frame r) =
    net_input-IsValid c frame (reachable-IsValid b c m r)
reachable-IsValid b d m (collected {d = c} r) =
    net_take_output-IsValid c (reachable-IsValid b c m r)
