-- ===== src/System/Virtio/Tests.antt =====
-- Virtio devices at concrete inputs: crates/rv64-system/src/virtio.rs.
use lish.Prelude.{
  ℕ, ◌+◌, ◌*◌, ◌^◌, ◌≡◌, ◌≢◌, refl, arith, inl, inr, Bool, true, false, List, [], ◌∷◌, ◌++◌,
  replicate, Option, none, some, if◌then◌else◌,
}
use lish.System.JitPages
use lish.System.Virtio.Memory.{Outside, guest_slice}
use lish.System.Virtio.Memory.Observed.{IsTracked, Observed}
use lish.System.Virtio.Device.{
  VirtioDev, Queue, PendingBlockRequest, read_kind, external_block, net, new, net_input,
}
use lish.System.Virtio.Disk.{Desc, Progress, serve_segment, virtio_blk_t_in, virtio_blk_t_out}
use lish.System.Virtio.Disk.RoundTrip.{write_then_read}
use lish.System.Virtio.External.{serve_external}
use lish.System.Virtio.External.Requests.{IsRequest, serve_external-IsRequest}
use lish.System.Virtio.Transport.{process}
use lish.System.Virtio.Transport.Writes.{process-Observed}
use lish.System.Virtio.Transport.Ends.{process_receive_ends, process_transmit_ends}
use lish.System.Virtio.Transport.Endless.{IsEndless, transmit_never_ends}
use lish.System.Virtio.Completion.{complete_block_request}
use lish.System.Virtio.Completion.Commit.{Completed, complete_commits}
use lish.System.Virtio.Reachable.{made, sent, reachable-IsValid}
use lish.System.Virtio.Reachable.Valid.{IsValid}

-- A descriptor of 16 bytes at 64, an available ring at 16 with one chain, a used ring at 24, and
-- from 64 on a header of zeros, four bytes and more room.
abbrev ring_ram : List ℕ
ring_ram =
    (0x40 ∷ 0 ∷ 0 ∷ 0x80 ∷ 0 ∷ 0 ∷ 0 ∷ 0 ∷ 16 ∷ 0 ∷ 0 ∷ 0 ∷ 0 ∷ 0 ∷ 0 ∷ 0 ∷ [])
    ++ (0 ∷ 0 ∷ 1 ∷ 0 ∷ 0 ∷ 0 ∷ 0 ∷ 0 ∷ [])
    ++ replicate 52 0
    ++ (1 ∷ 2 ∷ 3 ∷ 4 ∷ [])
    ++ replicate 16 0

abbrev ring_guest : Outside
ring_guest = record { ram = ring_ram; ram_base = 0x8000_0000; jit = JitPages.new 4096; next_id = 1 }

-- A network device that transmits from that ring, and one whose rings are the same.
abbrev ring_queue : ℕ → Queue
ring_queue used = record {
  ready = 1;
  num = 1;
  desc = 0x8000_0000;
  avail = 0x8000_0010;
  used = used;
  last_avail_idx = 0;
}

abbrev net_device : List (List ℕ) → Queue → VirtioDev
net_device inbox q =
    let d = new (net (0x52 ∷ 0x54 ∷ 0 ∷ 0x12 ∷ 0x34 ∷ 0x56 ∷ []) inbox []) in
    record d { queues = q ∷ q ∷ [] }

abbrev apart_device : VirtioDev
apart_device = net_device [] (ring_queue 0x8000_0018)

abbrev overlap_device : VirtioDev
overlap_device = net_device [] (ring_queue 0x8000_0010)

ring_guest-IsTracked : IsTracked ring_guest
unfolding JitPages.new
ring_guest-IsTracked = record {
  based = refl;
  sized = refl;
  covered = omega arith;
  fits = omega arith;
}

-- The state after the frame is sent.
abbrev after_frame : VirtioDev × Outside
after_frame = elim (process 2 1 apart_device ring_guest) [
  | none ↦ (apart_device, ring_guest)
  | some r ↦ r
]

frame_sent : process 2 1 apart_device ring_guest ≡ some after_frame
unfolding process lish.System.Virtio.Transport.queue_at
    lish.System.Virtio.Transport.has_pending_block_request new
    lish.System.Virtio.Transport.process_loop lish.System.Virtio.Transport.process_round
    lish.System.Virtio.Transport.avail_idx lish.Core.Bus.checked_add
    lish.System.Virtio.Memory.read_word guest_slice lish.System.Ram.checked_ram_range
    lish.Core.Bus.checked_sub lish.Prelude.Memory.from_le_bytes lish.Prelude.Memory.read_at
    lish.System.Virtio.Transport.next_head lish.System.Virtio.Transport.walk_chain
    lish.System.Virtio.Transport.desc_at lish.System.Virtio.Transport.desc_word
    lish.Prelude.Memory.to_le_bytes lish.Prelude.Memory.write_at JitPages.note_page_write
    JitPages.note_pages JitPages.note_write JitPages.page_for_address JitPages.new
    lish.System.Virtio.Memory.checked_mul lish.System.Virtio.Memory.guest_write
    lish.System.Virtio.Memory.write_word lish.System.Virtio.Net.reassemble
    lish.System.Virtio.Net.transmit lish.System.Virtio.Transport.advance_queue
    lish.System.Virtio.Transport.publish lish.System.Virtio.Transport.serve_chain
    lish.System.Virtio.Transport.service lish.System.Virtio.Transport.used_slot
frame_sent = refl

process-Observed_example : Observed ring_guest after_frame.1
process-Observed_example =
    process-Observed 2 1 apart_device after_frame.0 ring_guest after_frame.1 ring_guest-IsTracked
      frame_sent

process_receive_ends_example :
    (r : VirtioDev × Outside) × (process 2 0
        (net_device ((1 ∷ 2 ∷ []) ∷ []) (ring_queue 0x8000_0018))
        ring_guest
      ≡ some r)
unfolding new
process_receive_ends_example =
    process_receive_ends (net_device ((1 ∷ 2 ∷ []) ∷ []) (ring_queue 0x8000_0018))
      (0x52 ∷ 0x54 ∷ 0 ∷ 0x12 ∷ 0x34 ∷ 0x56 ∷ []) ((1 ∷ 2 ∷ []) ∷ []) [] ring_guest 2 refl
      (omega arith)

process_transmit_ends_example :
    (r : VirtioDev × Outside) × (process (2 ^ 16) 1 apart_device ring_guest ≡ some r)
unfolding new lish.System.Virtio.Transport.avail_idx lish.Core.Bus.checked_add
    lish.System.Virtio.Transport.queue_at lish.System.Virtio.Memory.read_word guest_slice
    lish.System.Ram.checked_ram_range lish.Core.Bus.checked_sub lish.Prelude.Memory.from_le_bytes
    lish.Prelude.Memory.read_at
process_transmit_ends_example =
    process_transmit_ends apart_device (0x52 ∷ 0x54 ∷ 0 ∷ 0x12 ∷ 0x34 ∷ 0x56 ∷ []) [] [] ring_guest
      1 (2 ^ 16) refl (omega arith) refl (omega arith) (omega arith) (inl (omega arith))
      (omega arith)

overlap-IsEndless : IsEndless overlap_device ring_guest
unfolding new lish.System.Virtio.Transport.queue_at lish.System.Ram.checked_ram_range
    lish.Core.Bus.checked_sub lish.Core.Bus.checked_add lish.System.Virtio.Memory.read_word
    guest_slice lish.Prelude.Memory.from_le_bytes lish.Prelude.Memory.read_at
    lish.System.Virtio.Transport.walk_chain lish.System.Virtio.Transport.desc_at
    lish.System.Virtio.Memory.checked_mul lish.System.Virtio.Transport.desc_word
overlap-IsEndless = record {
  mac = 0x52 ∷ 0x54 ∷ 0 ∷ 0x12 ∷ 0x34 ∷ 0x56 ∷ [];
  inbox = [];
  outbox = [];
  backend_is = refl;
  two = omega arith;
  ring = record {
    one_slot = refl;
    overlap = refl;
    fits = omega arith;
    idx = 1;
    head = 0;
    chain = record { addr = 0x8000_0040; len = 16; writable = false } ∷ [];
    range = (20, 28);
    index_range = (18, 20);
    index_in_ram = refl;
    idx_there = refl;
    idx_small = omega arith;
    last_small = omega arith;
    ahead = λ e. absurd (omega (arith, e));
    head_there = refl;
    head_small = omega arith;
    in_room = refl;
    chain_there = refl;
    desc_apart = inl (omega arith);
  };
}

transmit_never_ends_example : process 1000 1 overlap_device ring_guest ≡ none
unfolding lish.System.Virtio.Transport.queue_at new
transmit_never_ends_example =
    transmit_never_ends overlap_device ring_guest 1000 overlap-IsEndless
      (λ e. absurd (omega (arith, e)))

-- A read of eight bytes from the start of a disk of a sector: the header at 48, the buffer at 80,
-- the status byte at 88.
abbrev read_chain : List Desc
read_chain =
    record { addr = 0x8000_0030; len = 16; writable = false }
    ∷ record { addr = 0x8000_0050; len = 8; writable = true }
    ∷ record { addr = 0x8000_0058; len = 1; writable = true }
    ∷ []

abbrev read_request : PendingBlockRequest
read_request = record {
  id = 1;
  kind = read_kind;
  offset = 0;
  data_bytes = [];
  request_length = 8;
  read_buffers = (0x8000_0050, 8) ∷ [];
  status_addr = 0x8000_0058;
  queue_index = 0;
  head = 0;
  used_index_addr = 0;
  used_entry = 0;
  used_idx = 0;
}

read_is_pending : (serve_external 512 none 0 read_chain ring_guest).1 ≡ some read_request
unfolding serve_external lish.System.Virtio.Disk.last lish.System.Virtio.External.accept guest_slice
    lish.System.Ram.checked_ram_range lish.Core.Bus.checked_sub lish.Core.Bus.checked_add
    lish.Prelude.Memory.read_at lish.System.Virtio.External.kind_of lish.System.Virtio.Disk.req_type
    lish.System.Virtio.Disk.req_sector lish.Prelude.Memory.from_le_bytes
    lish.System.Virtio.Memory.checked_mul lish.System.Virtio.Disk.middle
    lish.System.Virtio.External.accept_body lish.System.Virtio.External.scan
    lish.System.Virtio.External.descriptor_valid lish.System.Virtio.External.range_end
    lish.System.Virtio.External.request_of lish.System.Virtio.External.data_of
read_is_pending = refl

serve_external-IsRequest_example : IsRequest ring_guest 512 read_request
serve_external-IsRequest_example =
    serve_external-IsRequest 512 0 read_chain ring_guest read_request read_is_pending

-- The same once the device has noted where to publish it.
abbrev noted_request : PendingBlockRequest
noted_request = record read_request { used_index_addr = 0x8000_001a; used_entry = 0x8000_001c }

abbrev waiting_device : VirtioDev
waiting_device = new (external_block 512 (some noted_request))

complete_commits_example :
    Completed true waiting_device ring_guest noted_request (1 ∷ 2 ∷ 3 ∷ 4 ∷ 5 ∷ 6 ∷ 7 ∷ 8 ∷ []) true
unfolding new lish.System.Virtio.Completion.completion_targets_valid
    lish.System.Virtio.Completion.buffers_in_ram lish.System.Ram.checked_ram_range
    lish.Core.Bus.checked_sub lish.Core.Bus.checked_add
complete_commits_example =
    complete_commits waiting_device ring_guest noted_request 512
      (1 ∷ 2 ∷ 3 ∷ 4 ∷ 5 ∷ 6 ∷ 7 ∷ 8 ∷ []) true refl refl (inr (omega arith), inr (omega arith))

reachable-IsValid_example : IsValid (net_input (new (net [] [] [])) (1 ∷ 2 ∷ 3 ∷ []))
reachable-IsValid_example =
    reachable-IsValid (net [] [] []) (net_input (new (net [] [] [])) (1 ∷ 2 ∷ 3 ∷ []))
      ((omega arith, tt), (omega arith, tt)) (sent (1 ∷ 2 ∷ 3 ∷ []) made)

-- A disk of sixteen bytes, and two buffers of four.
abbrev disk_progress : Progress
disk_progress = record {
  pos = some 8;
  written = 0;
  ok = true;
  disk = replicate 16 0;
  outside = ring_guest;
}

abbrev out_buffer : Desc
out_buffer = record { addr = 0x8000_004c; len = 4; writable = false }

abbrev in_buffer : Desc
in_buffer = record { addr = 0x8000_0050; len = 4; writable = true }

write_then_read_example :
    let after = serve_segment virtio_blk_t_out disk_progress out_buffer in
    let back = serve_segment virtio_blk_t_in (record after { pos = some 8 }) in_buffer in
    (back.ok ≡ true) × (guest_slice back.outside 0x8000_0050 4 ≡ some (1 ∷ 2 ∷ 3 ∷ 4 ∷ []))
unfolding guest_slice lish.System.Ram.checked_ram_range lish.Core.Bus.checked_sub
    lish.Core.Bus.checked_add lish.Prelude.Memory.read_at
write_then_read_example =
    write_then_read disk_progress out_buffer in_buffer 8 (1 ∷ 2 ∷ 3 ∷ 4 ∷ []) refl (omega arith)
      (omega arith) refl refl refl refl refl
