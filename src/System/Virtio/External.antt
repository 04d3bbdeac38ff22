-- ===== src/System/Virtio/External.antt =====
-- Requests to a disk of the host: `service` of crates/rv64-system/src/virtio.rs, the arm of
-- `Backend::ExternalBlock`.
pub mod Requests
use lish.Prelude.{
  ℕ, ◌+◌, ◌%◌, ◌^◌, Bool, true, false, ◌&&◌, ◌||◌, List, [], ◌∷◌, ◌++◌, length, get_elem?, Option,
  none, some, ltb, ◌==◌, ◌!=◌, if◌then◌else◌, not,
}
use lish.Core.Bus.{checked_add}
use lish.System.Ram.{checked_ram_range}
use lish.System.Virtio.Memory.{Outside, checked_mul, guest_slice, guest_write}
use lish.System.Virtio.Device.{
  sector_size, max_disk_operation, BlockRequestKind, read_kind, write_kind, flush_kind,
  PendingBlockRequest,
}
use lish.System.Virtio.Disk.{
  Desc, virtio_blk_t_in, virtio_blk_t_out, virtio_blk_t_flush, req_type, req_sector, middle, last,
}

unfoldable pub kind_of : ℕ → Option BlockRequestKind
kind_of t =
    if t == virtio_blk_t_in
    then some read_kind
    else if t == virtio_blk_t_out
    then some write_kind
    else if t == virtio_blk_t_flush
    then some flush_kind
    else none

abbrev pub is_flush : BlockRequestKind → Bool
is_flush read_kind = false
is_flush write_kind = false
is_flush flush_kind = true

abbrev pub is_some {ℓ} : {A : Type ℓ} → Option A → Bool
is_some none = false
is_some (some a) = true

abbrev pub in_ram : Outside → ℕ → ℕ → Bool
in_ram o addr len = is_some (checked_ram_range (length o.ram) o.ram_base addr len)

unfoldable pub descriptor_valid : Outside → BlockRequestKind → Desc → Bool
descriptor_valid o read_kind d = d.writable && in_ram o d.addr d.len
descriptor_valid o write_kind d = not d.writable && is_some (guest_slice o d.addr d.len)
descriptor_valid o flush_kind d = d.len == 0

abbrev pub buffer_of : BlockRequestKind → Desc → List (ℕ × ℕ)
buffer_of read_kind d = (d.addr, d.len) ∷ []
buffer_of write_kind d = []
buffer_of flush_kind d = []

-- The loop over the body: its length and the buffers to read into, or `none` to reject it.
unfoldable pub scan :
    Outside → BlockRequestKind → List Desc → ℕ → List (ℕ × ℕ) → Option (ℕ × List (ℕ × ℕ))
scan o kind [] body_len buffers = some (body_len, buffers)
scan o kind (d ∷ rest) body_len buffers =
    if not (descriptor_valid o kind d) then none else elim (checked_add body_len d.len) [
      | none ↦ none
      | some next ↦
          if ltb max_disk_operation next
          then none
          else scan o kind rest next (buffers ++ buffer_of kind d)
    ]

-- The end of the range, none for a flush.
unfoldable pub range_end : BlockRequestKind → ℕ → ℕ → Option ℕ
range_end read_kind offset body_len = checked_add offset body_len
range_end write_kind offset body_len = checked_add offset body_len
range_end flush_kind offset body_len = some 0

-- The bytes to write; the loop has found every source in RAM.
unfoldable pub gather : Outside → List Desc → List ℕ
gather o [] = []
gather o (d ∷ rest) =
    elim (guest_slice o d.addr d.len) [ none ↦ [] | some source ↦ source ] ++ gather o rest

unfoldable pub data_of : Outside → BlockRequestKind → List Desc → List ℕ
data_of o read_kind body = []
data_of o write_kind body = gather o body
data_of o flush_kind body = []

-- What the host is asked: the kind, the offset, the length and the buffers of a request, or `none`
-- to reject it.
pub record Accepted : Type 0 where
  pub kind : BlockRequestKind
  pub offset : ℕ
  pub body : List Desc
  pub body_len : ℕ
  pub buffers : List (ℕ × ℕ)

unfoldable pub accept_body : Outside → ℕ → BlockRequestKind → ℕ → ℕ → List Desc → Option Accepted
accept_body o size kind offset chain_len body = elim (scan o kind body 0 []) [
  | none ↦ none
  | some (body_len, buffers) ↦
      if is_flush kind && chain_len != 2 then none else elim (range_end kind offset body_len) [
        | none ↦ none
        | some end_pos ↦
            if ltb size end_pos
              || not (is_flush kind) && body_len == 0
              || is_flush kind && body_len != 0
            then none
            else some (record {
              kind = kind;
              offset = offset;
              body = body;
              body_len = body_len;
              buffers = buffers;
            })
      ]
]

unfoldable pub accept : Outside → ℕ → List Desc → Option Accepted
accept o size chain = elim (get_elem? chain 0) [
  | none ↦ none
  | some hdr ↦
      if ltb (length chain) 2 || ltb hdr.len 16 || hdr.writable
      then none
      else elim (guest_slice o hdr.addr 16) [
        | none ↦ none
        | some header ↦ elim (kind_of (req_type header)) [
          | none ↦ none
          | some kind ↦ elim (checked_mul (req_sector header) sector_size) [
            | none ↦ none
            | some offset ↦ elim (middle chain) [
              | none ↦ none
              | some body ↦ accept_body o size kind offset (length chain) body
            ]
          ]
        ]
      ]
]

unfoldable pub request_of : Outside → ℕ → ℕ → Accepted → PendingBlockRequest
request_of o qi status_addr a = record {
  id = o.next_id;
  kind = a.kind;
  offset = a.offset;
  data_bytes = data_of o a.kind a.body;
  request_length = a.body_len;
  read_buffers = a.buffers;
  status_addr = status_addr;
  queue_index = qi;
  head = 0;
  used_index_addr = 0;
  used_entry = 0;
  used_idx = 0;
}

unfoldable pub serve_external :
    ℕ
    → Option PendingBlockRequest
    → ℕ
    → List Desc
    → Outside
    → Option ℕ × Option PendingBlockRequest × Outside
serve_external size pending qi chain o = if qi != 0 then (some 0, pending, o) else elim pending [
  | some request ↦ (none, some request, o)
  | none ↦ elim (last chain) [
    | none ↦ (some 0, none, o)
    | some status ↦
        if ltb status.len 1 || not status.writable || not (in_ram o status.addr 1)
        then (some 0, none, o)
        else elim (accept o size chain) [
          | none ↦ (some 1, none, (guest_write o status.addr (1 ∷ [])).1)
          | some a ↦ (
            none,
            some (request_of o qi status.addr a),
            record o { next_id = (o.next_id + 1) % 2 ^ 64 },
          )
        ]
  ]
]
