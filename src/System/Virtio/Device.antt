-- ===== src/System/Virtio/Device.antt =====
-- A virtio device, its registers and its mailboxes: `Backend`, `Queue` and `VirtioDev` of
-- crates/rv64-system/src/virtio.rs. The array of queues is a list of two.
pub mod Rings
use lish.Prelude.{
  ℕ, zero, suc, ◌+◌, ◌-◌, ◌*◌, ◌/◌, ◌^◌, min, Bool, false, ◌&&◌, List, [], ◌∷◌, ◌++◌, length,
  get_or, set, Option, none, some, ltb, leb, ◌==◌, ◌!=◌, if◌then◌else◌, bit_and, bit_or, not32, shl,
}
use lish.Prelude.Memory.{to_le_bytes, from_le_bytes}
use lish.System.Virtio.Memory.{set_lo, set_hi}

abbrev pub max_queues : ℕ
max_queues = 2

abbrev pub net_hdr_len : ℕ
net_hdr_len = 12

abbrev pub net_max_frame : ℕ
net_max_frame = 1600

abbrev pub net_queue_limit : ℕ
net_queue_limit = 256

abbrev pub virtio_blk_f_size_max : ℕ
virtio_blk_f_size_max = 1

abbrev pub virtio_blk_f_seg_max : ℕ
virtio_blk_f_seg_max = 2

abbrev pub max_disk_operation : ℕ
max_disk_operation = 64 * 1024

abbrev pub max_disk_segments : ℕ
max_disk_segments = 1

abbrev pub sector_size : ℕ
sector_size = 512

pub data BlockRequestKind : Type 0 where
  read_kind : BlockRequestKind
  write_kind : BlockRequestKind
  flush_kind : BlockRequestKind

pub record PendingBlockRequest : Type 0 where
  pub id : ℕ
  pub kind : BlockRequestKind
  pub offset : ℕ
  pub data_bytes : List ℕ
  pub request_length : ℕ
  pub read_buffers : List (ℕ × ℕ)
  pub status_addr : ℕ
  pub queue_index : ℕ
  pub head : ℕ
  pub used_index_addr : ℕ
  pub used_entry : ℕ
  pub used_idx : ℕ

pub data Backend : Type 0 where
  block : List ℕ → Backend
  external_block : ℕ → Option PendingBlockRequest → Backend
  net : List ℕ → List (List ℕ) → List (List ℕ) → Backend

pub record Queue : Type 0 where
  pub ready : ℕ
  pub num : ℕ
  pub desc : ℕ
  pub avail : ℕ
  pub used : ℕ
  pub last_avail_idx : ℕ

abbrev pub no_queue : Queue
no_queue = record { ready = 0; num = 0; desc = 0; avail = 0; used = 0; last_avail_idx = 0 }

pub record VirtioDev : Type 0 where
  pub backend : Backend
  pub status : ℕ
  pub device_features_sel : ℕ
  pub driver_features_sel : ℕ
  pub queue_sel : ℕ
  pub queues : List Queue
  pub int_status : ℕ

abbrev pub no_queues : List Queue
no_queues = no_queue ∷ no_queue ∷ []

unfoldable pub new : Backend → VirtioDev
new backend = record {
  backend = backend;
  status = 0;
  device_features_sel = 0;
  driver_features_sel = 0;
  queue_sel = 0;
  queues = no_queues;
  int_status = 0;
}

unfoldable pub device_id : VirtioDev → ℕ
device_id d = elim d.backend [ block _ ↦ 2 | external_block _ _ ↦ 2 | net _ _ _ ↦ 1 ]

unfoldable pub device_features : VirtioDev → ℕ → ℕ
device_features d sel =
    if sel == 1
    then 1
    else if sel == 0
    then elim d.backend [
      | net _ _ _ ↦ 2 ^ 5
      | external_block _ _ ↦
          bit_or (bit_or (2 ^ virtio_blk_f_size_max) (2 ^ virtio_blk_f_seg_max)) (2 ^ 9)
      | block _ ↦ 0
    ]
    else 0

unfoldable pub queue_num_max : VirtioDev → ℕ
queue_num_max d = elim d.backend [ net _ _ _ ↦ 256 | block _ ↦ 16 | external_block _ _ ↦ 16 ]

unfoldable pub irq_pending : VirtioDev → Bool
irq_pending d = d.int_status != 0

-- `q()`.
unfoldable pub selected : VirtioDev → Queue
selected d = get_or d.queues d.queue_sel no_queue

unfoldable pub config_u8 : VirtioDev → ℕ → ℕ
config_u8 d off = elim d.backend [
  | block disk ↦ get_or (to_le_bytes 8 (length disk / sector_size)) off 0
  | external_block size _ ↦
      if leb off 7
      then get_or (to_le_bytes 8 (size / sector_size)) off 0
      else if leb off 11
      then get_or (to_le_bytes 4 max_disk_operation) (off - 8) 0
      else if leb off 15
      then get_or (to_le_bytes 4 max_disk_segments) (off - 12) 0
      else 0
  | net mac _ _ ↦ get_or mac off 0
]

unfoldable pub read : VirtioDev → ℕ → ℕ
read d offset =
    if offset == 0x000
    then 0x7472_6976
    else if offset == 0x004
    then 2
    else if offset == 0x008
    then device_id d
    else if offset == 0x00c
    then 0xffff
    else if offset == 0x010
    then device_features d d.device_features_sel
    else if offset == 0x034
    then queue_num_max d
    else if offset == 0x044
    then (selected d).ready
    else if offset == 0x060
    then d.int_status
    else if offset == 0x070
    then d.status
    else if offset == 0x0fc
    then 0
    else if leb 0x100 offset
    then (let o = offset - 0x100 in
        from_le_bytes
          (config_u8 d o ∷ config_u8 d (o + 1) ∷ config_u8 d (o + 2) ∷ config_u8 d (o + 3) ∷ []))
    else 0

-- The loop of `read_sized`, `left` rounds from i on.
unfoldable pub read_config : ℕ → VirtioDev → ℕ → ℕ → ℕ → ℕ
read_config zero d o i v = v
read_config (suc left) d o i v =
    read_config left d o (suc i) (bit_or v (shl (config_u8 d (o + i)) (8 * i)))

unfoldable pub read_sized : VirtioDev → ℕ → ℕ → ℕ
read_sized d offset size =
    if leb 0x100 offset && ltb size 4
    then read_config size d (offset - 0x100) 0 0
    else read d offset

-- An assignment through `qm()`.
unfoldable pub set_selected : VirtioDev → Queue → VirtioDev
set_selected d q = record d { queues = set d.queues d.queue_sel q }

-- A write of `status`, which resets the device at zero.
unfoldable pub write_device_status : VirtioDev → ℕ → VirtioDev
write_device_status d val =
    if val == 0
    then record d {
      status = val;
      queues = no_queues;
      int_status = 0;
      backend = elim d.backend [
        | external_block size _ ↦ external_block size none
        | block disk ↦ block disk
        | net mac inbox outbox ↦ net mac inbox outbox
      ];
    }
    else record d { status = val }

-- The register that is written, but for `QueueNotify`.
unfoldable pub write_register : VirtioDev → ℕ → ℕ → VirtioDev
write_register d offset val =
    let q = selected d in
    if offset == 0x014
    then record d { device_features_sel = val }
    else if offset == 0x024
    then record d { driver_features_sel = val }
    else if offset == 0x030
    then record d { queue_sel = min val (max_queues - 1) }
    else if offset == 0x038
    then set_selected d (record q { num = min val (queue_num_max d) })
    else if offset == 0x044
    then set_selected d (record q { ready = bit_and val 1 })
    else if offset == 0x064
    then record d { int_status = bit_and d.int_status (not32 val) }
    else if offset == 0x070
    then write_device_status d val
    else if offset == 0x080
    then set_selected d (record q { desc = set_lo q.desc val })
    else if offset == 0x084
    then set_selected d (record q { desc = set_hi q.desc val })
    else if offset == 0x090
    then set_selected d (record q { avail = set_lo q.avail val })
    else if offset == 0x094
    then set_selected d (record q { avail = set_hi q.avail val })
    else if offset == 0x0a0
    then set_selected d (record q { used = set_lo q.used val })
    else if offset == 0x0a4
    then set_selected d (record q { used = set_hi q.used val })
    else d

-- The queue to process, if the write asks for it.
unfoldable pub write : VirtioDev → ℕ → ℕ → Option ℕ × VirtioDev
write d offset val = if offset == 0x050 then (some val, d) else (none, write_register d offset val)

unfoldable pub net_input : VirtioDev → List ℕ → VirtioDev
net_input d frame = elim d.backend [
  | net mac inbox outbox ↦
      if leb (length frame) net_max_frame && ltb (length inbox) net_queue_limit
      then record d { backend = net mac (inbox ++ (frame ∷ [])) outbox }
      else d
  | block _ ↦ d
  | external_block _ _ ↦ d
]

unfoldable pub net_take_output : VirtioDev → List (List ℕ) × VirtioDev
net_take_output d = elim d.backend [
  | net mac inbox outbox ↦ (outbox, record d { backend = net mac inbox [] })
  | block _ ↦ ([], d)
  | external_block _ _ ↦ ([], d)
]

unfoldable pub net_rx_pending : VirtioDev → Bool
net_rx_pending d = elim d.backend [
  | net _ inbox _ ↦ length inbox != 0
  | block _ ↦ false
  | external_block _ _ ↦ false
]
