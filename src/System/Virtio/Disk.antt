-- ===== src/System/Virtio/Disk.antt =====
-- Requests to a disk in memory: `service` of crates/rv64-system/src/virtio.rs, the arm of
-- `Backend::Block`.
pub mod RoundTrip
use lish.Prelude.{
  ℕ, ◌+◌, ◌-◌, ◌%◌, ◌^◌, Bool, true, false, ◌&&◌, List, [], ◌∷◌, length, take, drop, get_elem?,
  Option, none, some, leb, ◌==◌, if◌then◌else◌, not,
}
use lish.Prelude.Memory.{read_at, write_at, from_le_bytes}
use lish.Core.Bus.{checked_add}
use lish.System.Virtio.Memory.{Outside, checked_mul, guest_slice, guest_write}
use lish.System.Virtio.Device.{sector_size}

-- A descriptor of a chain: the address, the length and whether the device may write there.
pub record Desc : Type 0 where
  pub addr : ℕ
  pub len : ℕ
  pub writable : Bool

abbrev pub virtio_blk_t_in : ℕ
virtio_blk_t_in = 0

abbrev pub virtio_blk_t_out : ℕ
virtio_blk_t_out = 1

abbrev pub virtio_blk_t_flush : ℕ
virtio_blk_t_flush = 4

-- The type and the sector of a request's header.
unfoldable pub req_type : List ℕ → ℕ
req_type header = from_le_bytes (take 4 header)

unfoldable pub req_sector : List ℕ → ℕ
req_sector header = from_le_bytes (take 8 (drop 8 header))

-- `chain.get(1..chain.len().saturating_sub(1))`.
unfoldable pub middle : List Desc → Option (List Desc)
middle chain =
    if leb 1 (length chain - 1) then some (take (length chain - 2) (drop 1 chain)) else none

-- `chain.last()`.
unfoldable pub last : List Desc → Option Desc
last chain = get_elem? chain (length chain - 1)

-- The variables of the loop over the data buffers.
pub record Progress : Type 0 where
  pub pos : Option ℕ
  pub written : ℕ
  pub ok : Bool
  pub disk : List ℕ
  pub outside : Outside

unfoldable pub disk_range : Progress → ℕ → Option (ℕ × ℕ)
disk_range p len = elim p.pos [
  | none ↦ none
  | some start ↦ elim (checked_add start len) [
    | none ↦ none
    | some end_pos ↦ if leb end_pos (length p.disk) then some (start, end_pos) else none
  ]
]

unfoldable pub read_segment : Progress → Desc → Progress
read_segment p d =
    let p' = record p { written = (p.written + d.len) % 2 ^ 32 } in
    elim (disk_range p d.len) [
      | none ↦ record p' { ok = false }
      | some range ↦
          let (done, o) = guest_write p.outside d.addr (read_at range.0 d.len p.disk) in
          record p' { ok = p.ok && done; outside = o }
    ]

unfoldable pub write_segment : Progress → Desc → Progress
write_segment p d = elim (disk_range p d.len) [
  | none ↦ record p { ok = false }
  | some range ↦ elim (guest_slice p.outside d.addr d.len) [
    | none ↦ record p { ok = false }
    | some source ↦ record p { disk = write_at range.0 source p.disk }
  ]
]

unfoldable pub advance : Progress → ℕ → Progress
advance p len = record p {
  pos = elim p.pos [ none ↦ none | some position ↦ checked_add position len ];
}

unfoldable pub serve_segment : ℕ → Progress → Desc → Progress
serve_segment kind p d =
    let p' =
      if kind == virtio_blk_t_in && d.writable
      then read_segment p d
      else if kind == virtio_blk_t_out && not d.writable
      then write_segment p d
      else record p { ok = false } in
    advance p' d.len

unfoldable pub serve_segments : ℕ → Progress → List Desc → Progress
serve_segments kind p [] = p
serve_segments kind p (d ∷ rest) = serve_segments kind (serve_segment kind p d) rest

-- The status byte in the last descriptor.
unfoldable pub report : Progress → List Desc → Option ℕ × List ℕ × Outside
report p chain = elim (last chain) [
  | none ↦ (some p.written, p.disk, p.outside)
  | some d ↦ (
    some ((p.written + 1) % 2 ^ 32),
    p.disk,
    (guest_write p.outside d.addr ((if p.ok then 0 else 1) ∷ [])).1,
  )
]

-- The bytes written to the guest, or `none` for a request that is left in its queue.
unfoldable pub serve_disk : List ℕ → List Desc → Outside → Option ℕ × List ℕ × Outside
serve_disk disk chain o = elim (get_elem? chain 0) [
  | none ↦ (none, disk, o)
  | some first ↦ elim (guest_slice o first.addr 16) [
    | none ↦ (some 0, disk, o)
    | some header ↦ elim (middle chain) [
      | none ↦ (none, disk, o)
      | some body ↦
          let start : Progress = record {
            pos = checked_mul (req_sector header) sector_size;
            written = 0;
            ok = true;
            disk = disk;
            outside = o;
          } in
          report (serve_segments (req_type header) start body) chain
    ]
  ]
]
