-- ===== src/System/Virtio/Disk/RoundTrip.antt =====
-- What is written to a disk in memory is read back: crates/rv64-system/src/virtio.rs, the arm of
-- `Backend::Block` in `service`.
use lish.Prelude.{
  ℕ, ◌+◌, ◌^◌, ◌≤◌, ◌<◌, ◌≡◌, refl, sym, ap, ◌∙◌, subst, arith, true, false, Option-cases, inl, inr,
  List, length, some,
}
use lish.Prelude.Memory.{read_at, write_at, read_at-write_at, length-write_at}
use lish.Core.Bus.{checked_add}
use lish.System.Ram.{checked_ram_range}
use lish.System.Virtio.Memory.{Outside, guest_slice, guest_write}
use lish.System.Virtio.Memory.Apart.{range_lem, guest_slice-length}
use lish.System.Virtio.External.{in_ram}
use lish.System.Virtio.Disk.{
  Desc, Progress, disk_range, read_segment, write_segment, serve_segment, advance, virtio_blk_t_in,
  virtio_blk_t_out,
}

disk_range-some :
    (p : Progress) (start len : ℕ)
    → p.pos ≡ some start
    → start + len ≤ length p.disk
    → length p.disk < 2 ^ 64
    → disk_range p len ≡ some (start, start + len)
unfolding disk_range checked_add
disk_range-some p start len e inside small = ground (arith, e, inside, small)

-- What was written to guest memory.
guest_slice-guest_write :
    (o : Outside) (a : ℕ) (bytes : List ℕ)
    → in_ram o a (length bytes) ≡ true
    → ((guest_write o a bytes).0 ≡ true)
      × (guest_slice (guest_write o a bytes).1 a (length bytes) ≡ some bytes)
unfolding guest_slice guest_write
guest_slice-guest_write o a bytes h =
    elim (Option-cases (checked_ram_range (length o.ram) o.ram_base a (length bytes))) [
      | inl e ↦ absurd (ground (arith, h, e))
      | inr (r, e) ↦
          let (_, inside) = range_lem _ _ _ _ r e in
          let got = read_at-write_at r.0 bytes o.ram (omega (arith, inside)) in
          let size = length-write_at r.0 bytes o.ram in
          (ground (arith, e), ground (arith, e, size, got))
    ]

write_segment-disk :
    (p : Progress) (d : Desc) (start : ℕ) (source : List ℕ)
    → disk_range p d.len ≡ some (start, start + d.len)
    → guest_slice p.outside d.addr d.len ≡ some source
    → write_segment p d ≡ record p { disk = write_at start source p.disk }
unfolding write_segment
write_segment-disk p d start source e f = rw (e, f, write_segment) refl

read_segment-guest :
    (p : Progress) (d : Desc) (start : ℕ)
    → disk_range p d.len ≡ some (start, start + d.len)
    → let bytes = read_at start d.len p.disk in
      length bytes ≡ d.len
      → in_ram p.outside d.addr d.len ≡ true
      → ((read_segment p d).ok ≡ p.ok)
        × (guest_slice (read_segment p d).outside d.addr d.len ≡ some (read_at start d.len p.disk))
unfolding read_segment
read_segment-guest p d start e size inside =
    let bytes = read_at start d.len p.disk in
    let (done, there) =
      guest_slice-guest_write p.outside d.addr bytes (ground (arith, inside, size)) in
    (ground (arith, e, done), ground (arith, e, size, there))

serve_out :
    (p : Progress) (d : Desc)
    → d.writable ≡ false
    → serve_segment virtio_blk_t_out p d ≡ advance (write_segment p d) d.len
unfolding serve_segment
serve_out p d e = ground (arith, e)

serve_in :
    (p : Progress) (d : Desc)
    → d.writable ≡ true
    → serve_segment virtio_blk_t_in p d ≡ advance (read_segment p d) d.len
unfolding serve_segment
serve_in p d e = ground (arith, e)

-- A write of a segment to the disk and then a read of as many bytes from the same place bring the
-- guest's bytes from the one buffer to the other, with no error of their own, if the place lies
-- inside the disk and both buffers in RAM.
pub write_then_read :
    (p : Progress) (d e : Desc) (start : ℕ) (source : List ℕ)
    → p.pos ≡ some start
    → start + d.len ≤ length p.disk
    → length p.disk < 2 ^ 64
    → e.len ≡ d.len
    → d.writable ≡ false
    → e.writable ≡ true
    → guest_slice p.outside d.addr d.len ≡ some source
    → in_ram p.outside e.addr e.len ≡ true
    → let after = serve_segment virtio_blk_t_out p d in
      let back = serve_segment virtio_blk_t_in (record after { pos = some start }) e in
      (back.ok ≡ p.ok) × (guest_slice back.outside e.addr e.len ≡ some source)
unfolding serve_segment advance
write_then_read p d e start source at inside small same out_buffer in_buffer there room =
    let written : Progress = record p { disk = write_at start source p.disk } in
    let size : length source ≡ d.len = guest_slice-length p.outside d.addr d.len source there in
    let stored : write_segment p d ≡ written =
      write_segment-disk p d start source (disk_range-some p start d.len at inside small) there in
    let again : Progress = record written { pos = some start } in
    let kept = length-write_at start source p.disk in
    let range : disk_range again e.len ≡ some (start, start + e.len) =
      disk_range-some again start e.len refl (omega (arith, inside, same, kept))
        (omega (arith, small, kept)) in
    let bytes : read_at start e.len (write_at start source p.disk) ≡ source =
      subst (λ n. read_at start n (write_at start source p.disk) ≡ source) (size ∙ sym same)
        (read_at-write_at start source p.disk (omega (arith, inside, size))) in
    let (fine, got) =
      read_segment-guest again e start range (ap length bytes ∙ size ∙ sym same) room in
    let after : serve_segment virtio_blk_t_out p d ≡ advance written d.len =
      serve_out p d out_buffer ∙ ap (λ t. advance t d.len) stored in
    let back =
      serve_in (record (serve_segment virtio_blk_t_out p d) { pos = some start }) e in_buffer
      ∙ ap (λ (t : Progress). advance (read_segment (record t { pos = some start }) e) e.len)
          after in
    subst (λ (t : Progress). (t.ok ≡ p.ok) × (guest_slice t.outside e.addr e.len ≡ some source))
      (sym back) (fine, got ∙ ap some bytes)
