-- ===== src/System/Virtio/Transport/Writes.antt =====
-- How the requests write: `service` and `process` of crates/rv64-system/src/virtio.rs, with every
-- backend.
use lish.Prelude.{
  ℕ, zero, suc, ◌+◌, ◌-◌, ◌%◌, ◌^◌, min, ◌≡◌, refl, sym, subst, arith, true, ◌&&◌, ◌||◌, not,
  Bool-cases, Option-cases, inl, inr, List, [], ◌∷◌, ◌++◌, length, take, drop, get_elem?, Option,
  none, some, ltb, leb, ◌==◌, ◌!=◌, if◌then◌else◌,
}
use lish.Prelude.Memory.{read_at}
use lish.System.Virtio.Memory.{Outside, guest_write, guest_slice, write_word, checked_mul}
use lish.System.Virtio.Memory.Reached.{Reached, start, counted, then-Reached, one_write, one_word}
use lish.System.Virtio.Memory.Observed.{IsTracked, Observed, Reached-Observed}
use lish.System.Virtio.Device.{
  VirtioDev, Backend, block, external_block, net, PendingBlockRequest, max_queues, sector_size,
}
use lish.System.Virtio.Disk.{
  Desc, Progress, disk_range, read_segment, write_segment, serve_segment, serve_segments, advance,
  report, last, middle, serve_disk, virtio_blk_t_in, virtio_blk_t_out, req_sector, req_type,
}
use lish.System.Virtio.External.{serve_external, accept, in_ram}
use lish.System.Virtio.Net.{scatter, receive, transmit, capacity, net_hdr}
use lish.System.Virtio.Transport.Rounds.{Round-cases}
use lish.System.Virtio.Transport.{
  UsedSlot, service, queue_at, publish, serve_chain, process_round, process_loop, process,
  has_pending_block_request,
}

read_segment-Reached : (p : Progress) (d : Desc) → Reached p.outside (read_segment p d).outside
unfolding read_segment
read_segment-Reached p d = elim (Option-cases (disk_range p d.len)) [
  | inl e ↦ rw (e, read_segment) start
  | inr (r, e) ↦ rw (e, read_segment) (one_write p.outside d.addr (read_at r.0 d.len p.disk))
]

write_segment-outside : (p : Progress) (d : Desc) → (write_segment p d).outside ≡ p.outside
unfolding write_segment
write_segment-outside p d = ground arith

serve_segment-Reached :
    (kind : ℕ) (p : Progress) (d : Desc) → Reached p.outside (serve_segment kind p d).outside
unfolding serve_segment advance
serve_segment-Reached kind p d = elim (Bool-cases (kind == virtio_blk_t_in && d.writable)) [
  | inl r ↦ rw (r, serve_segment) (read_segment-Reached p d)
  | inr nr ↦ elim (Bool-cases (kind == virtio_blk_t_out && not d.writable)) [
    | inl w ↦ rw (nr, w, serve_segment, write_segment-outside p d) start
    | inr nw ↦ rw (nr, nw, serve_segment) start
  ]
]

serve_segments-Reached :
    (kind : ℕ) (p : Progress) (ds : List Desc)
    → Reached p.outside (serve_segments kind p ds).outside
unfolding serve_segments
serve_segments-Reached kind p [] = start
serve_segments-Reached kind p (d ∷ rest) =
    then-Reached (serve_segment-Reached kind p d)
      (serve_segments-Reached kind (serve_segment kind p d) rest)

report-Reached : (p : Progress) (chain : List Desc) → Reached p.outside (report p chain).2
unfolding report
report-Reached p chain = elim (Option-cases (last chain)) [
  | inl e ↦ rw (e, report) start
  | inr (d, e) ↦ rw (e, report) (one_write p.outside d.addr ((if p.ok then 0 else 1) ∷ []))
]

serve_disk-Reached :
    (disk : List ℕ) (chain : List Desc) (o : Outside) → Reached o (serve_disk disk chain o).2
unfolding serve_disk
serve_disk-Reached disk chain o = elim (Option-cases (get_elem? chain 0)) [
  | inl e ↦ rw (e, serve_disk) start
  | inr (first, e) ↦ elim (Option-cases (guest_slice o first.addr 16)) [
    | inl f ↦ rw (e, f, serve_disk) start
    | inr (header, f) ↦ elim (Option-cases (middle chain)) [
      | inl g ↦ rw (e, f, g, serve_disk) start
      | inr (body, g) ↦
          let begin : Progress = record {
            pos = checked_mul (req_sector header) sector_size;
            written = 0;
            ok = true;
            disk = disk;
            outside = o;
          } in
          rw (e, f, g, serve_disk)
            (then-Reached (serve_segments-Reached (req_type header) begin body)
              (report-Reached (serve_segments (req_type header) begin body) chain))
    ]
  ]
]

serve_external-Reached :
    (size : ℕ) (pending : Option PendingBlockRequest) (qi : ℕ) (chain : List Desc) (o : Outside)
    → Reached o (serve_external size pending qi chain o).2
unfolding serve_external
serve_external-Reached size (some request) qi chain o = elim (Bool-cases (qi != 0)) [
  | inl other ↦ rw (other, serve_external) start
  | inr zeroth ↦ rw (zeroth, serve_external) start
]
serve_external-Reached size none qi chain o = elim (Bool-cases (qi != 0)) [
  | inl other ↦ rw (other, serve_external) start
  | inr zeroth ↦ elim (Option-cases (last chain)) [
    | inl e ↦ rw (zeroth, e, serve_external) start
    | inr (s, e) ↦ elim (Bool-cases (ltb s.len 1 || not s.writable || not (in_ram o s.addr 1))) [
      | inl f ↦ rw (zeroth, e, f, serve_external) start
      | inr f ↦ elim (Option-cases (accept o size chain)) [
        | inl g ↦ rw (zeroth, e, f, g, serve_external) (one_write o s.addr (1 ∷ []))
        | inr (a, g) ↦
            rw (zeroth, e, f, g, serve_external) (counted ((o.next_id + 1) % 2 ^ 64) start)
      ]
    ]
  ]
]

scatter-Reached :
    (src : List ℕ) (chain : List Desc) (written : ℕ) (o : Outside)
    → Reached o (scatter src chain written o).1
unfolding scatter
scatter-Reached src [] written o = start
scatter-Reached src (d ∷ rest) written o =
    let n = min (length src - written) d.len in
    let piece = take n (drop written src) in
    let o' = (guest_write o d.addr piece).1 in
    elim (Bool-cases (not d.writable || leb (length src) written)) [
      | inl skip ↦ rw (skip, scatter) (scatter-Reached src rest written o)
      | inr usable ↦ elim (Bool-cases (guest_write o d.addr piece).0) [
        | inl done ↦
            rw (usable, scatter, done)
              (then-Reached (one_write o d.addr piece) (scatter-Reached src rest (written + n) o'))
        | inr failed ↦ rw (usable, scatter, failed) (one_write o d.addr piece)
      ]
    ]

receive-Reached :
    (inbox outbox : List (List ℕ)) (chain : List Desc) (o : Outside)
    → Reached o (receive inbox outbox chain o).3
unfolding receive
receive-Reached [] outbox chain o = start
receive-Reached (frame ∷ inbox) outbox chain o =
    elim (Bool-cases (ltb (capacity chain) (12 + length frame))) [
      | inl small ↦ rw (small, receive) start
      | inr room ↦ rw (room, receive) (scatter-Reached (net_hdr ++ frame) chain 0 o)
    ]

transmit-outside :
    (inbox outbox : List (List ℕ)) (chain : List Desc) (o : Outside)
    → (transmit inbox outbox chain o).3 ≡ o
unfolding transmit
transmit-outside inbox outbox chain o = ground arith

service-Reached :
    (d : VirtioDev) (qi : ℕ) (chain : List Desc) (o : Outside) → Reached o (service d qi chain o).2
unfolding service
service-Reached d qi chain o = served d.backend refl
  where
    served : (b : Backend) → d.backend ≡ b → Reached o (service d qi chain o).2
    served (block disk) e = rw (e, service) (serve_disk-Reached disk chain o)
    served (external_block size pending) e =
        rw (e, service) (serve_external-Reached size pending qi chain o)
    served (net mac inbox outbox) e = elim (Bool-cases (qi == 0)) [
      | inl rx ↦ rw (e, rx, service) (receive-Reached inbox outbox chain o)
      | inr tx ↦ rw (e, tx, service, transmit-outside inbox outbox chain o) start
    ]

publish-Reached :
    (o : Outside) (head written : ℕ) (u : UsedSlot) → Reached o (publish o head written u)
unfolding publish
publish-Reached o head written u =
    let o' = write_word 4 o u.entry head in
    let o'' = write_word 4 o' (u.entry + 4) written in
    then-Reached (one_word 4 o u.entry head) (
      then-Reached (one_word 4 o' (u.entry + 4) written)
        (one_word 2 o'' u.index_addr ((u.idx + 1) % 2 ^ 16)))

serve_chain-Reached :
    (d : VirtioDev) (qi head : ℕ) (chain : List Desc) (u : UsedSlot) (o : Outside)
    → Reached o (serve_chain d qi head chain u o).2
unfolding serve_chain
serve_chain-Reached d qi head chain u o =
    let o' = (service d qi chain o).2 in
    elim (Option-cases (service d qi chain o).0) [
      | inl e ↦ rw (e, serve_chain) (service-Reached d qi chain o)
      | inr (written, e) ↦
          rw (e, serve_chain)
            (then-Reached (service-Reached d qi chain o) (publish-Reached o' head written u))
    ]

process_round-Reached : (qi : ℕ) (d : VirtioDev) (o : Outside) → Reached o (process_round qi d o).2
process_round-Reached qi d o = elim (Round-cases qi d o) [
  | inl e ↦ subst (λ t. Reached o t.2) (sym e) start
  | inr s ↦
      subst (λ t. Reached o t.2) (sym s.serves) (serve_chain-Reached d qi s.head s.chain s.slot o)
]

process_loop-Reached :
    (fuel qi : ℕ) (d d' : VirtioDev) (o o' : Outside)
    → process_loop fuel qi d o ≡ some (d', o')
    → Reached o o'
unfolding process_loop
process_loop-Reached zero qi d d' o o' e = absurd (ground (arith, e))
process_loop-Reached (suc fuel) qi d d' o o' e =
    let (again, d1, o1) = process_round qi d o in
    elim (Bool-cases (process_round qi d o).0) [
      | inl more ↦
          then-Reached (process_round-Reached qi d o)
            (process_loop-Reached fuel qi d1 d' o1 o' (ground (arith, e, more)))
      | inr done ↦ subst (Reached o) (ground (arith, e, done)) (process_round-Reached qi d o)
    ]

-- When a device has processed a queue, every byte of a page with compiled code is as it was, unless
-- the page is dirty now; the RAM has its size, the marks are the same and nothing dirty has become
-- clean, if the pages of the RAM were tracked before.
pub process-Observed :
    (fuel qi : ℕ) (d d' : VirtioDev) (o o' : Outside)
    → IsTracked o
    → process fuel qi d o ≡ some (d', o')
    → Observed o o'
unfolding process
process-Observed fuel qi d d' o o' t e =
    elim (Bool-cases (leb max_queues qi || (queue_at d qi).ready == 0)) [
      | inl idle ↦ Reached-Observed t (subst (Reached o) (ground (arith, e, idle)) start)
      | inr on ↦ elim (Bool-cases (has_pending_block_request d)) [
        | inl wait ↦ Reached-Observed t (subst (Reached o) (ground (arith, e, on, wait)) start)
        | inr go ↦
            Reached-Observed t (process_loop-Reached fuel qi d d' o o' (ground (arith, e, on, go)))
      ]
    ]
