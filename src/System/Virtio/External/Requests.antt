-- ===== src/System/Virtio/External/Requests.antt =====
-- What the host is asked to do: the requests that the arm of `Backend::ExternalBlock` in `service`,
-- crates/rv64-system/src/virtio.rs, leaves pending.
use lish.Prelude.{
  ℕ, ◌+◌, ◌≤◌, ◌<◌, ◌≡◌, refl, subst, arith, Bool, true, not, ◌&&◌, ◌||◌, Bool-cases, Option-cases,
  inl, inr, List, [], ◌∷◌, ◌++◌, length, length-append, get_elem?, none, some, ltb, ◌!=◌,
}
use lish.Core.Bus.{checked_add}
use lish.System.Virtio.Memory.{Outside, checked_mul, guest_slice}
use lish.System.Virtio.Memory.Apart.{guest_slice-length}
use lish.System.Virtio.Device.{
  max_disk_operation, BlockRequestKind, read_kind, write_kind, flush_kind, PendingBlockRequest,
}
use lish.System.Virtio.Disk.{Desc, last, middle, req_type, req_sector}
use lish.System.Virtio.External.{
  kind_of, is_some, in_ram, descriptor_valid, buffer_of, scan, range_end, gather, data_of, Accepted,
  accept_body, accept, request_of, serve_external,
}

-- The bytes of all buffers.
abbrev pub total : List (ℕ × ℕ) → ℕ
total [] = 0
total ((addr, len) ∷ rest) = len + total rest

abbrev pub all_in_ram : Outside → List (ℕ × ℕ) → Bool
all_in_ram o [] = true
all_in_ram o ((addr, len) ∷ rest) = in_ram o addr len && all_in_ram o rest

total-append : (xs ys : List (ℕ × ℕ)) → total (xs ++ ys) ≡ total xs + total ys
total-append [] ys = omega arith
total-append ((a, n) ∷ xs) ys = omega (arith, total-append xs ys)

all_in_ram-append :
    (o : Outside) (xs ys : List (ℕ × ℕ))
    → all_in_ram o (xs ++ ys) ≡ (all_in_ram o xs && all_in_ram o ys)
all_in_ram-append o [] ys = ground arith
all_in_ram-append o ((a, n) ∷ xs) ys = ground (arith, all_in_ram-append o xs ys)

-- The buffers for the kind, and the bytes to write.
abbrev pub Fitting : Outside → BlockRequestKind → List (ℕ × ℕ) → ℕ → Type 0
Fitting o read_kind buffers n = (total buffers ≡ n) × (all_in_ram o buffers ≡ true)
Fitting o write_kind buffers n = Unit {0}
Fitting o flush_kind buffers n = Unit {0}

scan-small :
    (o : Outside) (kind : BlockRequestKind) (ds : List Desc) (n m : ℕ) (xs ys : List (ℕ × ℕ))
    → scan o kind ds n xs ≡ some (m, ys)
    → n ≤ max_disk_operation
    → m ≤ max_disk_operation
unfolding scan checked_add
scan-small o kind [] n m xs ys e small = ground (arith, e, small)
scan-small o kind (d ∷ rest) n m xs ys e small =
    scan-small o kind rest (n + d.len) m (xs ++ buffer_of kind d) ys (ground (arith, e))
      (ground (arith, e))

scan-Fitting :
    (o : Outside) (kind : BlockRequestKind) (ds : List Desc) (n m : ℕ) (xs ys : List (ℕ × ℕ))
    → scan o kind ds n xs ≡ some (m, ys)
    → Fitting o kind xs n
    → Fitting o kind ys m
unfolding scan checked_add descriptor_valid
scan-Fitting o write_kind ds n m xs ys e f = tt
scan-Fitting o flush_kind ds n m xs ys e f = tt
scan-Fitting o read_kind [] n m xs ys e (size, inside) = ground (arith, e, size, inside)
scan-Fitting o read_kind (d ∷ rest) n m xs ys e (size, inside) =
    let valid : in_ram o d.addr d.len ≡ true = ground (arith, e) in
    scan-Fitting o read_kind rest (n + d.len) m (xs ++ ((d.addr, d.len) ∷ [])) ys
      (ground (arith, e))
      (
        omega (arith, size, total-append xs ((d.addr, d.len) ∷ [])),
        ground (arith, inside, valid, all_in_ram-append o xs ((d.addr, d.len) ∷ [])),
      )

scan-gather :
    (o : Outside) (ds : List Desc) (n m : ℕ) (xs ys : List (ℕ × ℕ))
    → scan o write_kind ds n xs ≡ some (m, ys)
    → n + length (gather o ds) ≡ m
unfolding scan gather checked_add descriptor_valid
scan-gather o [] n m xs ys e = ground (arith, e)
scan-gather o (d ∷ rest) n m xs ys e = elim (Option-cases (guest_slice o d.addr d.len)) [
  | inl f ↦ absurd (ground (arith, e, f))
  | inr (s, f) ↦
      let size = guest_slice-length o d.addr d.len s f in
      let more = scan-gather o rest (n + d.len) m (xs ++ []) ys (ground (arith, e, f)) in
      ground (arith, f, size, more, length-append s (gather o rest))
]

-- The bytes that go with a request: those to write.
abbrev pub sent_of : BlockRequestKind → ℕ → ℕ
sent_of read_kind n = 0
sent_of write_kind n = n
sent_of flush_kind n = 0

-- A flush has no bytes, anything else some, and these lie inside the disk.
abbrev pub InDisk : BlockRequestKind → ℕ → ℕ → ℕ → Type 0
InDisk read_kind size offset n = (0 < n) × (offset + n ≤ size)
InDisk write_kind size offset n = (0 < n) × (offset + n ≤ size)
InDisk flush_kind size offset n = n ≡ 0

record IsAccepted (o : Outside) (size : ℕ) (a : Accepted) : Type 0 where
  inside : InDisk a.kind size a.offset a.body_len
  small : a.body_len ≤ max_disk_operation
  fitting : Fitting o a.kind a.buffers a.body_len
  sources : length (data_of o a.kind a.body) ≡ sent_of a.kind a.body_len

accept_body-IsAccepted :
    (o : Outside) (size : ℕ) (kind : BlockRequestKind) (offset n : ℕ) (body : List Desc)
    (a : Accepted)
    → accept_body o size kind offset n body ≡ some a
    → IsAccepted o size a
unfolding accept_body data_of range_end checked_add
accept_body-IsAccepted o size kind offset n body a e = elim (Option-cases (scan o kind body 0 [])) [
  | inl f ↦ absurd (ground (arith, e, f))
  | inr ((m, ys), f) ↦
      let made : Accepted = record {
        kind = kind;
        offset = offset;
        body = body;
        body_len = m;
        buffers = ys;
      } in
      let same : made ≡ a = ground (arith, e, f) in
      subst (IsAccepted o size) same (record {
        inside = in_disk kind f (ground (arith, e, f));
        small = scan-small o kind body 0 m [] ys f (omega arith);
        fitting = scan-Fitting o kind body 0 m [] ys f (nothing kind);
        sources = sources_of kind f;
      })
]
  where
    nothing : (kind : BlockRequestKind) → Fitting o kind [] 0
    nothing read_kind = (refl, refl)
    nothing write_kind = tt
    nothing flush_kind = tt

    sources_of :
        (kind : BlockRequestKind) {m : ℕ} {ys : List (ℕ × ℕ)}
        → scan o kind body 0 [] ≡ some (m, ys)
        → length (data_of o kind body) ≡ sent_of kind m
    sources_of read_kind f = refl
    sources_of write_kind {m = m} {ys = ys} f = omega (arith, scan-gather o body 0 m [] ys f)
    sources_of flush_kind f = refl

    in_disk :
        (kind : BlockRequestKind) {m : ℕ} {ys : List (ℕ × ℕ)}
        → scan o kind body 0 [] ≡ some (m, ys)
        → is_some (accept_body o size kind offset n body) ≡ true
        → InDisk kind size offset m
    in_disk read_kind f e = ground (arith, f, e)
    in_disk write_kind f e = ground (arith, f, e)
    in_disk flush_kind f e = ground (arith, f, e)

accept-IsAccepted :
    (o : Outside) (size : ℕ) (chain : List Desc) (a : Accepted)
    → accept o size chain ≡ some a
    → IsAccepted o size a
unfolding accept
accept-IsAccepted o size chain a e = elim (Option-cases (get_elem? chain 0)) [
  | inl f ↦ absurd (ground (arith, e, f))
  | inr (hdr, f) ↦ elim (Bool-cases (ltb (length chain) 2 || ltb hdr.len 16 || hdr.writable)) [
    | inl g ↦ absurd (ground (arith, e, f, g))
    | inr g ↦ elim (Option-cases (guest_slice o hdr.addr 16)) [
      | inl h ↦ absurd (ground (arith, e, f, g, h))
      | inr (header, h) ↦ elim (Option-cases (kind_of (req_type header))) [
        | inl i ↦ absurd (ground (arith, e, f, g, h, i))
        | inr (kind, i) ↦ elim (Option-cases (checked_mul (req_sector header) 512)) [
          | inl j ↦ absurd (ground (arith, e, f, g, h, i, j))
          | inr (offset, j) ↦ elim (Option-cases (middle chain)) [
            | inl k ↦ absurd (ground (arith, e, f, g, h, i, j, k))
            | inr (body, k) ↦
                accept_body-IsAccepted o size kind offset (length chain) body a
                  (ground (arith, e, f, g, h, i, j, k))
          ]
        ]
      ]
    ]
  ]
]

-- A request to the host.
pub record IsRequest (o : Outside) (size : ℕ) (r : PendingBlockRequest) : Type 0 where
  pub inside : InDisk r.kind size r.offset r.request_length
  pub small : r.request_length ≤ max_disk_operation
  pub fitting : Fitting o r.kind r.read_buffers r.request_length
  pub sources : length r.data_bytes ≡ sent_of r.kind r.request_length
  pub status_in_ram : in_ram o r.status_addr 1 ≡ true

request_of-IsRequest :
    (o : Outside) (size qi status_addr : ℕ) (a : Accepted)
    → IsAccepted o size a
    → in_ram o status_addr 1 ≡ true
    → IsRequest o size (request_of o qi status_addr a)
unfolding request_of
request_of-IsRequest o size qi status_addr a v there = record {
  inside = v.inside;
  small = v.small;
  fitting = v.fitting;
  sources = v.sources;
  status_in_ram = there;
}

-- A request that is left pending for the host reads or writes at least one byte and at most 64 KiB,
-- all inside the disk, or flushes; the buffers of a read lie in RAM and make up its length, a write
-- brings as many bytes as it is long, and the status byte lies in RAM.
pub serve_external-IsRequest :
    (size qi : ℕ) (chain : List Desc) (o : Outside) (r : PendingBlockRequest)
    → (serve_external size none qi chain o).1 ≡ some r
    → IsRequest o size r
unfolding serve_external
serve_external-IsRequest size qi chain o r e = elim (Bool-cases (qi != 0)) [
  | inl other ↦ absurd (ground (arith, e, other))
  | inr zeroth ↦ elim (Option-cases (last chain)) [
    | inl f ↦ absurd (ground (arith, e, zeroth, f))
    | inr (s, f) ↦ elim (Bool-cases (ltb s.len 1 || not s.writable || not (in_ram o s.addr 1))) [
      | inl g ↦ absurd (ground (arith, e, zeroth, f, g))
      | inr g ↦ elim (Option-cases (accept o size chain)) [
        | inl h ↦ absurd (ground (arith, e, zeroth, f, g, h))
        | inr (a, h) ↦
            let v = accept-IsAccepted o size chain a h in
            let same : request_of o qi s.addr a ≡ r = ground (arith, e, zeroth, f, g, h) in
            subst (IsRequest o size) same
              (request_of-IsRequest o size qi s.addr a v (ground (arith, g)))
      ]
    ]
  ]
]
