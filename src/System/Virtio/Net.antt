-- ===== src/System/Virtio/Net.antt =====
-- Frames to and from the guest: `service` of crates/rv64-system/src/virtio.rs, the arm of
-- `Backend::Net`.
use lish.Prelude.{
  ℕ, ◌+◌, ◌-◌, ◌%◌, ◌^◌, min, ◌&&◌, ◌||◌, List, [], ◌∷◌, ◌++◌, length, take, drop, Option, none,
  some, ltb, leb, if◌then◌else◌, not,
}
use lish.System.Virtio.Memory.{Outside, guest_slice, guest_write}
use lish.System.Virtio.Device.{net_hdr_len, net_max_frame, net_queue_limit}
use lish.System.Virtio.Disk.{Desc}

unfoldable pub capacity : List Desc → ℕ
capacity [] = 0
capacity (d ∷ rest) = (if d.writable then d.len else 0) + capacity rest

-- The header with `num_buffers` at 1.
abbrev pub net_hdr : List ℕ
net_hdr = 0 ∷ 0 ∷ 0 ∷ 0 ∷ 0 ∷ 0 ∷ 0 ∷ 0 ∷ 0 ∷ 0 ∷ 1 ∷ 0 ∷ []

-- The loop over the chain: the bytes written so far are passed on.
unfoldable pub scatter : List ℕ → List Desc → ℕ → Outside → ℕ × Outside
scatter src [] written o = (written, o)
scatter src (d ∷ rest) written o =
    if not d.writable || leb (length src) written
    then scatter src rest written o
    else (let n = min (length src - written) d.len in
        let (done, o') = guest_write o d.addr (take n (drop written src)) in
        if done then scatter src rest (written + n) o' else (written, o'))

-- The result of `service`, with both mailboxes.
abbrev pub NetResult : Type 0
NetResult = Option ℕ × List (List ℕ) × List (List ℕ) × Outside

unfoldable pub receive : List (List ℕ) → List (List ℕ) → List Desc → Outside → NetResult
receive [] outbox chain o = (none, [], outbox, o)
receive (frame ∷ inbox) outbox chain o =
    if ltb (capacity chain) (net_hdr_len + length frame)
    then (none, inbox, outbox, o)
    else (let (written, o') = scatter (net_hdr ++ frame) chain 0 o in
        (some (written % 2 ^ 32), inbox, outbox, o'))

-- The bytes of the readable descriptors, one after the other.
unfoldable pub reassemble : Outside → List Desc → Option (List ℕ)
reassemble o [] = some []
reassemble o (d ∷ rest) =
    if d.writable then reassemble o rest else elim (guest_slice o d.addr d.len) [
      | none ↦ none
      | some s ↦ elim (reassemble o rest) [ none ↦ none | some frame ↦ some (s ++ frame) ]
    ]

unfoldable pub transmit : List (List ℕ) → List (List ℕ) → List Desc → Outside → NetResult
transmit inbox outbox chain o = elim (reassemble o chain) [
  | none ↦ (some 0, inbox, outbox, o)
  | some frame ↦
      if ltb net_hdr_len (length frame)
        && leb (length frame - net_hdr_len) net_max_frame
        && ltb (length outbox) net_queue_limit
      then (some 0, inbox, outbox ++ (drop net_hdr_len frame ∷ []), o)
      else (some 0, inbox, outbox, o)
]
