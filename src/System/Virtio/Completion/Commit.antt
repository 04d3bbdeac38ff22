-- ===== src/System/Virtio/Completion/Commit.antt =====
-- The completion of a request by the host is one commit: `complete_block_request` of
-- crates/rv64-system/src/virtio.rs.
use lish.Prelude.{
  ℕ, ◌+◌, ◌%◌, ◌^◌, ◌≤◌, ◌≡◌, refl, ap, ◌∙◌, arith, Bool, true, false, ◌&&◌, Bool-cases,
  Option-cases, ◌⊎◌, inl, inr, List, [], ◌∷◌, length, length-take, length-drop, take, drop, none,
  some, if◌then◌else◌,
}
use lish.Prelude.Memory.{from_le_bytes, read_at-write_at, length-write_at}
use lish.System.Ram.{checked_ram_range}
use lish.System.Virtio.Memory.{Outside, guest_slice, guest_write, read_word, write_word}
use lish.System.Virtio.Memory.Apart.{range_lem, read_word-write_word_apart, guest_write-length}
use lish.System.Virtio.Device.{
  VirtioDev, external_block, BlockRequestKind, read_kind, write_kind, flush_kind,
  PendingBlockRequest,
}
use lish.System.Virtio.External.{in_ram}
use lish.System.Virtio.External.Requests.{total}
use lish.System.Virtio.Transport.{publish, advance_queue, pending_block_request}
use lish.System.Virtio.Completion.{
  buffers_in_ram, completion_targets_valid, data_valid, copy_out, deliver, written_of, commit,
  complete_block_request,
}

in_ram-guest_write :
    (o : Outside) (a : ℕ) (bytes : List ℕ) (addr len : ℕ)
    → in_ram (guest_write o a bytes).1 addr len ≡ in_ram o addr len
in_ram-guest_write o a bytes addr len =
    let (size, base) = guest_write-length o a bytes in ground (arith, size, base)

buffers_in_ram-guest_write :
    (o : Outside) (a : ℕ) (bytes : List ℕ) (buffers : List (ℕ × ℕ))
    → buffers_in_ram (guest_write o a bytes).1 buffers ≡ buffers_in_ram o buffers
unfolding buffers_in_ram
buffers_in_ram-guest_write o a bytes [] = refl
buffers_in_ram-guest_write o a bytes ((addr, len) ∷ rest) =
    ground (arith, in_ram-guest_write o a bytes addr len, buffers_in_ram-guest_write o a bytes rest)

guest_write-done :
    (o : Outside) (a : ℕ) (bytes : List ℕ)
    → in_ram o a (length bytes) ≡ true
    → (guest_write o a bytes).0 ≡ true
unfolding guest_write
guest_write-done o a bytes h = ground (arith, h)

-- Every buffer is written, if each lies in RAM and there is data for all.
copy_out-done :
    (o : Outside) (buffers : List (ℕ × ℕ)) (bytes : List ℕ) (copied : ℕ)
    → buffers_in_ram o buffers ≡ true
    → copied + total buffers ≤ length bytes
    → (copy_out o buffers bytes copied true).0 ≡ true
unfolding copy_out buffers_in_ram
copy_out-done o [] bytes copied inside enough = refl
copy_out-done o ((addr, len) ∷ rest) bytes copied inside enough =
    let piece = take len (drop copied bytes) in
    let size : length piece ≡ len =
      omega (arith, length-take len (drop copied bytes), length-drop copied bytes, enough) in
    let done = guest_write-done o addr piece (ground (arith, inside, size)) in
    let rest_in = buffers_in_ram-guest_write o addr piece rest in
    let more =
      copy_out-done (guest_write o addr piece).1 rest bytes (copied + len)
        (ground (arith, inside, rest_in)) (omega (arith, enough)) in
    ground (arith, done, more)

copy_out-length :
    (o : Outside) (buffers : List (ℕ × ℕ)) (bytes : List ℕ) (copied : ℕ) (success : Bool)
    → (length (copy_out o buffers bytes copied success).1.ram ≡ length o.ram)
      × ((copy_out o buffers bytes copied success).1.ram_base ≡ o.ram_base)
unfolding copy_out
copy_out-length o [] bytes copied success = (refl, refl)
copy_out-length o ((addr, len) ∷ rest) bytes copied success =
    let piece = take len (drop copied bytes) in
    let (size, base) = guest_write-length o addr piece in
    let (size', base') =
      copy_out-length (guest_write o addr piece).1 rest bytes (copied + len)
        (success && (guest_write o addr piece).0) in
    (size' ∙ size, base' ∙ base)

-- The buffers of a read make up its length.
abbrev pub IsWhole : PendingBlockRequest → Type 0
IsWhole r = elim r.kind [
  | read_kind ↦ total r.read_buffers ≡ r.request_length
  | write_kind ↦ Unit {0}
  | flush_kind ↦ Unit {0}
]

deliver-done :
    (o : Outside) (r : PendingBlockRequest) (bytes : List ℕ) (ok : Bool)
    → IsWhole r
    → completion_targets_valid o r ≡ true
    → (deliver o r bytes (ok && data_valid r bytes)).0 ≡ (ok && data_valid r bytes)
unfolding deliver completion_targets_valid data_valid
deliver-done o r bytes ok whole valid = by_kind r.kind refl
  where
    by_kind :
        (k : BlockRequestKind)
        → r.kind ≡ k
        → (deliver o r bytes (ok && data_valid r bytes)).0 ≡ (ok && data_valid r bytes)
    by_kind write_kind e = ground (arith, e)
    by_kind flush_kind e = ground (arith, e)
    by_kind read_kind e = elim (Bool-cases (ok && data_valid r bytes)) [
      | inr failed ↦ ground (arith, failed)
      | inl fine ↦
          let size : length bytes ≡ r.request_length = ground (arith, fine, e) in
          let summed : total r.read_buffers ≡ r.request_length = ground (arith, whole, e) in
          let inside : buffers_in_ram o r.read_buffers ≡ true = ground (arith, valid, e) in
          let copied =
            copy_out-done o r.read_buffers bytes 0 inside (omega (arith, size, summed)) in
          ground (arith, fine, e, copied)
    ]

deliver-length :
    (o : Outside) (r : PendingBlockRequest) (bytes : List ℕ) (success : Bool)
    → (length (deliver o r bytes success).1.ram ≡ length o.ram)
      × ((deliver o r bytes success).1.ram_base ≡ o.ram_base)
unfolding deliver
deliver-length o r bytes false = (refl, refl)
deliver-length o r bytes true =
    let copied = copy_out-length o r.read_buffers bytes 0 true in ground (arith, copied)

-- A byte that was just written in RAM.
read_byte-guest_write :
    (o : Outside) (a b : ℕ)
    → in_ram o a 1 ≡ true
    → ((guest_write o a (b ∷ [])).0 ≡ true) × (read_word 1 (guest_write o a (b ∷ [])).1 a ≡ some b)
unfolding read_word guest_slice guest_write from_le_bytes
read_byte-guest_write o a b h =
    elim (Option-cases (checked_ram_range (length o.ram) o.ram_base a 1)) [
      | inl e ↦ absurd (ground (arith, h, e))
      | inr (r, e) ↦
          let (_, inside) = range_lem _ _ _ _ r e in
          let got = read_at-write_at r.0 (b ∷ []) o.ram (omega (arith, inside)) in
          let size = length-write_at r.0 (b ∷ []) o.ram in
          (ground (arith, e), ground (arith, e, size, got))
    ]

-- The used ring's entry and index do not reach an address.
abbrev pub Away : PendingBlockRequest → ℕ → Type 0
Away r a =
    ((a + 1 ≤ r.used_entry) ⊎ (r.used_entry + 8 ≤ a))
    × ((a + 1 ≤ r.used_index_addr) ⊎ (r.used_index_addr + 2 ≤ a))

read_byte-publish :
    (o : Outside) (r : PendingBlockRequest) (written a : ℕ)
    → Away r a
    → read_word 1
        (publish o r.head written
          (record { index_addr = r.used_index_addr; entry = r.used_entry; idx = r.used_idx }))
        a
      ≡ read_word 1 o a
unfolding publish
read_byte-publish o r written a (entry, index) =
    let o1 = write_word 4 o r.used_entry r.head in
    let o2 = write_word 4 o1 (r.used_entry + 4) written in
    read_word-write_word_apart 2 1 o2 r.used_index_addr a ((r.used_idx + 1) % 2 ^ 16) index
    ∙ read_word-write_word_apart 4 1 o1 (r.used_entry + 4) a written (ground (arith, entry))
    ∙ read_word-write_word_apart 4 1 o r.used_entry a r.head (ground (arith, entry))

status_in_ram :
    (o : Outside) (r : PendingBlockRequest) (p : Outside)
    → completion_targets_valid o r ≡ true
    → length p.ram ≡ length o.ram
    → p.ram_base ≡ o.ram_base
    → in_ram p r.status_addr 1 ≡ true
unfolding completion_targets_valid
status_in_ram o r p valid size base = ground (arith, valid, size, base)

-- The status byte of a commit.
commit-status :
    (d : VirtioDev) (o : Outside) (r : PendingBlockRequest) (bytes : List ℕ) (ok : Bool)
    → IsWhole r
    → completion_targets_valid o r ≡ true
    → Away r r.status_addr
    → read_word 1 (commit d o r bytes ok).1 r.status_addr
      ≡ some (if ok && data_valid r bytes then 0 else 1)
unfolding commit
commit-status d o r bytes ok whole valid away =
    let success = ok && data_valid r bytes in
    let (copied, o1) = deliver o r bytes success in
    let all_done : copied ≡ success = deliver-done o r bytes ok whole valid in
    let (size, base) = deliver-length o r bytes success in
    let there : in_ram o1 r.status_addr 1 ≡ true = status_in_ram o r o1 valid size base in
    let (reported, o2) = guest_write o1 r.status_addr ((if copied then 0 else 1) ∷ []) in
    let (_, byte) = read_byte-guest_write o1 r.status_addr (if copied then 0 else 1) there in
    read_byte-publish o2 r (written_of r (copied && reported)) r.status_addr away
    ∙ byte
    ∙ ap (λ (b : Bool). some (if b then 0 else 1)) all_done

-- What a completion does, by whether its targets all lie in RAM.
abbrev pub Completed : Bool → VirtioDev → Outside → PendingBlockRequest → List ℕ → Bool → Type 0
Completed false d o r bytes ok =
    let (done, d', o') = complete_block_request d r.id bytes ok o in
    (done ≡ false) × (d' ≡ d) × (o' ≡ o)
Completed true d o r bytes ok =
    let (done, d', o') = complete_block_request d r.id bytes ok o in
    (done ≡ true)
    × (pending_block_request d' ≡ none)
    × (read_word 1 o' r.status_addr ≡ some (if ok && data_valid r bytes then 0 else 1))

commit-pending :
    (d : VirtioDev) (o : Outside) (r : PendingBlockRequest) (bytes : List ℕ) (ok : Bool) (size : ℕ)
    → d.backend ≡ external_block size none
    → pending_block_request (commit d o r bytes ok).0 ≡ none
unfolding commit advance_queue pending_block_request
commit-pending d o r bytes ok size e = ground (arith, e)

-- When the host answers the request that waits: if every target lies in RAM the request is done and
-- its status byte says whether the host succeeded and brought the data asked for, and otherwise
-- nothing at all changes, if the buffers of a read make up its length and the used ring's entry and
-- index do not reach the status byte.
pub complete_commits :
    (d : VirtioDev) (o : Outside) (r : PendingBlockRequest) (size : ℕ) (bytes : List ℕ) (ok : Bool)
    → d.backend ≡ external_block size (some r)
    → IsWhole r
    → Away r r.status_addr
    → Completed (completion_targets_valid o r) d o r bytes ok
unfolding complete_block_request
complete_commits d o r size bytes ok e whole away = by_targets (completion_targets_valid o r) refl
  where
    by_targets : (t : Bool) → completion_targets_valid o r ≡ t → Completed t d o r bytes ok
    by_targets false f = (ground (arith, e, f), ground (arith, e, f), ground (arith, e, f))
    by_targets true f =
        let free : VirtioDev = record d { backend = external_block size none } in
        (
          ground (arith, e, f),
          ground (arith, e, f, commit-pending free o r bytes ok size refl),
          ground (arith, e, f, commit-status free o r bytes ok whole f away),
        )
