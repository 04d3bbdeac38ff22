-- ===== src/System/Virtio/Completion.antt =====
-- The completion of a request by the host: `complete_block_request` of
-- crates/rv64-system/src/virtio.rs.
pub mod Commit
use lish.Prelude.{
  ℕ, ◌+◌, ◌%◌, ◌^◌, Bool, true, false, ◌&&◌, ◌||◌, List, [], ◌∷◌, length, take, drop, none, some,
  ◌==◌, ◌!=◌, if◌then◌else◌, not,
}
use lish.System.Virtio.Memory.{Outside, guest_write}
use lish.System.Virtio.Device.{
  VirtioDev, block, external_block, net, read_kind, write_kind, flush_kind, PendingBlockRequest,
}
use lish.System.Virtio.External.{in_ram}
use lish.System.Virtio.Transport.{UsedSlot, publish, advance_queue}

-- Every buffer of a read lies in RAM.
unfoldable pub buffers_in_ram : Outside → List (ℕ × ℕ) → Bool
buffers_in_ram o [] = true
buffers_in_ram o ((addr, len) ∷ rest) = in_ram o addr len && buffers_in_ram o rest

unfoldable pub completion_targets_valid : Outside → PendingBlockRequest → Bool
completion_targets_valid o r =
    elim r.kind [
      | read_kind ↦ buffers_in_ram o r.read_buffers
      | write_kind ↦ true
      | flush_kind ↦ true
    ]
    && in_ram o r.status_addr 1
    && in_ram o r.used_entry 8
    && in_ram o r.used_index_addr 2

unfoldable pub data_valid : PendingBlockRequest → List ℕ → Bool
data_valid r bytes = elim r.kind [
  | read_kind ↦ length bytes == r.request_length
  | write_kind ↦ length bytes == 0
  | flush_kind ↦ length bytes == 0
]

-- The loop that copies the data to the buffers, and whether each write was done.
unfoldable pub copy_out : Outside → List (ℕ × ℕ) → List ℕ → ℕ → Bool → Bool × Outside
copy_out o [] bytes copied success = (success, o)
copy_out o ((addr, len) ∷ rest) bytes copied success =
    let (done, o') = guest_write o addr (take len (drop copied bytes)) in
    copy_out o' rest bytes (copied + len) (success && done)

unfoldable pub deliver : Outside → PendingBlockRequest → List ℕ → Bool → Bool × Outside
deliver o r bytes success =
    if success
    then elim r.kind [
      | read_kind ↦ copy_out o r.read_buffers bytes 0 success
      | write_kind ↦ (success, o)
      | flush_kind ↦ (success, o)
    ]
    else (success, o)

unfoldable pub written_of : PendingBlockRequest → Bool → ℕ
written_of r success = elim r.kind [
  | read_kind ↦ if success then (r.request_length % 2 ^ 32 + 1) % 2 ^ 32 else 1
  | write_kind ↦ 1
  | flush_kind ↦ 1
]

-- The completion of a request whose targets are all in RAM.
unfoldable pub commit :
    VirtioDev → Outside → PendingBlockRequest → List ℕ → Bool → VirtioDev × Outside
commit d o r bytes ok =
    let (copied, o') = deliver o r bytes (ok && data_valid r bytes) in
    let (reported, o'') = guest_write o' r.status_addr ((if copied then 0 else 1) ∷ []) in
    let slot : UsedSlot = record {
      index_addr = r.used_index_addr;
      entry = r.used_entry;
      idx = r.used_idx;
    } in
    (advance_queue d r.queue_index, publish o'' r.head (written_of r (copied && reported)) slot)

unfoldable pub complete_block_request :
    VirtioDev → ℕ → List ℕ → Bool → Outside → Bool × VirtioDev × Outside
complete_block_request d id bytes ok o = elim d.backend [
  | block _ ↦ (false, d, o)
  | net _ _ _ ↦ (false, d, o)
  | external_block size pending ↦ elim pending [
    | none ↦ (false, d, o)
    | some r ↦
        if r.id != id || not (completion_targets_valid o r)
        then (false, d, o)
        else (let (d', o') =
              commit (record d { backend = external_block size none }) o r bytes ok in
            (true, d', o'))
  ]
]
