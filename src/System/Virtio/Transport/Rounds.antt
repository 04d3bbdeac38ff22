-- ===== src/System/Virtio/Transport/Rounds.antt =====
-- The rounds of the loop of `process`: crates/rv64-system/src/virtio.rs.
use lish.Prelude.{ℕ, ◌≡◌, refl, false, Bool-cases, Option-cases, ◌⊎◌, inl, inr, List, some, ◌==◌}
use lish.System.Virtio.Memory.{Outside}
use lish.System.Virtio.Device.{VirtioDev}
use lish.System.Virtio.Disk.{Desc}
use lish.System.Virtio.Transport.{
  UsedSlot, queue_at, avail_idx, next_head, walk_chain, used_slot, serve_chain, process_round,
}

-- A round that serves a chain.
pub record Serving (qi : ℕ) (d : VirtioDev) (o : Outside) : Type 0 where
  pub idx : ℕ
  pub head : ℕ
  pub chain : List Desc
  pub slot : UsedSlot
  pub num_not_zero : ((queue_at d qi).num == 0) ≡ false
  pub idx_there : avail_idx o (queue_at d qi) ≡ some idx
  pub idx_ahead : ((queue_at d qi).last_avail_idx == idx) ≡ false
  pub slot_there : used_slot o (queue_at d qi) ≡ some slot
  pub serves : process_round qi d o ≡ serve_chain d qi head chain slot o

-- A round serves a chain, or ends the loop and changes nothing.
pub Round-cases :
    (qi : ℕ) (d : VirtioDev) (o : Outside) → (process_round qi d o ≡ (false, d, o)) ⊎ Serving qi d o
unfolding process_round
Round-cases qi d o =
    let q = queue_at d qi in
    elim (Bool-cases (q.num == 0)) [
      | inl a ↦ inl (rw (a, process_round) refl)
      | inr a ↦ elim (Option-cases (avail_idx o q)) [
        | inl b ↦ inl (rw (a, b, process_round) refl)
        | inr (idx, b) ↦ elim (Bool-cases (q.last_avail_idx == idx)) [
          | inl c ↦ inl (rw (a, b, c, process_round) refl)
          | inr c ↦ elim (Option-cases (next_head o q)) [
            | inl e ↦ inl (rw (a, b, c, e, process_round) refl)
            | inr (head, e) ↦ elim (Option-cases (walk_chain q.num o q head)) [
              | inl f ↦ inl (rw (a, b, c, e, f, process_round) refl)
              | inr (chain, f) ↦ elim (Option-cases (used_slot o q)) [
                | inl g ↦ inl (rw (a, b, c, e, f, g, process_round) refl)
                | inr (u, g) ↦ inr (record {
                  idx = idx;
                  head = head;
                  chain = chain;
                  slot = u;
                  num_not_zero = a;
                  idx_there = b;
                  idx_ahead = c;
                  slot_there = g;
                  serves = rw (a, b, c, e, f, g, process_round) refl;
                })
              ]
            ]
          ]
        ]
      ]
    ]
