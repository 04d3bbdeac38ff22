-- ===== src/System/Virtio/Reachable/Queues.antt =====
-- Processing keeps the invariant: `process` and `complete_block_request` of
-- crates/rv64-system/src/virtio.rs.
use lish.Prelude.{
  ℕ, zero, suc, ◌-◌, ◌≡◌, refl, sym, subst, arith, Bool, not, ◌&&◌, ◌||◌, Bool-cases, Option-cases,
  inl, inr, List, [], ◌∷◌, length, length-drop, drop, none, some, ltb, leb, ◌==◌, ◌!=◌,
}
use lish.System.Virtio.Memory.{Outside}
use lish.System.Virtio.Device.{
  VirtioDev, Backend, block, external_block, net, net_max_frame, net_queue_limit, net_hdr_len,
  queue_num_max, max_queues,
}
use lish.System.Virtio.Disk.{Desc}
use lish.System.Virtio.Net.{receive, transmit, reassemble}
use lish.System.Virtio.Transport.{
  UsedSlot, service, queue_at, remember, advance_queue, serve_chain, process_round, process_loop,
  process, has_pending_block_request,
}
use lish.System.Virtio.Transport.Rounds.{Round-cases}
use lish.System.Virtio.Completion.{complete_block_request, commit, completion_targets_valid}
use lish.System.Virtio.Reachable.Valid.{
  Mailboxes, IsValid, IsBounded-append, backend-IsValid, queue-IsValid,
}

receive-Mailboxes :
    (mac : List ℕ) (inbox outbox : List (List ℕ)) (chain : List Desc) (o : Outside)
    → Mailboxes (net mac inbox outbox)
    → let r = receive inbox outbox chain o in Mailboxes (net mac r.1 r.2)
unfolding receive
receive-Mailboxes mac [] outbox chain o m = m
receive-Mailboxes mac (frame ∷ inbox) outbox chain o ((size, (_, all)), sent) =
    ground (arith, size, all, sent)

transmit-Mailboxes :
    (mac : List ℕ) (inbox outbox : List (List ℕ)) (chain : List Desc) (o : Outside)
    → Mailboxes (net mac inbox outbox)
    → let r = transmit inbox outbox chain o in Mailboxes (net mac r.1 r.2)
unfolding transmit
transmit-Mailboxes mac inbox outbox chain o (got, sent) = elim (Option-cases (reassemble o chain)) [
  | inl e ↦ rw (e, transmit) (got, sent)
  | inr (frame, e) ↦
      elim (Bool-cases (
        ltb net_hdr_len (length frame)
        && leb (length frame - net_hdr_len) net_max_frame
        && ltb (length outbox) net_queue_limit)) [
          | inr dropped ↦ rw (e, transmit, dropped) (got, sent)
          | inl kept ↦
              rw (e, transmit, kept)
                (
                  got,
                  IsBounded-append outbox (drop net_hdr_len frame) sent (ground (arith, kept))
                      (ground (arith, kept, length-drop net_hdr_len frame)),
                )
        ]
]

service-IsValid :
    (d : VirtioDev) (qi : ℕ) (chain : List Desc) (o : Outside)
    → IsValid d
    → IsValid (service d qi chain o).1
unfolding service queue_num_max
service-IsValid d qi chain o v = served d.backend refl
  where
    served : (b : Backend) → d.backend ≡ b → IsValid (service d qi chain o).1
    served (block disk) e = rw (e, service) (backend-IsValid d _ v (ground (arith, e)) tt)
    served (external_block size pending) e =
        rw (e, service) (backend-IsValid d _ v (ground (arith, e)) tt)
    served (net mac inbox outbox) e = elim (Bool-cases (qi == 0)) [
      | inl rx ↦
          rw (e, rx, service)
            (backend-IsValid d _ v (ground (arith, e))
              (receive-Mailboxes mac inbox outbox chain o (subst Mailboxes e v.mailboxes)))
      | inr tx ↦
          rw (e, tx, service)
            (backend-IsValid d _ v (ground (arith, e))
              (transmit-Mailboxes mac inbox outbox chain o (subst Mailboxes e v.mailboxes)))
    ]

remember-IsValid :
    (d : VirtioDev) (head : ℕ) (u : UsedSlot) → IsValid d → IsValid (remember d head u)
unfolding remember queue_num_max
remember-IsValid d head u v = waited d.backend refl
  where
    waited : (b : Backend) → d.backend ≡ b → IsValid (remember d head u)
    waited (block disk) e = rw (e, remember) v
    waited (net mac inbox outbox) e = rw (e, remember) v
    waited (external_block size none) e = rw (e, remember) v
    waited (external_block size (some r)) e =
        rw (e, remember) (backend-IsValid d _ v (ground (arith, e)) tt)

advance_queue-IsValid : (d : VirtioDev) (qi : ℕ) → IsValid d → IsValid (advance_queue d qi)
unfolding advance_queue
advance_queue-IsValid d qi v = queue-IsValid d qi _ _ v (v.nums qi) (omega arith)

serve_chain-IsValid :
    (d : VirtioDev) (qi head : ℕ) (chain : List Desc) (u : UsedSlot) (o : Outside)
    → IsValid d
    → IsValid (serve_chain d qi head chain u o).1
unfolding serve_chain
serve_chain-IsValid d qi head chain u o v =
    let after = service-IsValid d qi chain o v in
    elim (Option-cases (service d qi chain o).0) [
      | inl e ↦ rw (e, serve_chain) (remember-IsValid _ head u after)
      | inr (written, e) ↦ rw (e, serve_chain) (advance_queue-IsValid _ qi after)
    ]

process_loop-IsValid :
    (fuel qi : ℕ) (d d' : VirtioDev) (o o' : Outside)
    → IsValid d
    → process_loop fuel qi d o ≡ some (d', o')
    → IsValid d'
unfolding process_loop
process_loop-IsValid zero qi d d' o o' v e = absurd (ground (arith, e))
process_loop-IsValid (suc fuel) qi d d' o o' v e =
    let (again, d1, o1) = process_round qi d o in
    let after : IsValid d1 = elim (Round-cases qi d o) [
      | inl idle ↦ subst (λ t. IsValid t.1) (sym idle) v
      | inr s ↦
          subst (λ t. IsValid t.1) (sym s.serves)
            (serve_chain-IsValid d qi s.head s.chain s.slot o v)
    ] in
    elim (Bool-cases (process_round qi d o).0) [
      | inl more ↦ process_loop-IsValid fuel qi d1 d' o1 o' after (ground (arith, e, more))
      | inr done ↦ subst IsValid (ground (arith, e, done)) after
    ]

pub process-IsValid :
    (fuel qi : ℕ) (d d' : VirtioDev) (o o' : Outside)
    → IsValid d
    → process fuel qi d o ≡ some (d', o')
    → IsValid d'
unfolding process
process-IsValid fuel qi d d' o o' v e =
    elim (Bool-cases (leb max_queues qi || (queue_at d qi).ready == 0)) [
      | inl idle ↦ subst IsValid (ground (arith, e, idle)) v
      | inr on ↦ elim (Bool-cases (has_pending_block_request d)) [
        | inl wait ↦ subst IsValid (ground (arith, e, on, wait)) v
        | inr go ↦ process_loop-IsValid fuel qi d d' o o' v (ground (arith, e, on, go))
      ]
    ]

pub complete-IsValid :
    (d : VirtioDev) (id : ℕ) (bytes : List ℕ) (ok : Bool) (o : Outside)
    → IsValid d
    → IsValid (complete_block_request d id bytes ok o).1
unfolding complete_block_request commit queue_num_max
complete-IsValid d id bytes ok o v = answered d.backend refl
  where
    answered : (b : Backend) → d.backend ≡ b → IsValid (complete_block_request d id bytes ok o).1
    answered (block disk) e = rw (e, complete_block_request) v
    answered (net mac inbox outbox) e = rw (e, complete_block_request) v
    answered (external_block size none) e = rw (e, complete_block_request) v
    answered (external_block size (some r)) e =
        elim (Bool-cases (r.id != id || not (completion_targets_valid o r))) [
          | inl refused ↦ rw (e, complete_block_request, refused) v
          | inr taken ↦
              rw (e, complete_block_request, taken)
                (advance_queue-IsValid (record d { backend = external_block size none })
                  r.queue_index (backend-IsValid d _ v (ground (arith, e)) tt))
        ]
