-- ===== src/System/Virtio/Memory/Observed.antt =====
-- The writes of a device are noticed: `guest_write` of crates/rv64-system/src/virtio.rs, with
-- `JitPageState` of crates/rv64-system/src/lib.rs.
use lish.Prelude.{
  ℕ, ◌+◌, ◌*◌, ◌/◌, ◌^◌, ◌≤◌, ◌≡◌, refl, ◌∙◌, arith, true, false, Bool-cases, Option-cases, inl,
  inr, List, length, get_or, ltb, leb, ◌&&◌,
}
use lish.Prelude.Memory.{write_at, length-write_at, get_or-write_at_apart}
use lish.System.Ram.{checked_ram_range}
use lish.System.JitPages.{ram_base, page_marked, is_dirty, note_write}
use lish.System.JitPages.Stores.{IsSized}
use lish.System.JitPages.Writes.{note_write-Kept, note_write-Dirty}
use lish.System.Virtio.Memory.{Outside, guest_write}
use lish.System.Virtio.Memory.Apart.{range_lem}
use lish.System.Virtio.Memory.Reached.{Reached, start, wrote, counted}

-- The RAM lies at its base, and its pages are those that are tracked.
pub record IsTracked (o : Outside) : Type 0 where
  pub based : o.ram_base ≡ ram_base
  pub sized : IsSized o.jit
  pub covered : length o.ram ≤ o.jit.page_count * 2 ^ 12
  pub fits : ram_base + length o.ram ≤ 2 ^ 64

-- From the first state to the second no byte of a page that holds compiled code has changed,
-- unless the page is now dirty, and nothing dirty has become clean.
pub record Observed (o p : Outside) : Type 0 where
  pub tracked : IsTracked p
  pub same_size : length p.ram ≡ length o.ram
  pub marks_stay : (q : ℕ) → page_marked p.jit q ≡ page_marked o.jit q
  pub dirt_stays : (q : ℕ) → is_dirty o.jit q ≡ true → is_dirty p.jit q ≡ true
  pub unchanged :
      (pos : ℕ)
      → page_marked o.jit (pos / 2 ^ 12) ≡ true
      → is_dirty p.jit (pos / 2 ^ 12) ≡ false
      → get_or p.ram pos 0 ≡ get_or o.ram pos 0

written_range-Observed :
    (o : Outside) (off : ℕ) (bytes : List ℕ)
    → IsTracked o
    → off + length bytes ≤ length o.ram
    → Observed o (record o {
      ram = write_at off bytes o.ram;
      jit = note_write o.jit (ram_base + off) (length bytes);
    })
written_range-Observed o off bytes t inside =
    let n = length bytes in
    let size = length-write_at off bytes o.ram in
    let (marks, flags, count) = note_write-Kept o.jit (ram_base + off) n in
    let dirt = λ (q : ℕ).
      note_write-Dirty o.jit off n q t.sized (omega (arith, inside, t.covered))
        (omega (arith, inside, t.fits)) in
    record {
      tracked = record {
        based = t.based;
        sized = ground (arith, t.sized, flags, count);
        covered = omega (arith, t.covered, size, count);
        fits = omega (arith, t.fits, size);
      };
      same_size = size;
      marks_stay = marks;
      dirt_stays = λ q d. (dirt q).0 d;
      unchanged = λ pos m clean. elim (Bool-cases (leb off pos && ltb pos (off + n))) [
        | inl hit ↦
            let noticed = (dirt (pos / 2 ^ 12)).1 (ground arith) (ground arith) (ground arith) m in
            absurd (ground (arith, noticed, clean))
        | inr miss ↦ get_or-write_at_apart off pos bytes o.ram (ground (arith, miss))
      ];
    }

counted-Observed : (o : Outside) (n : ℕ) → IsTracked o → Observed o (record o { next_id = n })
counted-Observed o n t = record {
  tracked = record { based = t.based; sized = t.sized; covered = t.covered; fits = t.fits };
  same_size = refl;
  marks_stay = λ q. refl;
  dirt_stays = λ q d. d;
  unchanged = λ pos m clean. refl;
}

no_write-Observed : (o : Outside) → IsTracked o → Observed o o
no_write-Observed o t = counted-Observed o o.next_id t

guest_write-Observed :
    (o : Outside) (addr : ℕ) (bytes : List ℕ)
    → IsTracked o
    → Observed o (guest_write o addr bytes).1
unfolding guest_write
guest_write-Observed o addr bytes t =
    elim (Option-cases (checked_ram_range (length o.ram) o.ram_base addr (length bytes))) [
      | inl e ↦ rw (e, guest_write) (no_write-Observed o t)
      | inr (r, e) ↦
          let (at, inside) = range_lem (length o.ram) o.ram_base addr (length bytes) r e in
          let at' : addr ≡ ram_base + r.0 = omega (arith, at, t.based) in
          rw (e, guest_write, at') (written_range-Observed o r.0 bytes t inside)
    ]

then-Observed : {o p q : Outside} → Observed o p → Observed p q → Observed o q
then-Observed {p = p} a b = record {
  tracked = b.tracked;
  same_size = b.same_size ∙ a.same_size;
  marks_stay = λ q. b.marks_stay q ∙ a.marks_stay q;
  dirt_stays = λ q d. b.dirt_stays q (a.dirt_stays q d);
  unchanged = λ pos m clean.
      b.unchanged pos (a.marks_stay (pos / 2 ^ 12) ∙ m) clean
      ∙ a.unchanged pos m (elim (Bool-cases (is_dirty p.jit (pos / 2 ^ 12))) [
        | inl d ↦ absurd (ground (arith, b.dirt_stays (pos / 2 ^ 12) d, clean))
        | inr c ↦ c
      ]);
}

-- Whatever a device does outside itself is observed.
pub Reached-Observed : {o p : Outside} → IsTracked o → Reached o p → Observed o p
Reached-Observed t start = no_write-Observed _ t
Reached-Observed t (wrote {p = p} addr bytes r) =
    let before = Reached-Observed t r in
    then-Observed before (guest_write-Observed p addr bytes before.tracked)
Reached-Observed t (counted {p = p} n r) =
    let before = Reached-Observed t r in then-Observed before (counted-Observed p n before.tracked)
