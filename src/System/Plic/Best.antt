-- ===== src/System/Plic/Best.antt =====
-- What `Plic::best` of crates/rv64-system/src/virt.rs chooses: the arbitration.
use lish.Prelude.{
  ℕ, zero, suc, ◌+◌, ◌-◌, ◌^◌, ◌≤◌, ◌<◌, ◌≡◌, refl, ◌⊎◌, inl, inr, ap, ◌∙◌, Bool-cases, List, arith,
  ltb, leb, ◌==◌, if◌then◌else◌, ◌&&◌, get_or, bit_and, bit,
}
use lish.Prelude.Bits.{bit_ext, bit-zero, bit-of_lt}
use lish.Prelude.Bits.Fields.{and-le}
use lish.Prelude.Bits.Lowest.{
  trailing_zeros, bit-trailing_zeros, bit-below_trailing_zeros, bit-clear_lowest,
}
use lish.System.Plic.{Plic, best_loop, best, eligible}

-- No source of the set `elig` below `n` passes the threshold.
abbrev pub NonePasses : ℕ → List ℕ → ℕ → ℕ → Type 0
NonePasses elig priority thr n = (j : ℕ) → j < n → bit j elig ≡ 1 → get_or priority j 0 ≤ thr

-- Among the sources of the set below `n` that pass the threshold, none has a higher priority than
-- `id`, and none of the same priority has a higher number.
abbrev pub IsTop : ℕ → List ℕ → ℕ → ℕ → ℕ → Type 0
IsTop elig priority thr n id =
    ((j : ℕ)
      → j < n
      → bit j elig ≡ 1
      → thr < get_or priority j 0
      → get_or priority j 0 ≤ get_or priority id 0)
    × ((j : ℕ) → j < n → bit j elig ≡ 1 → get_or priority j 0 ≡ get_or priority id 0 → j ≤ id)

-- Source `id` wins among the sources below `n`; 0 stands for none.
abbrev pub Wins : ℕ → List ℕ → ℕ → ℕ → ℕ → Type 0
Wins elig priority thr n id =
    ((id ≡ 0) × NonePasses elig priority thr n)
    ⊎ ((bit id elig ≡ 1) × (thr < get_or priority id 0) × IsTop elig priority thr n id)

-- The best source of the loop before source `n` is looked at.
abbrev Leads : ℕ → List ℕ → ℕ → ℕ → ℕ → ℕ → Type 0
Leads elig priority thr n id pri =
    ((id ≡ 0) × (pri ≡ 0) × NonePasses elig priority thr n)
    ⊎ ((id < n)
        × (bit id elig ≡ 1)
        × (thr < get_or priority id 0)
        × (pri ≡ get_or priority id 0)
        × IsTop elig priority thr n id)

record Loop (elig : ℕ) (priority : List ℕ) (thr n m id pri : ℕ) : Type 0 where
  left : (j : ℕ) → bit j m ≡ (if ltb j n then 0 else bit j elig)
  state : Leads elig priority thr n id pri

module _ (elig : ℕ) (priority : List ℕ) (thr : ℕ) where
  -- The sources between the last one looked at and the lowest one left are not in the set.
  skipped :
      (n m id pri j : ℕ)
      → Loop elig priority thr n m id pri
      → n ≤ j
      → j < trailing_zeros 32 m
      → bit j elig ≡ 0
  skipped n m id pri j v le lt = ground (arith, v.left j, bit-below_trailing_zeros 32 m j lt)

  next_left :
      (n m id pri : ℕ)
      → Loop elig priority thr n m id pri
      → 0 < m
      → m < 2 ^ 32
      → (j : ℕ)
      → bit j (bit_and m (m - 1)) ≡ (if ltb j (trailing_zeros 32 m + 1) then 0 else bit j elig)
  next_left n m id pri v pos lt j = ground (
    arith,
    v.left j,
    bit-clear_lowest 32 m j pos lt,
    bit-below_trailing_zeros 32 m j,
    v.left (trailing_zeros 32 m),
    bit-trailing_zeros 32 m pos lt,
  )

  -- So a source of the set below the next number was seen before, or is the lowest one left.
  seen :
      (n m id pri j : ℕ)
      → Loop elig priority thr n m id pri
      → j < trailing_zeros 32 m + 1
      → bit j elig ≡ 1
      → (j < n) ⊎ (j ≡ trailing_zeros 32 m)
  seen n m id pri j v lt e = ground (arith, skipped n m id pri j v)

  -- One round that takes the source, and one that passes it over.
  take_source :
      (n m id pri : ℕ)
      → Loop elig priority thr n m id pri
      → 0 < m
      → m < 2 ^ 32
      → let i = trailing_zeros 32 m in
        thr < get_or priority i 0
        → pri ≤ get_or priority i 0
        → Loop elig priority thr (i + 1) (bit_and m (m - 1)) i (get_or priority i 0)
  take_source n m id pri v pos lt over best_yet = record {
    left = next_left n m id pri v pos lt;
    state = inr (
      omega arith,
      ground (arith, v.left (trailing_zeros 32 m), bit-trailing_zeros 32 m pos lt),
      over,
      refl,
      (highest v.state, λ j h e eq. omega arith),
    );
  }
    where
      highest :
          Leads elig priority thr n id pri
          → (j : ℕ) → j < trailing_zeros 32 m + 1
          → bit j elig ≡ 1
          → thr < get_or priority j 0
          → get_or priority j 0 ≤ get_or priority (trailing_zeros 32 m) 0
      highest (inl (_, _, low)) j h e p = ground (arith, seen n m id pri j v h e, low j)
      highest (inr (_, _, _, eq, (top, _))) j h e p = ground (arith, seen n m id pri j v h e, top j)

  pass_source :
      (n m id pri : ℕ)
      → Loop elig priority thr n m id pri
      → 0 < m
      → m < 2 ^ 32
      → let i = trailing_zeros 32 m in
        (get_or priority i 0 ≤ thr) ⊎ (get_or priority i 0 < pri)
        → Loop elig priority thr (i + 1) (bit_and m (m - 1)) id pri
  pass_source n m id pri v pos lt worse = record {
    left = next_left n m id pri v pos lt;
    state = elim v.state [
      | inl (a, b, low) ↦ inl (a, b, λ j h e. ground (arith, seen n m id pri j v h e, low j))
      | inr (a, b, c, d, (top, tie)) ↦
          let here : id < trailing_zeros 32 m + 1 =
            ground (arith, v.left (trailing_zeros 32 m), bit-trailing_zeros 32 m pos lt) in
          inr (
            here,
            b,
            c,
            d,
            (
              λ j h e p. ground (arith, seen n m id pri j v h e, top j),
              λ j h e p. ground (arith, seen n m id pri j v h e, tie j),
            ),
          )
    ];
  }

  -- When nothing is left, the loop's source has won among all 32.
  finish :
      (n m id pri : ℕ) → Loop elig priority thr n m id pri → m ≡ 0 → Wins elig priority thr 32 id
  finish n m id pri v z = settle v.state
    where
      gone : (j : ℕ) → bit j m ≡ 0
      gone j = ap (bit j) z ∙ bit-zero j

      settle : Leads elig priority thr n id pri → Wins elig priority thr 32 id
      settle (inl (a, b, low)) = inl (a, λ j h e. ground (arith, v.left j, gone j, low j))
      settle (inr (a, b, c, d, (top, tie))) = inr (
        b,
        c,
        (
          λ j h e p. ground (arith, v.left j, gone j, top j),
          λ j h e p. ground (arith, v.left j, gone j, tie j),
        ),
      )

  exhausted : (n m id pri : ℕ) → Loop elig priority thr n m id pri → elig < 2 ^ 32 → 32 ≤ n → m ≡ 0
  exhausted n m id pri v small le =
      bit_ext m 0 λ j. ground (arith, v.left j, bit-zero j, bit-of_lt 32 j elig small)

  -- 32 rounds are enough: each looks at a source with a higher number.
  best_loop-Wins :
      (fuel n m id pri : ℕ)
      → Loop elig priority thr n m id pri
      → elig < 2 ^ 32
      → m < 2 ^ 32
      → 32 ≤ fuel + n
      → Wins elig priority thr 32 (best_loop fuel priority thr m id pri)
  unfolding best_loop
  best_loop-Wins zero n m id pri v small lt enough =
      finish n m id pri v (exhausted n m id pri v small (omega arith))
  best_loop-Wins (suc fuel) n m id pri v small lt enough = elim (Bool-cases (m == 0)) [
    | inl z ↦ rw z (finish n m id pri v (ground arith))
    | inr nz ↦
        let i = trailing_zeros 32 m in
        let pos : 0 < m = ground arith in
        let above : n ≤ i = ground (arith, v.left i, bit-trailing_zeros 32 m pos lt) in
        let smaller : bit_and m (m - 1) < 2 ^ 32 = omega (arith, and-le m (m - 1)) in
        elim (Bool-cases (ltb thr (get_or priority i 0) && leb pri (get_or priority i 0))) [
          | inl hit ↦
              rw (nz, hit)
                (best_loop-Wins fuel (i + 1) (bit_and m (m - 1)) i (get_or priority i 0)
                  (take_source n m id pri v pos lt (ground arith) (ground arith)) small smaller
                  (omega arith))
          | inr miss ↦
              rw (nz, miss)
                (best_loop-Wins fuel (i + 1) (bit_and m (m - 1)) id pri
                  (pass_source n m id pri v pos lt (ground arith)) small smaller (omega arith))
        ]
  ]

-- Where the eligible set fits 32 bits, `best` returns an eligible source above the threshold of
-- the context, of the highest priority among these, and of the highest number among those of that
-- priority; it returns 0 if there is none.
pub best-Wins :
    (p : Plic) (ctx : ℕ)
    → eligible p ctx < 2 ^ 32
    → Wins (eligible p ctx) p.priority (get_or p.threshold ctx 0) 32 (best p ctx)
unfolding best
best-Wins p ctx small =
    best_loop-Wins (eligible p ctx) p.priority (get_or p.threshold ctx 0) 32 0 (eligible p ctx) 0 0
      (record { left = λ j. ground arith; state = inl (refl, refl, λ j h e. absurd (omega arith)) })
      small small (omega arith)
