-- ===== src/Session/Ids/Invariant.antt =====
-- What ties the books of the event loop to the identifiers in use, and how each call keeps it.
use bdtrace.Common.{
  ℕ, ◌≤◌, ◌<◌, ◌≡◌, ◌≢◌, refl, ◌==◌, inl, inr, true, false, List, [], nat_ord, text_ord, pair_ord,
  arith, ==_iff, Bool-cases,
}
use bdtrace.Common.Sets.{member, insert, remove, member-insert, member-remove}
use bdtrace.Common.Maps.{find, erase}
use bdtrace.Session.{Session, new_session, pid_gen_stride, current_synth, register}
use bdtrace.Session.Ids.{
  known, generation, ident, ident_inj, current_synth-ident, known-register, generation-register,
  expect-register,
}

pub record Inv (s : Session) (rows : List ℕ) : Type 0 where
  pub small : (p : ℕ) → known s p ≡ true → (p < pid_gen_stride) × (generation s p ≤ 213)
  pub owned :
      (i : ℕ)
      → member i rows ≡ true
      → (g : ℕ) × (p : ℕ) × (i ≡ ident g p) × (known s p ≡ true) × (g ≤ generation s p)
  pub held : (p : ℕ) → member p s.expect_reinsert ≡ true → known s p ≡ true
  pub free :
      (p : ℕ) → member p s.expect_reinsert ≡ true → member (ident (generation s p) p) rows ≡ false

pub new_session-Inv : Inv new_session []
unfolding member find known
new_session-Inv = record {
  small = λ p h. absurd (cc);
  owned = λ i h. absurd (cc);
  held = λ p h. absurd (cc);
  free = λ p h. refl;
}

-- An identifier is not in use if its generation is later than what the books know.
unused :
    (s : Session) (rows : List ℕ) (g p : ℕ)
    → Inv s rows
    → g ≤ 213
    → p < pid_gen_stride
    → (known s p ≡ true → generation s p < g)
    → member (ident g p) rows ≡ false
unused s rows g p h bg bp later = elim (Bool-cases (member (ident g p) rows)) [
  | inr free ↦ free
  | inl used ↦ let (g', p', e, k, le) = h.owned (ident g p) used in absurd (clash g' p' e k le)
]
  where
    clash : (g' p' : ℕ) → ident g p ≡ ident g' p' → known s p' ≡ true → g' ≤ generation s p' → ⊥
    clash g' p' e k le =
        let (bp', bg') = h.small p' k in
        let (eg, ep) = ident_inj g g' p p' bg (omega arith) bp bp' e in
        ground (arith, later (rw ep k))

module _ (s : Session) (rows : List ℕ) (p : ℕ) (h : Inv s rows) where
  module _ (small_p : p < pid_gen_stride) (room : generation s p < 213) where
    now : ℕ
    now = generation (register p s) p

    now-le : now ≤ 213
    unfolding now
    now-le = ground (arith, generation-register s p p)

    register-unused : member (ident now p) rows ≡ false
    unfolding now
    register-unused = elim (Bool-cases (member p s.expect_reinsert)) [
      | inl again ↦ rw (same again) (h.free p again)
      | inr new ↦ unused s rows now p h now-le small_p (λ k. later new k)
    ]
      where
        same : member p s.expect_reinsert ≡ true → now ≡ generation s p
        same again = ground (arith, generation-register s p p)

        later : member p s.expect_reinsert ≡ false → known s p ≡ true → generation s p < now
        later new k = ground (arith, generation-register s p p)

    pub register-fresh : member (current_synth (register p s) p) rows ≡ false
    unfolding now
    register-fresh = rw (current_synth-ident (register p s) p) register-unused

    register-owned :
        (i : ℕ)
        → member i (insert (ident now p) rows) ≡ true
        → (g : ℕ) × (q : ℕ) × (i ≡ ident g q)
          × (known (register p s) q ≡ true)
          × (g ≤ generation (register p s) q)
    unfolding now
    register-owned i m = elim (Bool-cases (i == ident now p)) [
      | inl e ↦
          (now, p, (==_iff i (ident now p)).0 e, ground (arith, known-register s p p), omega arith)
      | inr e ↦
          let (g, q, eq, k, le) = h.owned i (ground (arith, member-insert i (ident now p) rows)) in
          (
            g,
            q,
            eq,
            ground (arith, known-register s p q),
            ground (arith, generation-register s p q),
          )
    ]

    register-free :
        (q : ℕ)
        → member q (register p s).expect_reinsert ≡ true
        → member (ident (generation (register p s) q) q) (insert (ident now p) rows) ≡ false
    unfolding now
    register-free q m =
        let waits : member q s.expect_reinsert ≡ true = ground (arith, expect-register s p q) in
        let k = h.held q waits in
        let other : q ≢ p = λ e. ground (arith, expect-register s p q, ==_iff q p, k) in
        let same : generation (register p s) q ≡ generation s q =
          ground (arith, generation-register s p q) in
        let (bq, bg) = h.small q k in
        let apart : ident (generation s q) q ≢ ident now p =
          λ e. other (ident_inj (generation s q) now q p bg now-le bq small_p e).1 in
        rw same (
          ground (
            arith,
            member-insert (ident (generation s q) q) (ident now p) rows,
            h.free q waits,
            apart,
          ))

    pub register-Inv : Inv (register p s) (insert (current_synth (register p s) p) rows)
    unfolding now
    register-Inv = rw (current_synth-ident (register p s) p) (record {
      small = λ q k. (
        ground (arith, known-register s p q, h.small q),
        ground (arith, known-register s p q, h.small q, generation-register s p q),
      );
      owned = register-owned;
      held = λ q m. ground (arith, known-register s p q, expect-register s p q, h.held q);
      free = register-free;
    })

  pub delete-Inv :
      known s p ≡ true
      → Inv
          (record s { expect_reinsert = insert p s.expect_reinsert })
          (remove (current_synth s p) rows)
  unfolding known generation
  delete-Inv k = record {
    small = h.small;
    owned = λ i m. h.owned i (ground (arith, member-remove i (current_synth s p) rows));
    held = λ q m. ground (arith, member-insert q p s.expect_reinsert, h.held q);
    free = λ q m. ground (
      arith,
      member-insert q p s.expect_reinsert,
      member-remove (ident (generation s q) q) (current_synth s p) rows,
      current_synth-ident s p,
      h.free q,
    );
  }

  pub exit-Inv :
      Inv
        (record s {
          seen = erase p s.seen;
          live_pids = remove p s.live_pids;
          expect_reinsert = remove p s.expect_reinsert;
        })
        rows
  unfolding known generation
  exit-Inv = record {
    small = h.small;
    owned = h.owned;
    held = λ q m. h.held q (ground (arith, member-remove q p s.expect_reinsert));
    free = λ q m. h.free q (ground (arith, member-remove q p s.expect_reinsert));
  }

-- The invariant reads two fields of the books.
pub Inv-same :
    (s t : Session) (rows : List ℕ)
    → t.pid_gen ≡ s.pid_gen
    → t.expect_reinsert ≡ s.expect_reinsert
    → Inv s rows
    → Inv t rows
unfolding known generation
Inv-same s t rows e f h = record {
  small = λ p k. ground (arith, h.small p);
  owned = λ i m. let (g, p, eq, k, le) = h.owned i m in (g, p, eq, ground arith, ground arith);
  held = λ p m. ground (arith, h.held p);
  free = λ p m. ground (arith, h.free p);
}
