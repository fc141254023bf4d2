-- ===== src/Wal/Acked.antt =====
-- The set of acknowledged numbers, and how far `ack` moves the checkpoint.
use alertsnitch.Base.{
  ℕ, zero, suc, ◌+◌, ◌≤◌, ◌<◌, ◌≡◌, refl, inl, inr, Bool, true, false, not, ◌&&◌, ◌||◌, List, [],
  ◌∷◌, arith, inc_u64, u64_mod, ltb, ◌==◌, if◌then◌else◌, length, Bool-cases,
}
use alertsnitch.Wal.Checkpoint.{is_acked, delete, set_acked, mark, advance}

pub is_acked-delete :
    (s t : ℕ) (acked : List ℕ) → is_acked (delete s acked) t ≡ (not (s == t) && is_acked acked t)
unfolding is_acked delete
is_acked-delete s t [] = ground arith
is_acked-delete s t (x ∷ xs) = ground (arith, is_acked-delete s t xs)

is_acked-set_acked :
    (s t : ℕ) (acked : List ℕ) → is_acked (set_acked s acked) t ≡ (s == t || is_acked acked t)
unfolding is_acked set_acked
is_acked-set_acked s t acked = elim (Bool-cases (is_acked acked s)) [
  | inl h ↦ rw h (ground arith)
  | inr h ↦ rw h
]

-- `mark` adds the given numbers past the checkpoint.
pub is_acked-mark :
    (checkpoint t : ℕ) (seqs acked : List ℕ)
    → is_acked (mark checkpoint seqs acked) t
      ≡ (is_acked acked t || (ltb checkpoint t && is_acked seqs t))
unfolding mark is_acked
is_acked-mark k t [] acked = ground arith
is_acked-mark k t (s ∷ seqs) acked = ground (
  arith,
  is_acked-mark k t seqs (if ltb k s then set_acked s acked else acked),
  is_acked-set_acked s t acked,
)

length-delete_le : (s : ℕ) (acked : List ℕ) → length (delete s acked) ≤ length acked
unfolding delete
length-delete_le s [] = omega arith
length-delete_le s (x ∷ xs) = ground (arith, length-delete_le s xs)

length-delete_lt :
    (s : ℕ) (acked : List ℕ) → is_acked acked s ≡ true → length (delete s acked) < length acked
unfolding delete is_acked
length-delete_lt s [] h = absurd (ground arith)
length-delete_lt s (x ∷ xs) h = ground (arith, length-delete_le s xs, length-delete_lt s xs)

-- What `advance` reaches from a checkpoint and the numbers acknowledged past it.
pub record Advances (checkpoint : ℕ) (acked : List ℕ) (checkpoint' : ℕ) (acked' : List ℕ)
    : Type 0 where
  pub grows : checkpoint ≤ checkpoint'
  pub below : checkpoint' < u64_mod
  pub passed : (s : ℕ) → checkpoint < s → s ≤ checkpoint' → is_acked acked s ≡ true
  pub kept : (s : ℕ) → is_acked acked' s ≡ (ltb checkpoint' s && is_acked acked s)
  pub stopped : is_acked acked' (inc_u64 checkpoint') ≡ false

-- The loop at rest: nothing to pass.
Advances-rest :
    (k : ℕ) (acked : List ℕ)
    → k < u64_mod
    → ((s : ℕ) → is_acked acked s ≡ true → k < s)
    → is_acked acked (inc_u64 k) ≡ false
    → Advances k acked k acked
Advances-rest k acked b above h = record {
  grows = omega arith;
  below = b;
  passed = λ s lo hi. absurd (omega arith);
  kept = λ s. elim (Bool-cases (is_acked acked s)) [
    | inl e ↦ ground (arith, above s e)
    | inr e ↦ ground arith
  ];
  stopped = h;
}

-- One round of the loop, before the rounds that follow it.
Advances-round :
    (k k' : ℕ) (acked acked' : List ℕ)
    → inc_u64 k ≡ k + 1
    → is_acked acked (k + 1) ≡ true
    → Advances (k + 1) (delete (k + 1) acked) k' acked'
    → Advances k acked k' acked'
Advances-round k k' acked acked' e h a = record {
  grows = omega (arith, a.grows);
  below = a.below;
  passed = λ s lo hi. elim (Bool-cases (k + 1 == s)) [
    | inl q ↦ ground (arith, h)
    | inr q ↦ ground (arith, a.passed s, is_acked-delete (k + 1) s acked)
  ];
  kept = λ s. ground (arith, a.grows, a.kept s, is_acked-delete (k + 1) s acked);
  stopped = a.stopped;
}

-- With as much fuel as numbers, `advance` moves the checkpoint over the unbroken run of
-- acknowledged numbers behind it, removes exactly these, and stops at the first gap.
pub Advances-advance :
    (fuel : ℕ) (advanced : Bool) (k : ℕ) (acked : List ℕ)
    → length acked ≤ fuel
    → k < u64_mod
    → ((s : ℕ) → is_acked acked s ≡ true → k < s)
    → Advances k acked (advance fuel advanced k acked).0 (advance fuel advanced k acked).1
unfolding advance
Advances-advance zero advanced k [] h b above = Advances-rest k [] b above (unfold is_acked in refl)
Advances-advance zero advanced k (x ∷ xs) h b above = elim h [ ]
Advances-advance (suc fuel) advanced k acked h b above =
    elim (Bool-cases (is_acked acked (inc_u64 k))) [
      | inr stop ↦ rw stop (Advances-rest k acked b above stop)
      | inl more ↦
          let above' : k < inc_u64 k = above (inc_u64 k) more in
          let e : inc_u64 k ≡ k + 1 = omega arith in
          rw more (
            rw e (
              Advances-round k _ acked _ e (rw e at more) (
                Advances-advance fuel true (k + 1) (delete (k + 1) acked)
                  (omega (arith, length-delete_lt (k + 1) acked (rw e at more))) (omega arith)
                  (λ s t. ground (arith, above s, is_acked-delete (k + 1) s acked)))))
    ]

-- The flag of `advance` says whether the checkpoint moved.
pub advance-flag :
    (fuel : ℕ) (advanced : Bool) (k : ℕ) (acked : List ℕ)
    → length acked ≤ fuel
    → k < u64_mod
    → ((s : ℕ) → is_acked acked s ≡ true → k < s)
    → (advance fuel advanced k acked).2 ≡ (advanced || ltb k (advance fuel advanced k acked).0)
unfolding advance
advance-flag zero advanced k acked h b above = ground arith
advance-flag (suc fuel) advanced k acked h b above =
    elim (Bool-cases (is_acked acked (inc_u64 k))) [
      | inr stop ↦ rw stop (ground arith)
      | inl more ↦
          let above' : k < inc_u64 k = above (inc_u64 k) more in
          let e : inc_u64 k ≡ k + 1 = omega arith in
          let fits : length (delete (k + 1) acked) ≤ fuel =
            omega (arith, length-delete_lt (k + 1) acked (rw e at more)) in
          let above'' : (s : ℕ) → is_acked (delete (k + 1) acked) s ≡ true → k + 1 < s =
            λ s t. ground (arith, above s, is_acked-delete (k + 1) s acked) in
          rw more (
            rw e (
              ground (
                arith,
                advance-flag fuel true (k + 1) (delete (k + 1) acked) fits (omega arith) above'',
                (Advances-advance fuel true (k + 1) (delete (k + 1) acked) fits (omega arith)
                    above'').grows,
              )))
    ]
