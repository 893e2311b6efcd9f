-- ===== src/Token/Rotation/Threshold.antt =====
-- The arithmetic of the refresh threshold.
use managed_serviceaccount.Prelude.{
  ℕ, ◌+◌, ◌*◌, ◌/◌, ◌%◌, ◌-◌, ◌≤◌, ◌<◌, true, ◌≡◌, refl, ◌∙◌, ap, ltb, arith, if◌then◌else◌,
  Bool-cases, inl, inr,
}
use managed_serviceaccount.Prelude.Int.{pos, ◌+ℤ◌, ◌-ℤ◌, half64, int_laws, ltb_ℤ, pos_part}
use managed_serviceaccount.Prelude.Int.{
  saturate64, saturate64_id, wrap64, wrap64_id, scale_pos, quo_pos,
}
use managed_serviceaccount.Prelude.Int.{+ℤ_parts}
use managed_serviceaccount.Gotime.{Time, second, after, sub, add, plus, times, divided}
use managed_serviceaccount.Token.Rotation.{exceed_threshold, check_token_refresh_after}

sub_pos : (t : Time) (n : ℕ) → n < half64 → sub (t +ℤ pos n) t ≡ pos n
unfolding sub
sub_pos t n h =
    let e : (t +ℤ pos n) -ℤ t ≡ pos n = omega int_laws in
    ap saturate64 e ∙ saturate64_id (pos n) (omega arith)

times_pos : (n k : ℕ) → n * k < half64 → times (pos n) k ≡ pos (n * k)
unfolding times
times_pos n k h = ap wrap64 (scale_pos n k) ∙ wrap64_id (pos (n * k)) (omega arith)

divided_pos : (n k : ℕ) → divided (pos n) k ≡ pos (n / k)
unfolding divided
divided_pos n k = quo_pos n k

-- The threshold lies four fifths of the lifetime after the refresh.
threshold_eq :
    (now last : Time) (life : ℕ)
    → life < half64
    → (exceed_threshold now (last +ℤ pos life) last).1 ≡ last +ℤ pos (life / 5 * 4)
unfolding exceed_threshold
threshold_eq now last life h =
    ap (λ d. add last (times (divided d 5) 4)) (sub_pos last life h)
    ∙ ap (λ d. add last (times d 4)) (divided_pos life 5)
    ∙ ap (add last) (times_pos (life / 5) 4 (omega arith))
    ∙ unfold add in refl

exceed_lem :
    (now expiring last : Time)
    → (exceed_threshold now expiring last).0 ≡ after now (exceed_threshold now expiring last).1
unfolding exceed_threshold
exceed_lem now expiring last = refl

exceed_eq :
    (now last : Time) (life : ℕ)
    → life < half64
    → (exceed_threshold now (last +ℤ pos life) last).0 ≡ ltb_ℤ (last +ℤ pos (life / 5 * 4)) now
exceed_eq now last life h =
    exceed_lem now (last +ℤ pos life) last
    ∙ ap (after now) (threshold_eq now last life h)
    ∙ unfold after in refl

-- A token that was refreshed at `last` for a lifetime of `life` nanoseconds, `left` of which are left,
-- is due exactly if `left` is less than a fifth of `life`, rounded down, plus the remainder (at most
-- four nanoseconds) that the rounding takes from the fifths.
pub exceed_threshold-fifth :
    (now last : Time) (life left : ℕ)
    → life < half64
    → now +ℤ pos left ≡ last +ℤ pos life
    → (exceed_threshold now (last +ℤ pos life) last).0 ≡ ltb left (life / 5 + life % 5)
exceed_threshold-fifth now last life left h e =
    exceed_eq now last life h
    ∙ ground (
      arith,
      +ℤ_parts last (pos (life / 5 * 4)),
      +ℤ_parts now (pos left),
      +ℤ_parts last (pos life),
      ap pos_part e,
    )

plus_pos : (n k : ℕ) → n + k < half64 → plus (pos n) (pos k) ≡ pos (n + k)
unfolding plus
plus_pos n k h =
    let e : pos n +ℤ pos k ≡ pos (n + k) = omega int_laws in
    ap wrap64 e ∙ wrap64_id (pos (n + k)) (omega arith)

check_lem :
    (now expiring last : Time)
    → check_token_refresh_after now expiring last ≡ (
        if (exceed_threshold now expiring last).0
        then pos (5 * second)
        else plus (sub (exceed_threshold now expiring last).1 now) (pos (5 * second)))
unfolding check_token_refresh_after
check_lem now expiring last = refl

module _ (last : Time) (life gone : ℕ) (h : life + 5 * second < half64) where
  exceed_gone :
      (exceed_threshold (last +ℤ pos gone) (last +ℤ pos life) last).0 ≡ ltb (life / 5 * 4) gone
  exceed_gone =
      exceed_eq (last +ℤ pos gone) last life (omega arith)
      ∙ ground (arith, +ℤ_parts last (pos (life / 5 * 4)), +ℤ_parts last (pos gone))

  -- the wait where the token is not due
  wait_eq :
      gone ≤ life / 5 * 4
      → plus
          (sub (exceed_threshold (last +ℤ pos gone) (last +ℤ pos life) last).1 (last +ℤ pos gone))
          (pos (5 * second))
        ≡ pos (life / 5 * 4 - gone + 5 * second)
  wait_eq le =
      let e : last +ℤ pos (life / 5 * 4) ≡ (last +ℤ pos gone) +ℤ pos (life / 5 * 4 - gone) =
        omega int_laws in
      ap (λ t. plus (sub t (last +ℤ pos gone)) (pos (5 * second)))
        (threshold_eq (last +ℤ pos gone) last life (omega arith) ∙ e)
      ∙ ap (λ d. plus d (pos (5 * second)))
          (sub_pos (last +ℤ pos gone) (life / 5 * 4 - gone) (omega arith))
      ∙ plus_pos (life / 5 * 4 - gone) (5 * second) (omega arith)

  requeue_eq :
      check_token_refresh_after (last +ℤ pos gone) (last +ℤ pos life) last
      ≡ pos (life / 5 * 4 - gone + 5 * second)
  requeue_eq = elim (Bool-cases (ltb (life / 5 * 4) gone)) [
    | inl due ↦ rw (check_lem, exceed_gone, due) (ground arith)
    | inr early ↦ rw (check_lem, exceed_gone, early) (wait_eq (ground arith))
  ]

  -- `gone` nanoseconds after a refresh for a lifetime of `life`, the wait until the next check is the
  -- time up to the refresh threshold (none, once it is passed) and five seconds more, and when that
  -- wait is over the token is due. The lifetime and five seconds fit in a signed 64-bit word.
  pub check_token_refresh_after-due :
      (check_token_refresh_after (last +ℤ pos gone) (last +ℤ pos life) last
        ≡ pos (life / 5 * 4 - gone + 5 * second))
      × ((exceed_threshold
            (add
              (last +ℤ pos gone)
              (check_token_refresh_after (last +ℤ pos gone) (last +ℤ pos life) last))
            (last +ℤ pos life)
            last).0
          ≡ true)
  check_token_refresh_after-due =
      let w = life / 5 * 4 - gone + 5 * second in
      (
        requeue_eq,
        rw requeue_eq (
            exceed_eq (add (last +ℤ pos gone) (pos w)) last life (omega arith)
            ∙ unfold add in
              ground (
                arith,
                +ℤ_parts last (pos (life / 5 * 4)),
                +ℤ_parts last (pos gone),
                +ℤ_parts (last +ℤ pos gone) (pos w),
              )),
      )
