-- ===== src/Ephemeral/Wait.antt =====
-- The wait that a run asks for, without overflow.
use managed_serviceaccount.Prelude.{ℕ, suc, ◌≤◌, ◌<◌, ◌+◌, ◌^◌, ◌*◌, true, ◌≡◌, arith}
use managed_serviceaccount.Prelude.Int.{
  ℤ, pos, ltb_ℤ, negsuc, sub_ℕ, Fits64, pos_part, eq_of_parts, neg_part, scale, ◌+ℤ◌, ◌-ℤ◌, ◌≤ℤ◌,
  saturate64, saturate64_id, -ℤ_parts, +ℤ_parts,
}
use managed_serviceaccount.Gotime.{Time, Duration, second}
use managed_serviceaccount.Ephemeral.Expiry.{Fits32, saturate64_nonneg}

life :
    (created : Time) (ttl : ℤ)
    → Fits32 ttl
    → pos_part (created +ℤ scale ttl second) + neg_part created
      ≤ pos_part created + neg_part (created +ℤ scale ttl second) + 2 ^ 31 * second
unfolding scale
life created (pos n) h = ground (arith, +ℤ_parts created (sub_ℕ (n * second) 0), h)
life created (negsuc n) h = ground (arith, +ℤ_parts created (sub_ℕ 0 (suc n * second)), h)

pub saturated_nonneg :
    (due now : Time) (d : Duration) → d ≡ saturate64 (due -ℤ now) → now ≤ℤ due → pos 0 ≤ℤ d
saturated_nonneg due now d e early =
    rw e (ground (arith, saturate64_nonneg (due -ℤ now) (ground (arith, -ℤ_parts due now, early))))

pub positive : (n : ℕ) → 0 < n → ltb_ℤ (pos 0) (pos n) ≡ true
positive n h = ground (arith, h)

difference_fits :
    (due now : Time)
    → now ≤ℤ due
    → pos_part due + neg_part now ≤ pos_part now + neg_part due + 2 ^ 31 * second
    → Fits64 (due -ℤ now)
unfolding ◌-ℤ◌
difference_fits due now early short = ground (arith, early, short)

-- The wait that a run asks for ends when the deletion is due.
pub wait_over :
    (due now start created : Time) (ttl : ℤ)
    → due ≡ created +ℤ scale ttl second
    → Fits32 ttl
    → created ≤ℤ start
    → start ≤ℤ now
    → now ≤ℤ due
    → now +ℤ saturate64 (due -ℤ now) ≡ due
wait_over due now start created ttl e fits born clock early =
    let short : pos_part due + neg_part created
        ≤ pos_part created + neg_part due + 2 ^ 31 * second =
      rw e (life created ttl fits) in
    rw
      (saturate64_id (due -ℤ now)
        (difference_fits due now early (omega (arith, short, born, clock))))
      (eq_of_parts _ _ (omega (arith, +ℤ_parts now (due -ℤ now), -ℤ_parts due now)))
