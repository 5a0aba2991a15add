-- ===== src/Backend/Sink/Windows.antt =====
-- How long internal/backend/monitorsink.go counts on what a site last reported.
use prober.Prelude.{ℕ, ◌*◌, ◌≡◌, ◌<◌, ap, ◌∙◌, ltb, if◌then◌else◌, arith}
use prober.Prelude.Int.{ℤ, pos}
use prober.Backend.Sink.State.{
  second, signed64, stale_after, double64, forget_after, forget_after_for, max_ℤ,
}

signed64_small : (n : ℕ) → n < 9223372036854775808 → signed64 n ≡ pos n
unfolding signed64
signed64_small n h = ground (arith, h)

max_pos : (a b : ℕ) → max_ℤ (pos a) (pos b) ≡ pos (if ltb a b then b else a)
max_pos a b = ground arith

abbrev stale_s : ℕ → ℕ
stale_s i = if ltb (3 * i) 60 then 60 else 3 * i

stale_after-exact : (i : ℕ) → i < 1537228673 → stale_after i ≡ pos (stale_s i * second)
unfolding stale_after
stale_after-exact i h =
    ap (λ (z : ℤ). max_ℤ z (pos (60 * second))) (signed64_small (3 * i * second) (omega (arith, h)))
    ∙ (max_pos (3 * i * second) (60 * second) ∙ ap pos (ground (arith, h)))

double_stale : (i : ℕ) → i < 1537228673 → double64 (stale_after i) ≡ pos (2 * (stale_s i * second))
unfolding double64
double_stale i h =
    ap double64 (stale_after-exact i h)
    ∙ signed64_small (2 * (stale_s i * second)) (ground (arith, h))

-- For an interval of less than 1,537,228,673 seconds the products stay within an int64: a site is stale
-- after three intervals, or a minute if that is longer, and forgotten after six intervals, or an hour.
pub forget_after_for-stale_after :
    (i : ℕ)
    → i < 1537228673
    → (stale_after i ≡ pos ((if ltb (3 * i) 60 then 60 else 3 * i) * second))
      × (forget_after_for i ≡ pos ((if ltb 3600 (6 * i) then 6 * i else 3600) * second))
unfolding forget_after_for
forget_after_for-stale_after i h = (
  stale_after-exact i h,
  ap (λ (z : ℤ). max_ℤ forget_after z) (double_stale i h)
      ∙ (max_pos (3600 * second) (2 * (stale_s i * second)) ∙ ap pos (ground (arith, h))),
)
