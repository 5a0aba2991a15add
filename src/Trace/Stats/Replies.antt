-- ===== src/Trace/Stats/Replies.antt =====
-- What internal/trace/stats.go's counters say of the probes of a hop: a reference account, computed
-- from the whole history, that the running state agrees with.
use Prim.Native.Nat.{max}
use prober.Prelude.{
  ℕ, ◌||◌, ◌+◌, ◌-◌, ◌≡◌, refl, ap, ◌∙◌, List, [], ◌∷◌, arith, length, ◌==◌, if◌then◌else◌, ltb,
  min,
}
use prober.Prelude.Int.{ℤ, pos, ◌+ℤ◌, ◌-ℤ◌, int_laws}
use prober.Prelude.Maps.{◌=?◌}
use prober.Netip.{Addr, addr_eq, addr_beq_iff}
use prober.Trace.Stats.{
  HopStats, HopAddress, new_stats, send_probe, lost, reply, count_address, abs_diff, add_jitter,
  welford,
}

-- What happens to the probes of one hop.
pub data ProbeEvent : Type 0 where
  sends loses : ProbeEvent
  replies : Addr → ℕ → ProbeEvent

pub apply : ProbeEvent → HopStats → HopStats
unfolding send_probe lost reply
apply sends h = send_probe h
apply loses h = lost h
apply (replies a rtt) h = reply a rtt h

-- The newest event first.
pub replay : List ProbeEvent → HopStats
unfolding apply new_stats
replay [] = new_stats
replay (e ∷ es) = apply e (replay es)

abbrev pub sends_of : List ProbeEvent → ℕ
sends_of [] = 0
sends_of (sends ∷ es) = sends_of es + 1
sends_of (loses ∷ es) = sends_of es
sends_of (replies a r ∷ es) = sends_of es

abbrev pub losses_of : List ProbeEvent → ℕ
losses_of [] = 0
losses_of (sends ∷ es) = losses_of es
losses_of (loses ∷ es) = losses_of es + 1
losses_of (replies a r ∷ es) = losses_of es

abbrev pub rtts_of : List ProbeEvent → List ℕ
rtts_of [] = []
rtts_of (sends ∷ es) = rtts_of es
rtts_of (loses ∷ es) = rtts_of es
rtts_of (replies a r ∷ es) = r ∷ rtts_of es

abbrev pub replies_from : Addr → List ProbeEvent → ℕ
replies_from b [] = 0
replies_from b (sends ∷ es) = replies_from b es
replies_from b (loses ∷ es) = replies_from b es
replies_from b (replies a r ∷ es) = let n = replies_from b es in if a =? b then n + 1 else n

abbrev pub minimum : List ℕ → ℕ
minimum [] = 0
minimum (x ∷ []) = x
minimum (x ∷ y ∷ xs) = min x (minimum (y ∷ xs))

abbrev pub maximum : List ℕ → ℕ
maximum [] = 0
maximum (x ∷ xs) = max x (maximum xs)

abbrev pub newest : List ℕ → ℕ
newest [] = 0
newest (x ∷ xs) = x

-- The sum of the differences between neighbours.
abbrev pub variation : List ℕ → ℕ
variation [] = 0
variation (x ∷ []) = 0
variation (x ∷ y ∷ xs) = variation (y ∷ xs) + abs_diff x y

pub tally : Addr → List HopAddress → ℕ
tally b [] = 0
tally b (x ∷ xs) = if x.addr =? b then x.count else tally b xs

pub record IsSummary (es : List ProbeEvent) (h : HopStats) : Type 0 where
  pub sent_all : h.sent ≡ sends_of es
  pub received_all : h.received ≡ length (rtts_of es)
  pub unsettled : h.in_flight ≡ pos (sends_of es) -ℤ pos (losses_of es + length (rtts_of es))
  pub last_newest : h.last ≡ newest (rtts_of es)
  pub prev_newest : h.prev ≡ newest (rtts_of es)
  pub best_minimum : h.best ≡ minimum (rtts_of es)
  pub worst_maximum : h.worst ≡ maximum (rtts_of es)
  pub jitter_variation : h.jitter_sum ≡ variation (rtts_of es)
  pub jitter_pairs : h.jitter_n ≡ length (rtts_of es) - 1

tally-count_address :
    (a b : Addr) (xs : List HopAddress)
    → tally b (count_address a xs) ≡ (if a =? b then tally b xs + 1 else tally b xs)
unfolding tally count_address
tally-count_address a b [] = ground arith
tally-count_address a b (x ∷ xs) = ground (
  arith,
  addr_beq_iff x.addr a,
  addr_beq_iff x.addr b,
  addr_beq_iff a b,
  tally-count_address a b xs,
)

one_more : (a b : ℕ) → pos a -ℤ pos b +ℤ pos 1 ≡ pos (a + 1) -ℤ pos b
one_more a b = omega int_laws

one_less : (a b c : ℕ) → b + 1 ≡ c → pos a -ℤ pos b -ℤ pos 1 ≡ pos a -ℤ pos c
one_less a b c e = omega int_laws

best_step :
    (r : ℕ) (rs : List ℕ) (n b : ℕ)
    → n ≡ length rs
    → b ≡ minimum rs
    → (if (n + 1 == 1) || ltb r b then r else b) ≡ minimum (r ∷ rs)
best_step r [] n b p q = ground arith
best_step r (y ∷ ys) n b p q = ground (arith, q)

jitter_step :
    (r : ℕ) (rs : List ℕ) (h : HopStats)
    → h.received ≡ length (r ∷ rs)
    → h.prev ≡ newest rs
    → h.jitter_sum ≡ variation rs
    → h.jitter_n ≡ length rs - 1
    → ((add_jitter r h).jitter_sum ≡ variation (r ∷ rs))
      × ((add_jitter r h).jitter_n ≡ length (r ∷ rs) - 1)
unfolding add_jitter
jitter_step r [] h a b c d = ground arith
jitter_step r (y ∷ ys) h a b c d = ground arith

apply-IsSummary :
    (e : ProbeEvent) (es : List ProbeEvent) (h : HopStats)
    → IsSummary es h
    → IsSummary (e ∷ es) (apply e h)
unfolding apply add_jitter welford
apply-IsSummary sends es h v = record {
  sent_all = omega (arith, v.sent_all);
  received_all = v.received_all;
  unsettled = ap (λ (z : ℤ). z +ℤ pos 1) v.unsettled ∙ one_more _ _;
  last_newest = v.last_newest;
  prev_newest = v.prev_newest;
  best_minimum = v.best_minimum;
  worst_maximum = v.worst_maximum;
  jitter_variation = v.jitter_variation;
  jitter_pairs = v.jitter_pairs;
}
apply-IsSummary loses es h v = record {
  sent_all = v.sent_all;
  received_all = v.received_all;
  unsettled = ap (λ (z : ℤ). z -ℤ pos 1) v.unsettled ∙ one_less _ _ _ (omega arith);
  last_newest = v.last_newest;
  prev_newest = v.prev_newest;
  best_minimum = v.best_minimum;
  worst_maximum = v.worst_maximum;
  jitter_variation = v.jitter_variation;
  jitter_pairs = v.jitter_pairs;
}
apply-IsSummary (replies a r) es h v =
    let j =
      jitter_step r (rtts_of es) (welford h2.received r h2) (omega (arith, v.received_all))
        v.prev_newest v.jitter_variation v.jitter_pairs in
    record {
      sent_all = v.sent_all;
      received_all = omega (arith, v.received_all);
      unsettled = ap (λ (z : ℤ). z -ℤ pos 1) v.unsettled ∙ one_less _ _ _ (omega arith);
      last_newest = refl;
      prev_newest = refl;
      best_minimum = best_step r (rtts_of es) h.received h.best v.received_all v.best_minimum;
      worst_maximum = ground (arith, v.worst_maximum);
      jitter_variation = j.0;
      jitter_pairs = j.1;
    }
  where
    h1 : HopStats
    h1 = record h { in_flight = h.in_flight -ℤ pos 1; received = h.received + 1; last = r }

    h2 : HopStats
    h2 = record h1 {
      best = if h1.received == 1 || ltb r h1.best then r else h1.best;
      worst = if ltb h1.worst r then r else h1.worst;
    }

new_stats-IsSummary : IsSummary [] new_stats
unfolding new_stats
new_stats-IsSummary = record {
  sent_all = refl;
  received_all = refl;
  unsettled = omega int_laws;
  last_newest = refl;
  prev_newest = refl;
  best_minimum = refl;
  worst_maximum = refl;
  jitter_variation = refl;
  jitter_pairs = refl;
}

-- After any history of sends, losses and replies the running state is the account of that history:
-- probes sent, replies received, probes in flight, the last, best and worst round-trip time, the sum
-- of the differences between consecutive ones and their number.
pub replay-IsSummary : (es : List ProbeEvent) → IsSummary es (replay es)
unfolding replay
replay-IsSummary [] = new_stats-IsSummary
replay-IsSummary (e ∷ es) = apply-IsSummary e es (replay es) (replay-IsSummary es)

tally-apply :
    (b : Addr) (e : ProbeEvent) (es : List ProbeEvent) (h : HopStats)
    → tally b h.addrs ≡ replies_from b es
    → tally b (apply e h).addrs ≡ replies_from b (e ∷ es)
unfolding apply add_jitter welford
tally-apply b sends es h v = v
tally-apply b loses es h v = v
tally-apply b (replies a r) es h v = ground (arith, tally-count_address a b h.addrs)

-- After any history the count of an address is the number of replies that came from it.
pub tally-replay : (b : Addr) (es : List ProbeEvent) → tally b (replay es).addrs ≡ replies_from b es
unfolding replay
tally-replay b [] = unfold new_stats tally in refl
tally-replay b (e ∷ es) = tally-apply b e es (replay es) (tally-replay b es)
