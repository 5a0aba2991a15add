-- ===== src/Trace/Stats.antt =====
-- internal/trace/stats.go: the running state of one TTL, and internal/trace/event.go's `Hop` and
-- `HopAddress`, which show it. A round-trip time is a number of nanoseconds: the session sets a
-- negative one to 0 before it gets here. `in_flight` counts down and is an integer; the counters that
-- only grow are numbers without their `int` bound, which no run reaches.
-- A float is kept as the expression that computes it; rounding is left to who evaluates it.
pub mod Replies
use prober.Prelude.{
  ℕ, ◌+◌, ◌-◌, ◌*◌, ◌/◌, Bool, ◌||◌, String, List, [], ◌∷◌, Option, none, some, ◌==◌, if◌then◌else◌,
  ltb, map,
}
use prober.Prelude.Int.{ℤ, pos, leb_ℤ, ◌+ℤ◌, ◌-ℤ◌}
use prober.Prelude.Maps.{◌=?◌}
use prober.Netip.{Addr, addr_eq}
use prober.Trace.Spec.{second}

pub data Float64 : Type 0 where
  of_int : ℤ → Float64
  seconds : ℕ → Float64
  add sub mul div : Float64 → Float64 → Float64
  sqrt : Float64 → Float64

pub record HopAddress : Type 0 where
  pub addr : Addr
  pub name : String
  pub count : ℕ

pub record HopStats : Type 0 where
  pub sent : ℕ
  pub received : ℕ
  pub in_flight : ℤ
  pub last : ℕ
  pub best : ℕ
  pub worst : ℕ
  pub mean : Float64
  pub m2 : Float64
  pub prev : ℕ
  pub jitter_sum : ℕ
  pub jitter_n : ℕ
  pub addrs : List HopAddress

-- `&hopStats{}`
unfoldable pub new_stats : HopStats
new_stats = record {
  sent = 0;
  received = 0;
  in_flight = pos 0;
  last = 0;
  best = 0;
  worst = 0;
  mean = of_int (pos 0);
  m2 = of_int (pos 0);
  prev = 0;
  jitter_sum = 0;
  jitter_n = 0;
  addrs = [];
}

unfoldable pub send_probe : HopStats → HopStats
send_probe h = record h { sent = h.sent + 1; in_flight = h.in_flight +ℤ pos 1 }

-- A probe that timed out.
unfoldable pub lost : HopStats → HopStats
lost h = record h { in_flight = h.in_flight -ℤ pos 1 }

-- The search through `h.addrs`: the address is counted where it stands, or appended.
unfoldable pub count_address : Addr → List HopAddress → List HopAddress
count_address a [] = record { addr = a; name = ""; count = 1 } ∷ []
count_address a (x ∷ xs) =
    if x.addr =? a then record x { count = x.count + 1 } ∷ xs else x ∷ count_address a xs

abbrev pub abs_diff : ℕ → ℕ → ℕ
abs_diff a b = if ltb a b then b - a else a - b

-- Welford's step for the mean and the sum of squares, over the count `n` with the new sample.
unfoldable pub welford : ℕ → ℕ → HopStats → HopStats
welford n rtt h =
    let x = seconds rtt in
    let delta = sub x h.mean in
    let mean = add h.mean (div delta (of_int (pos n))) in
    record h { mean = mean; m2 = add h.m2 (mul delta (sub x mean)) }

unfoldable pub add_jitter : ℕ → HopStats → HopStats
add_jitter rtt h =
    let second_or_later = ltb 1 h.received in
    record h {
      jitter_sum = if second_or_later then h.jitter_sum + abs_diff rtt h.prev else h.jitter_sum;
      jitter_n = if second_or_later then h.jitter_n + 1 else h.jitter_n;
    }

-- A probe that was answered from `from`, after `rtt`.
unfoldable pub reply : Addr → ℕ → HopStats → HopStats
unfolding welford add_jitter
reply from rtt h0 =
    let h1 = record h0 {
      in_flight = h0.in_flight -ℤ pos 1;
      received = h0.received + 1;
      last = rtt;
    } in
    let h2 = record h1 {
      best = if h1.received == 1 || ltb rtt h1.best then rtt else h1.best;
      worst = if ltb h1.worst rtt then rtt else h1.worst;
    } in
    let h3 = add_jitter rtt (welford h2.received rtt h2) in
    record h3 { prev = rtt; addrs = count_address from h3.addrs }

-- Nanoseconds, as the float that the source truncates to a `time.Duration`.
unfoldable pub avg : HopStats → Float64
avg h = mul h.mean (of_int (pos second))

unfoldable pub stdev : HopStats → Float64
stdev h =
    if ltb h.received 2
    then of_int (pos 0)
    else mul (sqrt (div h.m2 (of_int (pos (h.received - 1))))) (of_int (pos second))

unfoldable pub jitter : HopStats → ℕ
jitter h = if h.jitter_n == 0 then 0 else h.jitter_sum / h.jitter_n

-- Over the settled probes only.
unfoldable pub loss_pct : HopStats → Float64
loss_pct h =
    let settled = pos h.sent -ℤ h.in_flight in
    if leb_ℤ settled (pos 0)
    then of_int (pos 0)
    else div (mul (of_int (pos 100)) (of_int (settled -ℤ pos h.received))) (of_int settled)

pub record Hop : Type 0 where
  pub ttl : ℕ
  pub addresses : List HopAddress
  pub sample : Option ℕ
  pub sent : ℕ
  pub received : ℕ
  pub loss_pct : Float64
  pub last : ℕ
  pub best : ℕ
  pub avg : Float64
  pub worst : ℕ
  pub stdev : Float64
  pub jitter : ℕ

abbrev with_name : (Addr → String) → HopAddress → HopAddress
with_name names a = record a { name = names a.addr }

abbrev named : Option (Addr → String) → List HopAddress → List HopAddress
named none addrs = addrs
named (some names) addrs = map (with_name names) addrs

unfoldable pub snapshot : HopStats → ℕ → Option ℕ → Option (Addr → String) → Hop
snapshot h ttl sample names = record {
  ttl = ttl;
  addresses = named names h.addrs;
  sample = sample;
  sent = h.sent;
  received = h.received;
  loss_pct = loss_pct h;
  last = h.last;
  best = h.best;
  avg = avg h;
  worst = h.worst;
  stdev = stdev h;
  jitter = jitter h;
}
