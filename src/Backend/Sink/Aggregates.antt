-- ===== src/Backend/Sink/Aggregates.antt =====
-- What the aggregates of internal/backend/monitorsink.go say.
use prober.Prelude.{
  ℕ, ◌+◌, ◌≡◌, ◌<◌, refl, subst, Bool, true, false, List, [], ◌∷◌, ◌||◌, Option, none, some,
  get_elem?, ◌==◌, if◌then◌else◌, arith,
}
use prober.Prelude.Maps.{Text, Map, lookup, text_eq, lookup-insert_self}
use prober.Backend.Sink.State.{
  MonState, MonitorState, state_up, state_down, state_partial, state_nodata, Aggregate, Sink,
  is_older, stale_after, sites_of, one_changed,
}
use prober.Backend.Sink.Stream.{
  no_sites, count_found, count_sites, state_for, aggregate_locked, renewed, refresh_locked, refresh,
  is_changed, publish_locked,
}

-- What a site has said of a monitor: nothing yet, or an outcome that is older than the monitor's window, or
-- a newer one that is up or down.
pub data Verdict (now : ℕ) (st : MonState) : Type 0 where
  is_silent : st.last.at ≡ none → Verdict now st
  is_stale :
      (at : ℕ)
      → st.last.at ≡ some at
      → is_older now (stale_after st.interval_s) at ≡ true
      → Verdict now st
  is_up :
      (at : ℕ)
      → st.last.at ≡ some at
      → is_older now (stale_after st.interval_s) at ≡ false
      → st.last.up ≡ true
      → Verdict now st
  is_down :
      (at : ℕ)
      → st.last.at ≡ some at
      → is_older now (stale_after st.interval_s) at ≡ false
      → st.last.up ≡ false
      → Verdict now st

abbrev pub ups : {now : ℕ} {st : MonState} → Verdict now st → ℕ
ups (is_silent e) = 0
ups (is_stale at e o) = 0
ups (is_up at e o u) = 1
ups (is_down at e o u) = 0

abbrev pub downs : {now : ℕ} {st : MonState} → Verdict now st → ℕ
downs (is_silent e) = 0
downs (is_stale at e o) = 0
downs (is_up at e o u) = 0
downs (is_down at e o u) = 1

abbrev pub stales : {now : ℕ} {st : MonState} → Verdict now st → ℕ
stales (is_silent e) = 0
stales (is_stale at e o) = 1
stales (is_up at e o u) = 0
stales (is_down at e o u) = 0

-- The numbers of entries that are up, down and stale.
pub data Tally (now : ℕ) : List MonState → ℕ → ℕ → ℕ → Type 0 where
  tally_none : Tally now [] 0 0 0
  tally_one :
      (st : MonState) (sts : List MonState) (u d s : ℕ) (v : Verdict now st)
      → Tally now sts u d s
      → Tally now (st ∷ sts) (ups v + u) (downs v + d) (stales v + s)

-- The entries that a monitor has at its sites.
abbrev pub entry_onto : Option MonState → List MonState → List MonState
entry_onto none sts = sts
entry_onto (some st) sts = st ∷ sts

abbrev pub entries_at : List MonState → Map Text ℕ → List MonState
entries_at heap [] = []
entries_at heap ((site, ptr) ∷ rest) = entry_onto (get_elem? heap ptr) (entries_at heap rest)

-- What each state says of the numbers of sites that are up, down and stale.
abbrev pub StateFits : MonitorState → ℕ → ℕ → ℕ → Type 0
StateFits state_nodata up down stale = (up ≡ 0) × (down ≡ 0)
StateFits state_up up down stale = (0 < up) × (down ≡ 0) × (stale ≡ 0)
StateFits state_down up down stale = (up ≡ 0) × (0 < down)
StateFits state_partial up down stale = (0 < up) × (0 < down + stale)

-- The numbers of an aggregate are those of the entries, and the state fits them.
pub record IsJudged (now : ℕ) (sts : List MonState) (a : Aggregate) : Type 0 where
  pub counts : Tally now sts a.up a.down a.stale
  pub total : a.up + a.down + a.stale ≡ a.sites
  pub fits : StateFits a.state a.up a.down a.stale

abbrev Splits : Aggregate → Type 0
Splits a = a.up + a.down + a.stale ≡ a.sites

-- What counting these entries adds to an aggregate.
record Counted (now : ℕ) (sts : List MonState) (a b : Aggregate) : Type 0 where
  u : ℕ
  d : ℕ
  s : ℕ
  tally : Tally now sts u d s
  ups_ : b.up ≡ a.up + u
  downs_ : b.down ≡ a.down + d
  stales_ : b.stale ≡ a.stale + s
  split : Splits a → Splits b

any-Verdict : (now : ℕ) (st : MonState) → Verdict now st
any-Verdict now st = by_time st.last.at refl
  where
    by_outcome :
        (at : ℕ)
        → st.last.at ≡ some at
        → (o r : Bool) → is_older now (stale_after st.interval_s) at ≡ o
        → st.last.up ≡ r
        → Verdict now st
    by_outcome at e true r p q = is_stale at e p
    by_outcome at e false true p q = is_up at e p q
    by_outcome at e false false p q = is_down at e p q

    by_time : (o : Option ℕ) → st.last.at ≡ o → Verdict now st
    by_time none e = is_silent e
    by_time (some at) e =
        by_outcome at e (is_older now (stale_after st.interval_s) at) st.last.up refl refl

-- One entry.
count_found-step :
    (now : ℕ) (st : MonState) (a : Aggregate) (v : Verdict now st)
    → let b = count_found now (some st) a in
      (b.up ≡ a.up + ups v)
      × (b.down ≡ a.down + downs v)
      × (b.stale ≡ a.stale + stales v)
      × (Splits a → Splits b)
count_found-step now st a (is_silent e) = rw e (omega arith, omega arith, omega arith, λ h. h)
count_found-step now st a (is_stale at e o) =
    rw (e, o) (omega arith, omega arith, omega arith, λ h. omega (arith, h))
count_found-step now st a (is_up at e o u) =
    rw (e, o, u) (omega arith, omega arith, omega arith, λ h. omega (arith, h))
count_found-step now st a (is_down at e o u) =
    rw (e, o, u) (omega arith, omega arith, omega arith, λ h. omega (arith, h))

count_sites-Counted :
    (now : ℕ) (heap : List MonState) (sites : Map Text ℕ) (a : Aggregate)
    → Counted now (entries_at heap sites) a (count_sites now heap sites a)
unfolding count_sites
count_sites-Counted now heap [] a = record {
  u = 0;
  d = 0;
  s = 0;
  tally = tally_none;
  ups_ = omega arith;
  downs_ = omega arith;
  stales_ = omega arith;
  split = λ h. h;
}
count_sites-Counted now heap ((site, ptr) ∷ rest) a =
    by_entry (get_elem? heap ptr) (λ (b : Aggregate). count_sites-Counted now heap rest b)
  where
    sts : List MonState
    sts = entries_at heap rest

    by_entry :
        (o : Option MonState)
        → ((b : Aggregate) → Counted now sts b (count_sites now heap rest b))
        → Counted now (entry_onto o sts) a (count_sites now heap rest (count_found now o a))
    by_entry none ih = ih a
    by_entry (some st) ih =
        let v = any-Verdict now st in
        let c = ih (count_found now (some st) a) in
        let (eu, ed, es, sp) = count_found-step now st a v in
        record {
          u = ups v + c.u;
          d = downs v + c.d;
          s = stales v + c.s;
          tally = tally_one st sts c.u c.d c.s v c.tally;
          ups_ = omega (arith, eu, c.ups_);
          downs_ = omega (arith, ed, c.downs_);
          stales_ = omega (arith, es, c.stales_);
          split = λ h. c.split (sp h);
        }

state_for-StateFits : (a : Aggregate) → Splits a → StateFits (state_for a) a.up a.down a.stale
state_for-StateFits a h =
    choose (a.sites == 0 || a.stale == a.sites) (a.up == a.sites) (a.up == 0)
      (λ p. (ground (arith, p, h), ground (arith, p, h)))
      (λ p q. (ground (arith, p, q, h), ground (arith, q, h), ground (arith, q, h)))
      (λ p q r. (ground (arith, r), ground (arith, p, r, h)))
      (λ p q r. (ground (arith, r), ground (arith, q, h)))
  where
    choose :
        (p q r : Bool)
        → (p ≡ true → StateFits state_nodata a.up a.down a.stale)
        → (p ≡ false → q ≡ true → StateFits state_up a.up a.down a.stale)
        → (p ≡ false → q ≡ false → r ≡ true → StateFits state_down a.up a.down a.stale)
        → (p ≡ false → q ≡ false → r ≡ false → StateFits state_partial a.up a.down a.stale)
        → StateFits
            (if p
              then state_nodata
              else if q
              then state_up
              else if r
              then state_down
              else state_partial)
            a.up
            a.down
            a.stale
    choose true q r f g h k = f refl
    choose false true r f g h k = g refl refl
    choose false false true f g h k = h refl refl refl
    choose false false false f g h k = k refl refl refl

aggregate_locked-IsJudged :
    (id : Text) (now : ℕ) (s : Sink)
    → IsJudged now (entries_at s.heap (sites_of id s)) (aggregate_locked id now s)
unfolding aggregate_locked
aggregate_locked-IsJudged id now s =
    let c = count_sites-Counted now s.heap (sites_of id s) no_sites in
    let a = count_sites now s.heap (sites_of id s) no_sites in
    let whole = c.split refl in
    let up : c.u ≡ a.up = omega (arith, c.ups_) in
    let down : c.d ≡ a.down = omega (arith, c.downs_) in
    let stale : c.s ≡ a.stale = omega (arith, c.stales_) in
    record {
      counts =
          subst (λ (n : ℕ). Tally now sts n a.down a.stale) up
            (subst (λ (n : ℕ). Tally now sts c.u n a.stale) down
              (subst (λ (n : ℕ). Tally now sts c.u c.d n) stale c.tally));
      total = whole;
      fits = state_for-StateFits a whole;
    }
  where
    sts : List MonState
    sts = entries_at s.heap (sites_of id s)

-- Once `refresh` has run for a monitor, the aggregate that the sink has for it counts the sites that have
-- reported an outcome: as stale those whose outcome is older than the monitor's window, and of the others as up
-- and as down those whose outcome says so. Its state is up when all are up, down when some are down and none is
-- up, partial when some are up and some not, and no data when none is up or down.
pub refresh-IsJudged :
    (id : Text) (now : ℕ) (s : Sink)
    → (a : Aggregate) × (lookup id (refresh id now s).agg ≡ some a)
      × IsJudged now (entries_at s.heap (sites_of id s)) a
unfolding refresh refresh_locked publish_locked renewed
refresh-IsJudged id now s =
    let j = aggregate_locked-IsJudged id now s in
    (
      renewed id now s,
      stored (is_changed (renewed id now s) (lookup id s.agg)),
      record { counts = j.counts; total = j.total; fits = j.fits },
    )
  where
    t : Sink
    t = (refresh_locked id now s).2

    stored :
        (b : Bool)
        → lookup id (if b then publish_locked (one_changed id (renewed id now s)) t else t).agg
          ≡ some (renewed id now s)
    stored true = lookup-insert_self id (renewed id now s) s.agg
    stored false = lookup-insert_self id (renewed id now s) s.agg
