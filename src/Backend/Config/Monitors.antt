-- ===== src/Backend/Config/Monitors.antt =====
-- Which lists of monitors internal/backend/config.go accepts.
use prober.Prelude.{
  ℕ, ◌+◌, ◌≡◌, ◌≢◌, ◌↔◌, ◌⊎◌, refl, Bool, true, false, List, [], ◌∷◌, Option, none, some, All,
  arith, ◌==◌, if◌then◌else◌,
}
use prober.Prelude.Maps.{Text, Map, insert, text_eq}
use prober.Backend.Config.{
  MonitorConfig, ConfigError, is_blank, is_seen, is_known_kind, trace_kind, ping_kind, sip_kind,
  check_kind, kind_required, unknown_kind, check_monitor, monitors_from, validate_monitors,
}
use prober.Backend.Config.Checks.{
  IsDistinct, is_blank_iff, guard-none, first_error-none, IsUnseen, IsUnseen-insert, empty-IsUnseen,
}

-- A monitor on its own is in order.
pub record IsProbe (m : MonitorConfig) : Type 0 where
  pub has_id : m.id ≢ []
  pub has_target : m.target ≢ []
  pub has_interval : m.interval_s ≢ 0
  pub kind_known : (m.kind ≡ trace_kind) ⊎ ((m.kind ≡ ping_kind) ⊎ (m.kind ≡ sip_kind))

is_known_kind_iff :
    (k : Text) → (is_known_kind k ≡ true) ↔ ((k ≡ trace_kind) ⊎ ((k ≡ ping_kind) ⊎ (k ≡ sip_kind)))
is_known_kind_iff k =
    ground
      (arith, text_eq.beq_iff k trace_kind, text_eq.beq_iff k ping_kind, text_eq.beq_iff k sip_kind)

check_kind-none :
    (i : ℕ) (m : MonitorConfig) → (check_kind i m ≡ none) ↔ (is_known_kind m.kind ≡ true)
check_kind-none i m = go (is_known_kind m.kind)
  where
    rest : Option ConfigError
    rest =
        if is_blank m.kind then some (kind_required i m.id) else some (unknown_kind i m.id m.kind)

    refused :
        (b : Bool)
        → (if b then some (kind_required i m.id) else some (unknown_kind i m.id m.kind)) ≡ none
        → false ≡ true
    refused true h = cc
    refused false h = cc

    go : (b : Bool) → ((if b then none else rest) ≡ none) ↔ (b ≡ true)
    go true = (λ _. refl, λ _. refl)
    go false = (refused (is_blank m.kind), λ h. cc)

check_monitor-none :
    (i : ℕ) (ids : Map Text Bool) (m : MonitorConfig)
    → (check_monitor i ids m ≡ none) ↔ (IsProbe m × (is_seen m.id ids ≡ false))
unfolding check_monitor
check_monitor-none i ids m = (accepted, accepts)
  where
    accepted : check_monitor i ids m ≡ none → IsProbe m × (is_seen m.id ids ≡ false)
    accepted h =
        let a = (guard-none (is_blank m.id) _ _).0 h in
        let b = (guard-none (is_seen m.id ids) _ _).0 a.1 in
        let c = (guard-none (is_blank m.target) _ _).0 b.1 in
        let d = (guard-none (m.interval_s == 0) _ _).0 c.1 in
        (
          record {
            has_id = ground (arith, is_blank_iff m.id, a.0);
            has_target = ground (arith, is_blank_iff m.target, c.0);
            has_interval = ground (arith, d.0);
            kind_known = (is_known_kind_iff m.kind).0 ((check_kind-none i m).0 d.1);
          },
          b.0,
        )

    accepts : IsProbe m × (is_seen m.id ids ≡ false) → check_monitor i ids m ≡ none
    accepts (v, unseen) = (guard-none (is_blank m.id) _ _).1 (
      ground (arith, is_blank_iff m.id, v.has_id),
      (guard-none (is_seen m.id ids) _ _).1 (
        unseen,
        (guard-none (is_blank m.target) _ _).1 (
          ground (arith, is_blank_iff m.target, v.has_target),
          (guard-none (m.interval_s == 0) _ _).1 (
            ground (arith, v.has_interval),
            (check_kind-none i m).1 ((is_known_kind_iff m.kind).1 v.kind_known),
          ),
        ),
      ),
    )

monitors_from-none :
    (i : ℕ) (ids : Map Text Bool) (ms : List MonitorConfig)
    → (monitors_from i ids ms ≡ none) ↔ (
        All IsProbe ms
        × (IsUnseen (λ (m : MonitorConfig). m.id) ids ms
            × IsDistinct (λ (m : MonitorConfig). m.id) ms))
unfolding monitors_from
monitors_from-none i ids [] = (λ _. (tt, (tt, tt)), λ _. refl)
monitors_from-none i ids (m ∷ ms) = (
  λ h.
      let both = (first_error-none _ _).0 h in
      let head = (check_monitor-none i ids m).0 both.0 in
      let tail = (monitors_from-none (i + 1) (insert m.id true ids) ms).0 both.1 in
      let unseen = (IsUnseen-insert (λ (x : MonitorConfig). x.id) m.id ids ms).0 tail.1.0 in
      ((head.0, tail.0), ((head.1, unseen.1), (unseen.0, tail.1.1))),
  λ (probes, (unseen, distinct)). (first_error-none _ _).1 (
    (check_monitor-none i ids m).1 (probes.0, unseen.0),
    (monitors_from-none (i + 1) (insert m.id true ids) ms).1 (
      probes.1,
      (
        (IsUnseen-insert (λ (x : MonitorConfig). x.id) m.id ids ms).1 (distinct.0, unseen.1),
        distinct.1,
      ),
    ),
  ),
)

pub validate_monitors-none :
    (ms : List MonitorConfig)
    → (validate_monitors ms ≡ none) ↔ (All IsProbe ms × IsDistinct (λ (m : MonitorConfig). m.id) ms)
unfolding validate_monitors
validate_monitors-none ms = (
  λ h. let v = (monitors_from-none 0 [] ms).0 h in (v.0, v.1.1),
  λ v. (monitors_from-none 0 [] ms).1 (v.0, (empty-IsUnseen (λ (m : MonitorConfig). m.id) ms, v.1)),
)
