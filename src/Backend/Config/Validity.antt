-- ===== src/Backend/Config/Validity.antt =====
-- Which configurations internal/backend/config.go accepts.
use prober.Prelude.{◌≡◌, ◌≢◌, ◌↔◌, ◌⊎◌, refl, false, not, ◌&&◌, [], none, All, arith}
use prober.Prelude.Maps.{Text, text_eq}
use prober.Backend.Config.{
  MonitorConfig, AgentAuth, ListenConfig, GrpcListen, Config, is_blank, check_listen, validate,
}
use prober.Backend.Config.Checks.{
  IsDistinct, is_blank_iff, guard-none, first_error-none, empty-IsUnseen,
}
use prober.Backend.Config.Monitors.{IsProbe, validate_monitors-none}
use prober.Backend.Config.Agents.{AreAgents, agents_from-none}

-- One of two settings, and not both.
abbrev pub IsEither : Text → Text → Type 0
IsEither a b = ((a ≢ []) × (b ≡ [])) ⊎ ((a ≡ []) × (b ≢ []))

pub record IsListen (l : ListenConfig) : Type 0 where
  pub has_addr : l.grpc.addr ≢ []
  pub one_cert : IsEither l.grpc.cert l.grpc.cert_file
  pub one_key : IsEither l.grpc.key l.grpc.key_file
  pub has_http : l.http ≢ []

IsEither-iff :
    (a b : Text)
    → IsEither a b
      ↔ (((is_blank a && is_blank b) ≡ false) × ((not (is_blank a) && not (is_blank b)) ≡ false))
IsEither-iff a b = ground (arith, is_blank_iff a, is_blank_iff b)

check_listen-none : (l : ListenConfig) → (check_listen l ≡ none) ↔ IsListen l
unfolding check_listen
check_listen-none l = (accepted, accepts)
  where
    g : GrpcListen
    g = l.grpc

    accepted : check_listen l ≡ none → IsListen l
    accepted h =
        let a = (guard-none (is_blank g.addr) _ _).0 h in
        let b = (guard-none (is_blank g.cert && is_blank g.cert_file) _ _).0 a.1 in
        let c = (guard-none (is_blank g.key && is_blank g.key_file) _ _).0 b.1 in
        let d = (guard-none (not (is_blank g.cert) && not (is_blank g.cert_file)) _ _).0 c.1 in
        let e = (guard-none (not (is_blank g.key) && not (is_blank g.key_file)) _ _).0 d.1 in
        let f = (guard-none (is_blank l.http) _ _).0 e.1 in
        record {
          has_addr = ground (arith, is_blank_iff g.addr, a.0);
          one_cert = (IsEither-iff g.cert g.cert_file).1 (b.0, d.0);
          one_key = (IsEither-iff g.key g.key_file).1 (c.0, e.0);
          has_http = ground (arith, is_blank_iff l.http, f.0);
        }

    accepts : IsListen l → check_listen l ≡ none
    accepts v =
        let cert = (IsEither-iff g.cert g.cert_file).0 v.one_cert in
        let key = (IsEither-iff g.key g.key_file).0 v.one_key in
        (guard-none (is_blank g.addr) _ _).1 (
          ground (arith, is_blank_iff g.addr, v.has_addr),
          (guard-none (is_blank g.cert && is_blank g.cert_file) _ _).1 (
            cert.0,
            (guard-none (is_blank g.key && is_blank g.key_file) _ _).1 (
              key.0,
              (guard-none (not (is_blank g.cert) && not (is_blank g.cert_file)) _ _).1 (
                cert.1,
                (guard-none (not (is_blank g.key) && not (is_blank g.key_file)) _ _).1 (
                  key.1,
                  (guard-none (is_blank l.http) _ _).1
                      (ground (arith, is_blank_iff l.http, v.has_http), refl),
                ),
              ),
            ),
          ),
        )

-- What a configuration has to be.
pub record IsValid (c : Config) : Type 0 where
  pub listens : IsListen c.listen
  pub agents_valid : AreAgents c.agents
  pub monitors_valid : All IsProbe c.monitors
  pub monitors_distinct : IsDistinct (λ (m : MonitorConfig). m.id) c.monitors

-- A configuration passes `Validate` exactly when it has its addresses and one source each for the
-- certificate and the key, every agent has a site and a token, no site and no token occurs twice, and
-- the monitors have distinct ids, targets, positive intervals and known kinds; the block of a monitor's
-- kind may be missing.
pub validate-IsValid : (c : Config) → (validate c ≡ none) ↔ IsValid c
unfolding validate
validate-IsValid c = (
  λ h.
      let a = (first_error-none _ _).0 h in
      let b = (first_error-none _ _).0 a.1 in
      let ms = (validate_monitors-none c.monitors).0 b.1 in
      record {
        listens = (check_listen-none c.listen).0 a.0;
        agents_valid = ((agents_from-none 0 [] [] c.agents).0 b.0).0;
        monitors_valid = ms.0;
        monitors_distinct = ms.1;
      },
  λ v. (first_error-none _ _).1 (
    (check_listen-none c.listen).1 v.listens,
    (first_error-none _ _).1 (
      (agents_from-none 0 [] [] c.agents).1 (
        v.agents_valid,
        (
          empty-IsUnseen (λ (a : AgentAuth). a.site) c.agents,
          empty-IsUnseen (λ (a : AgentAuth). a.token) c.agents,
        ),
      ),
      (validate_monitors-none c.monitors).1 (v.monitors_valid, v.monitors_distinct),
    ),
  ),
)
