-- ===== src/Backend/Gateway/Routing.antt =====
-- Where the events of a job go, in internal/backend/gateway.go.
use prober.Prelude.{List}
use prober.Backend.Gateway.{Gateway}
