-- ===== src/Dns/Ask.antt =====
-- internal/dns/dns.go: one question, put to the nameservers in turn. What a nameserver does in an attempt, and
-- whether the context has ended before it, come from a `Network`. Round-trip times are left out.
use prober.Prelude.{
  ℕ, zero, suc, ◌+◌, ◌*◌, Bool, true, false, ◌&&◌, ◌||◌, List, [], ◌∷◌, ◌++◌, Option, none, some,
  length, ltb, ◌==◌, if◌then◌else◌,
}
use prober.Prelude.Int.{ℤ, pos, negsuc, leb_ℤ}
use prober.Prelude.Maps.{Text, codes, text_eq, ◌=?◌}
use prober.Auth.Claims.{leb_text}
use prober.Dns.Names.{decimal}
use prober.Dns.Reply.{
  Record, ReplyError, Exchanged, unanswered, answered, no_connection, timed_out, was_cancelled,
}

abbrev pub second : ℕ
second = 1_000_000_000

-- Durations count nanoseconds.
pub record Client : Type 0 where
  pub nameservers : List Text
  pub timeout : ℤ
  pub attempts : ℤ

abbrev pub servers_or_default : List Text → List Text
servers_or_default [] = codes "127.0.0.1:53" ∷ codes "[::1]:53" ∷ []
servers_or_default (s ∷ servers) = s ∷ servers

unfoldable pub normalized : Client → Client
normalized c = record {
  nameservers = servers_or_default c.nameservers;
  timeout = if leb_ℤ c.timeout (pos 0) then pos (5 * second) else c.timeout;
  attempts = if leb_ℤ c.attempts (pos 0) then pos 2 else c.attempts;
}

pub data CtxError : Type 0 where
  deadline_exceeded cancelled : CtxError

pub data AskError : Type 0 where
  ctx_error : CtxError → AskError
  exchange_error : Text → ReplyError → AskError
  no_nameservers : AskError

pub record Result : Type 0 where
  pub records : List Record
  pub status : Text
  pub server : Text
  pub error : Option AskError

-- How two texts compare as addresses, `none` unless both are.
pub data Order : Type 0 where
  less same greater : Order

abbrev pub order_ℕ : ℕ → ℕ → Order → Order
order_ℕ a b ties = if ltb a b then less else if ltb b a then greater else ties

abbrev pub order_text : Text → Text → Order → Order
order_text s t ties = if s =? t then ties else if leb_text s t then less else greater

-- Rank of a response code: the names that dig prints.
unfoldable pub rcode_name : ℕ → Text
rcode_name rc =
    if rc == 0
    then codes "NOERROR"
    else if rc == 1
    then codes "FORMERR"
    else if rc == 2
    then codes "SERVFAIL"
    else if rc == 3
    then codes "NXDOMAIN"
    else if rc == 4
    then codes "NOTIMP"
    else if rc == 5
    then codes "REFUSED"
    else codes "RCODE" ++ decimal rc

abbrev pub is_final : ℕ → Bool
is_final rc = rc == 0 || rc == 3

-- One attempt: whether the context has ended before it, and what the exchange came to.
pub record Attempt : Type 0 where
  pub ended : Option CtxError
  pub exchanged : Exchanged

-- What became of the attempts at one nameserver.
pub data Tried : Type 0 where
  stopped : CtxError → Tried
  replied : ℕ → List Record → Tried
  silent : Option AskError → Tried

abbrev pub tried : Text → Option CtxError → Exchanged → (Option AskError → Tried) → Tried
tried server (some e) x later = stopped e
tried server none (unanswered e) later = later (some (exchange_error server e))
tried server none (answered rc recs) later = replied rc recs

-- The inner loop, from attempt `j` on, with the last error.
unfoldable pub try_server : Text → (ℕ → Attempt) → ℕ → ℕ → Option AskError → Tried
try_server server net j zero last = silent last
try_server server net j (suc n) last =
    tried server (net j).ended (net j).exchanged
      (λ (e : Option AskError). try_server server net (j + 1) n e)

-- What one question meets: the attempts at each nameserver, by its place.
abbrev pub Network : Type 0
Network = ℕ → ℕ → Attempt

-- How often the inner loop goes round.
abbrev pub attempts_of : ℤ → ℕ
attempts_of (pos n) = n
attempts_of (negsuc n) = 0

module _ (order_addr : Text → Text → Option Order) where
  abbrev pub order_value : Option Order → Record → Record → Order
  order_value (some less) x y = less
  order_value (some same) x y = same
  order_value (some greater) x y = greater
  order_value none x y = order_text x.value y.value (order_ℕ x.port y.port same)

  unfoldable pub order_record : Record → Record → Order
  order_record x y =
      order_ℕ x.priority y.priority
        (order_ℕ y.weight x.weight (order_value (order_addr x.value y.value) x y))

  abbrev pub is_after : Order → Bool
  is_after less = false
  is_after same = false
  is_after greater = true

  abbrev pub insert_record : Record → List Record → List Record
  insert_record r [] = r ∷ []
  insert_record r (s ∷ recs) =
      let rest = insert_record r recs in
      if is_after (order_record r s) then s ∷ rest else r ∷ s ∷ recs

  -- `slices.SortFunc`; it does not say how it orders records that compare as the same.
  unfoldable pub sort_records : List Record → List Record
  unfolding order_record
  sort_records [] = []
  sort_records (r ∷ recs) = insert_record r (sort_records recs)

  unfoldable pub result_of : Text → ℕ → List Record → Result
  unfolding sort_records rcode_name
  result_of server rc recs = record {
    records = sort_records recs;
    status = if rc == 0 && length recs == 0 then codes "NODATA" else rcode_name rc;
    server = server;
    error = none;
  }

  abbrev pub failed : AskError → Result
  failed e = record { records = []; status = []; server = []; error = some e }

  abbrev pub failure_or : Option AskError → AskError
  failure_or none = no_nameservers
  failure_or (some e) = e

  -- What is reported when nothing final came: a refusal in hand, or else an error.
  abbrev pub refusal_or : Option Result → AskError → Result
  refusal_or none e = failed e
  refusal_or (some r) e = r

  abbrev pub after_server :
      Text
      → Tried
      → Option Result
      → Option AskError
      → (Option Result → Option AskError → Result)
      → Result
  after_server server (stopped e) refused last later = refusal_or refused (ctx_error e)
  after_server server (replied rc recs) refused last later =
      let rest = later (some (result_of server rc recs)) last in
      if is_final rc then result_of server rc recs else rest
  after_server server (silent e) refused last later = later refused e

  -- The outer loop, from the nameserver at place `k` on.
  unfoldable pub ask_from : Network → ℕ → List Text → ℕ → Option Result → Option AskError → Result
  unfolding try_server result_of
  ask_from net attempts [] k refused last = refusal_or refused (failure_or last)
  ask_from net attempts (server ∷ servers) k refused last =
      after_server server (try_server server (net k) 0 attempts last) refused last
        (λ (r : Option Result) (e : Option AskError). ask_from net attempts servers (k + 1) r e)

  -- A question that could be built.
  unfoldable pub ask : Client → Network → Result
  unfolding ask_from
  ask c net = ask_from net (attempts_of c.attempts) c.nameservers 0 none none

abbrev pub error_word : Option AskError → Text
error_word (some (ctx_error deadline_exceeded)) = codes "TIMEOUT"
error_word (some (ctx_error cancelled)) = codes "CANCELLED"
error_word (some (exchange_error server (no_connection timed_out))) = codes "TIMEOUT"
error_word (some (exchange_error server (no_connection was_cancelled))) = codes "CANCELLED"
error_word e = codes "ERROR"

-- One word for a result.
unfoldable pub outcome : Result → Text
outcome r = if length r.status == 0 then error_word r.error else r.status

unfoldable pub rank : Text → ℕ
rank o =
    if o =? codes "NOERROR" || o =? codes "NODATA"
    then 0
    else if o =? codes "NXDOMAIN"
    then 1
    else if o =? codes "TIMEOUT" || o =? codes "CANCELLED" || o =? codes "ERROR"
    then 3
    else 2

unfoldable pub worse : Text → Text → Text
unfolding rank
worse a b = if length a == 0 then b else if ltb (rank a) (rank b) then b else a
