-- ===== src/Dns/Reply.antt =====
-- internal/dns/dns.go: the reading of a reply, and the exchange with one nameserver. What the parser of
-- golang.org/x/net gives for the bytes of a reply, in the order in which the code asks for it, is a `Message`.
use prober.Prelude.{
  ℕ, Bool, ◌&&◌, not, List, [], ◌∷◌, ◌++◌, Option, none, some, ◌==◌, if◌then◌else◌,
}
use prober.Prelude.Maps.{Text, text_eq, ◌=?◌}
use prober.Auth.Claims.{dot}
use prober.Dns.Names.{QueryType, type_a, type_aaaa, type_srv, type_ptr, folded, trim_dot}

pub record Header : Type 0 where
  pub id : ℕ
  pub response : Bool
  pub truncated : Bool
  pub rcode : ℕ

-- The type of a resource is a number on the wire.
pub record Question : Type 0 where
  pub name : Text
  pub type : ℕ
  pub class : ℕ

-- The body of a resource of the asked type: an address as text, or a target with what an SRV record adds.
pub record Body : Type 0 where
  pub value : Text
  pub priority : ℕ
  pub weight : ℕ
  pub port : ℕ

pub record Resource : Type 0 where
  pub type : ℕ
  pub ttl : ℕ
  pub body : Option Body  -- `none` if it is malformed
  pub skippable : Bool

-- The answer section: its end, an answer whose header is malformed, or a resource and what follows.
pub data Answers : Type 0 where
  section_done malformed_answer : Answers
  resource : Resource → Answers → Answers

pub record Message : Type 0 where
  pub header : Option Header
  pub question : Option Question
  pub questions_skipped : Bool
  pub answers : Answers

pub record Record : Type 0 where
  pub value : Text
  pub priority : ℕ
  pub weight : ℕ
  pub port : ℕ
  pub ttl : ℕ

-- Why a round trip failed: its time was over, the context was cancelled, or something else.
pub data Loss : Type 0 where
  timed_out was_cancelled broken : Loss

pub data ReplyError : Type 0 where
  malformed id_mismatch not_a_response other_question truncated_over_tcp : ReplyError
  no_connection : Loss → ReplyError

pub data Parsed : Type 0 where
  bad_reply : ReplyError → Parsed
  cut_short : Parsed
  answer : ℕ → List Record → Parsed

abbrev pub type_number : QueryType → ℕ
type_number type_a = 1
type_number type_aaaa = 28
type_number type_srv = 33
type_number type_ptr = 12

abbrev pub class_inet : ℕ
class_inet = 1

-- What is kept of a resource: the fields of its type.
abbrev pub record_of : QueryType → ℕ → Body → Record
record_of type_a ttl b = record { value = b.value; priority = 0; weight = 0; port = 0; ttl = ttl }
record_of type_aaaa ttl b = record {
  value = b.value;
  priority = 0;
  weight = 0;
  port = 0;
  ttl = ttl;
}
record_of type_srv ttl b = record {
  value = trim_dot b.value;
  priority = b.priority;
  weight = b.weight;
  port = b.port;
  ttl = ttl;
}
record_of type_ptr ttl b = record {
  value = trim_dot b.value;
  priority = 0;
  weight = 0;
  port = 0;
  ttl = ttl;
}

-- A record more, if its body and what follows can be read.
abbrev pub read_body : QueryType → ℕ → Option Body → Option (List Record) → Option (List Record)
read_body qtype ttl none rest = none
read_body qtype ttl (some b) none = none
read_body qtype ttl (some b) (some recs) = some (record_of qtype ttl b ∷ recs)

-- The loop over the answer section, `none` for a malformed reply. A resource of another type, whose body is
-- skipped, adds nothing.
unfoldable pub read_answers : QueryType → Answers → Option (List Record)
unfolding trim_dot
read_answers qtype section_done = some []
read_answers qtype malformed_answer = none
read_answers qtype (resource r answers) =
    let rest = read_answers qtype answers in
    if r.type == type_number qtype
    then read_body qtype r.ttl r.body rest
    else if r.skippable
    then rest
    else none

abbrev pub answer_or_bad : ℕ → Option (List Record) → Parsed
answer_or_bad rcode none = bad_reply malformed
answer_or_bad rcode (some recs) = answer rcode recs

abbrev pub is_question : Text → QueryType → Question → Bool
is_question name qtype q =
    folded q.name =? folded (name ++ dot ∷ [])
    && (q.type == type_number qtype && q.class == class_inet)

abbrev pub parse_with : Message → ℕ → Text → QueryType → Option Header → Option Question → Parsed
parse_with m id name qtype none q = bad_reply malformed
parse_with m id name qtype (some h) none =
    if not (h.id == id)
    then bad_reply id_mismatch
    else if not h.response
    then bad_reply not_a_response
    else bad_reply malformed
parse_with m id name qtype (some h) (some q) =
    if not (h.id == id)
    then bad_reply id_mismatch
    else if not h.response
    then bad_reply not_a_response
    else if not (is_question name qtype q)
    then bad_reply other_question
    else if h.truncated
    then cut_short
    else if not m.questions_skipped
    then bad_reply malformed
    else answer_or_bad h.rcode (read_answers qtype m.answers)

unfoldable pub parse_answer : Message → ℕ → Text → QueryType → Parsed
unfolding read_answers
parse_answer m id name qtype = parse_with m id name qtype m.header m.question

-- A round trip gives an error or the message that came.
pub data Trip : Type 0 where
  lost : Loss → Trip
  came : Message → Trip

abbrev pub parse_trip : ℕ → Text → QueryType → Trip → Parsed
parse_trip id name qtype (lost e) = bad_reply (no_connection e)
parse_trip id name qtype (came m) = parse_answer m id name qtype

pub data Exchanged : Type 0 where
  unanswered : ReplyError → Exchanged
  answered : ℕ → List Record → Exchanged

abbrev pub over_tcp : Parsed → Exchanged
over_tcp (bad_reply e) = unanswered e
over_tcp cut_short = unanswered truncated_over_tcp
over_tcp (answer rcode recs) = answered rcode recs

abbrev pub over_udp : Parsed → Parsed → Exchanged
over_udp (bad_reply e) tcp = unanswered e
over_udp cut_short tcp = over_tcp tcp
over_udp (answer rcode recs) tcp = answered rcode recs

-- The question over UDP, and over TCP if the reply was truncated.
unfoldable pub exchange : ℕ → Text → QueryType → Trip → Trip → Exchanged
unfolding parse_answer
exchange id name qtype udp tcp =
    over_udp (parse_trip id name qtype udp) (parse_trip id name qtype tcp)
