-- ===== src/Dns/Guard.antt =====
-- Which replies internal/dns/dns.go takes for answers.
use prober.Prelude.{ℕ, ◌≡◌, true, false, List, [], ◌∷◌, ◌++◌, some}
use prober.Prelude.Maps.{Text}
use prober.Auth.Claims.{dot}
use prober.Dns.Names.{QueryType, folded}
use prober.Dns.Reply.{Header, Question, Message, Record, type_number, class_inet, read_answers}

-- A whole reply to the question: it carries the id, is a response, echoes the question and is not truncated.
pub record IsAnswer (m : Message) (id : ℕ) (name : Text) (qtype : QueryType) (rc : ℕ)
    (recs : List Record) : Type 0 where
  pub header : Header
  pub question : Question
  pub has_header : m.header ≡ some header
  pub has_question : m.question ≡ some question
  pub same_id : header.id ≡ id
  pub is_response : header.response ≡ true
  pub same_name : folded question.name ≡ folded (name ++ dot ∷ [])
  pub same_type : question.type ≡ type_number qtype
  pub same_class : question.class ≡ class_inet
  pub is_whole : header.truncated ≡ false
  pub same_code : header.rcode ≡ rc
  pub are_read : read_answers qtype m.answers ≡ some recs
