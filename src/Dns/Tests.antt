-- ===== src/Dns/Tests.antt =====
-- Small lookups with internal/dns/dns.go.
use prober.Prelude.{zero, suc, ◌≡◌, refl, true, false, [], ◌∷◌, Option, none, some}
use prober.Prelude.Int.{pos}
use prober.Prelude.Maps.{Text, codes}
use prober.Dns.Names.{valid_name, reverse_name4}
use prober.Dns.Reply.{
  Message, Record, resource, section_done, timed_out, answered, unanswered, no_connection,
}
use prober.Dns.Ask.{Client, Network, Order, ask, result_of, worse}
use prober.Dns.Choice.{given}

abbrev web : Text
web = codes "web.example"

-- A truncated reply, and a whole one with the address.
abbrev truncated_message : Message
truncated_message = record {
  header = some (record { id = 9; response = true; truncated = true; rcode = 0 });
  question = some (record { name = codes "WEB.example."; type = 1; class = 1 });
  questions_skipped = true;
  answers = section_done;
}

abbrev whole : Message
whole = record {
  header = some (record { id = 9; response = true; truncated = false; rcode = 0 });
  question = some (record { name = codes "WEB.example."; type = 1; class = 1 });
  questions_skipped = true;
  answers =
      resource
        (record {
          type = 1;
          ttl = 60;
          body = some (record { value = codes "192.0.2.1"; priority = 0; weight = 0; port = 0 });
          skippable = true;
        })
        section_done;
}

abbrev address : Record
address = record { value = codes "192.0.2.1"; priority = 0; weight = 0; port = 0; ttl = 60 }

abbrev client : Client
client = record {
  nameservers = codes "a:53" ∷ codes "b:53" ∷ codes "c:53" ∷ [];
  timeout = pos 0;
  attempts = pos 2;
}

-- The first nameserver is silent, the second refuses, the third answers its second attempt.
abbrev net : Network
net zero j = record { ended = none; exchanged = unanswered (no_connection timed_out) }
net (suc zero) j = record { ended = none; exchanged = answered 5 [] }
net (suc (suc k)) zero = record { ended = none; exchanged = unanswered (no_connection timed_out) }
net (suc (suc k)) (suc j) = record { ended = none; exchanged = answered 0 (address ∷ []) }

abbrev by_text : Text → Text → Option Order
by_text s t = none

-- The answer is the third nameserver's.
asked : given (ask by_text client net) ≡ some (result_of by_text (codes "c:53") 0 (address ∷ []))
unfolding ask result_of
asked = refl

reversed : reverse_name4 192 0 2 17 ≡ codes "17.2.0.192.in-addr.arpa"
unfolding reverse_name4
reversed = refl

service_names : valid_name (codes "_sip._udp.example.com") ≡ true
unfolding valid_name
service_names = refl

no_hyphen_first : valid_name (codes "-a.example") ≡ false
unfolding valid_name
no_hyphen_first = refl

servfail_is_worse : worse (codes "NODATA") (codes "SERVFAIL") ≡ codes "SERVFAIL"
unfolding worse
servfail_is_worse = refl
