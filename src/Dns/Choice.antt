-- ===== src/Dns/Choice.antt =====
-- Which answer internal/dns/dns.go reports.
use prober.Prelude.{ℕ, zero, suc, ◌+◌, ◌≡◌, List, [], ◌∷◌, Option, none, some, if◌then◌else◌}
use prober.Prelude.Maps.{Text}
use prober.Dns.Reply.{Record, Exchanged, unanswered, answered}
use prober.Dns.Ask.{
  Network, Attempt, AskError, Result, Order, replied, silent, try_server, is_final, result_of,
}

-- The first reply of a nameserver in `n` attempts from attempt `j` on.
abbrev pub first_reply : (ℕ → Attempt) → ℕ → ℕ → Option (ℕ × List Record)
first_reply net j zero = none
first_reply net j (suc n) = of_exchange (net j).exchanged (first_reply net (j + 1) n)
  where
    of_exchange : Exchanged → Option (ℕ × List Record) → Option (ℕ × List Record)
    of_exchange (unanswered e) later = later
    of_exchange (answered rc recs) later = some (rc, recs)

-- The nameservers with their replies, in order.
abbrev pub Replies : Type 0
Replies = List (Text × Option (ℕ × List Record))

abbrev pub replies_from : Network → ℕ → List Text → ℕ → Replies
replies_from net n [] k = []
replies_from net n (server ∷ servers) k =
    (server, first_reply (net k) 0 n) ∷ replies_from net n servers (k + 1)

abbrev pub or_else {ℓ} : {A : Type ℓ} → Option A → Option A → Option A
or_else none b = b
or_else (some a) b = some a

-- A result that a nameserver gave.
abbrev pub given_with : Result → Option AskError → Option Result
given_with r none = some r
given_with r (some e) = none

abbrev pub given : Result → Option Result
given r = given_with r r.error

module _ (order_addr : Text → Text → Option Order) where
  -- The first NOERROR or NXDOMAIN.
  abbrev pub first_final : Replies → Option Result
  first_final [] = none
  first_final ((server, none) ∷ rest) = first_final rest
  first_final ((server, some (rc, recs)) ∷ rest) =
      let later = first_final rest in
      if is_final rc then some (result_of order_addr server rc recs) else later

  -- The last reply of any kind.
  abbrev pub last_reply : Replies → Option Result
  last_reply [] = none
  last_reply ((server, none) ∷ rest) = last_reply rest
  last_reply ((server, some (rc, recs)) ∷ rest) =
      or_else (last_reply rest) (some (result_of order_addr server rc recs))

-- How the attempts at a nameserver went, when the context does not end.
data Went (server : Text) (net : ℕ → Attempt) (j n : ℕ) (last : Option AskError) : Type 0 where
  went_silent :
      (e : Option AskError)
      → try_server server net j n last ≡ silent e
      → first_reply net j n ≡ none
      → Went server net j n last
  went_replied :
      (rc : ℕ) (recs : List Record)
      → try_server server net j n last ≡ replied rc recs
      → first_reply net j n ≡ some (rc, recs)
      → Went server net j n last

-- A refusal in hand is a nameserver's.
abbrev IsRefusal : Option Result → Type 0
IsRefusal none = Unit
IsRefusal (some r) = r.error ≡ none
