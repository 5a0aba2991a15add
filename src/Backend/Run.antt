-- ===== src/Backend/Run.antt =====
-- internal/backend/run.go: one target executed at several sites. Its events are numbered, buffered
-- for replay and sent to the subscribers.
-- A subscriber is known by a number. Its channel is the list of the events in it, the oldest first,
-- with whether it was closed; a receive takes the first. The payload of a job event is carried
-- unread. The clock only dates events and `doneAt`, and is an argument.
pub mod Replay
pub mod Sends
pub mod UnderWay
pub mod Completion
pub mod Sites
use prober.Prelude.{
  ℕ, ◌+◌, ◌-◌, Bool, true, false, not, ◌&&◌, List, [], ◌∷◌, ◌++◌, Option, none, some, length, ltb,
  map, ◌==◌, if◌then◌else◌,
}
use prober.Prelude.Picks.{take_at}
use prober.Prelude.Maps.{Text, codes, Map, insert, delete, text_eq, nat_eq}

pub data Kind : Type 0 where
  started cycle sip_result dns_result finished error : Kind

pub record JobEvent : Type 0 where
  pub job_id : Text
  pub kind : Kind
  pub payload : Text

pub record StreamEvent : Type 0 where
  pub seq : ℕ  -- uint64
  pub site : Text
  pub event : JobEvent

pub record Subscriber : Type 0 where
  pub id : ℕ
  pub ch : List StreamEvent
  pub closed : Bool

pub record Run : Type 0 where
  pub id : Text
  pub sites : List Text
  pub seq : ℕ  -- uint64
  pub buffer : List StreamEvent
  pub subs : List Subscriber
  pub sending : List (ℕ × StreamEvent)  -- sends under way, each to a subscriber
  pub pending : Map Text Bool
  pub done : Bool
  pub done_at : ℕ

abbrev pub colon : ℕ
colon = b':'

-- The loop of `siteOf` runs back from the end; here `found` is the answer for the bytes read so far.
abbrev pub site_from : Text → Option Text → Option Text
site_from [] found = found
site_from (c ∷ cs) found = site_from cs (if c == colon then some cs else found)

abbrev pub text_or_empty : Option Text → Text
text_or_empty none = []
text_or_empty (some t) = t

-- What follows the last colon of a job id.
unfoldable pub site_of : Text → Text
site_of id = text_or_empty (site_from id none)

abbrev pub capacity : ℕ
capacity = 256

-- `select { case sub.ch <- se: default: }`
abbrev pub offer : StreamEvent → Subscriber → Subscriber
offer se sub = record sub {
  ch = if ltb (length sub.ch) capacity then sub.ch ++ se ∷ [] else sub.ch;
}

abbrev pub sends : StreamEvent → List Subscriber → List (ℕ × StreamEvent)
sends se [] = []
sends se (sub ∷ subs) = (sub.id, se) ∷ sends se subs

-- What `emit` does under the lock. The sends to the subscribers of that moment follow, one by one.
unfoldable pub emit : JobEvent → Run → Run
unfolding site_of
emit ev r =
    let se : StreamEvent = record { seq = r.seq + 1; site = site_of ev.job_id; event = ev } in
    record r {
      seq = r.seq + 1;
      buffer = r.buffer ++ se ∷ [];
      sending = r.sending ++ sends se r.subs;
    }

abbrev pub cons_some {ℓ} : {A : Type ℓ} → A → Option (List A) → Option (List A)
cons_some a none = none
cons_some a (some as_) = some (a ∷ as_)

-- `none` if the subscriber is not there any more: its channel is closed, and a send on it panics.
abbrev pub offer_to : ℕ → StreamEvent → List Subscriber → Option (List Subscriber)
offer_to id se [] = none
offer_to id se (sub ∷ subs) =
    let rest = offer_to id se subs in
    if sub.id == id then some (offer se sub ∷ subs) else cons_some sub rest

abbrev pub with_subs : List (ℕ × StreamEvent) → Run → Option (List Subscriber) → Option Run
with_subs rest r none = none
with_subs rest r (some subs) = some (record r { subs = subs; sending = rest })

abbrev pub deliver_found : Run → Option ((ℕ × StreamEvent) × List (ℕ × StreamEvent)) → Option Run
deliver_found r none = some r
deliver_found r (some ((id, se), rest)) = with_subs rest r (offer_to id se r.subs)

-- A send of those under way, the sends of several `emit`s in any order; `none` if it panics.
unfoldable pub deliver : ℕ → Run → Option Run
deliver i r = deliver_found r (take_at i r.sending)

abbrev pub is_empty {ℓ} : {A : Type ℓ} → List A → Bool
is_empty [] = true
is_empty (x ∷ xs) = false

-- The subscribers whose channels `checkDone` closes leave the run.
unfoldable pub check_done : ℕ → Run → Run
check_done now r =
    let ends = not r.done && is_empty r.pending in
    record r {
      done = if ends then true else r.done;
      done_at = if ends then now else r.done_at;
      subs = if ends then [] else r.subs;
    }

abbrev pub is_last : Kind → Bool
is_last started = false
is_last cycle = false
is_last sip_result = false
is_last dns_result = false
is_last finished = true
is_last error = true

unfoldable pub on_event : ℕ → JobEvent → Run → Run
unfolding emit check_done
on_event now ev r =
    let s = emit ev r in
    if is_last ev.kind
    then check_done now (record s { pending = delete ev.job_id s.pending })
    else s

abbrev pub after : ℕ → List StreamEvent → List StreamEvent
after n [] = []
after n (se ∷ ses) = let rest = after n ses in if ltb n se.seq then se ∷ rest else rest

-- The backlog, the subscriber that a later `emit` reaches, and the run with it. A run that is done
-- gives a closed channel and registers nobody.
unfoldable pub subscribe : ℕ → ℕ → Run → List StreamEvent × Subscriber × Run
subscribe id n r =
    let sub : Subscriber = record { id = id; ch = []; closed = r.done } in
    (after n r.buffer, sub, record r { subs = if r.done then r.subs else sub ∷ r.subs })

unfoldable pub snapshot : Run → List StreamEvent
snapshot r = r.buffer

unfoldable pub finished_at : ℕ → ℕ → Run → Bool
finished_at now ttl r = r.done && ltb ttl (now - r.done_at)

abbrev pub remove_sub : ℕ → List Subscriber → List Subscriber
remove_sub n [] = []
remove_sub n (sub ∷ subs) = if sub.id == n then subs else sub ∷ remove_sub n subs

-- `Manager.Start` before its loop.
unfoldable pub new_run : Text → List Text → Run
new_run id sites = record {
  id = id;
  sites = sites;
  seq = 0;
  buffer = [];
  subs = [];
  sending = [];
  pending = [];
  done = false;
  done_at = 0;
}

abbrev pub job_id_of : Text → Text → Text
job_id_of run site = run ++ colon ∷ site

-- What the gateway answers for a site: no agent, a failed send, or a job under way.
pub data Dispatch : Type 0 where
  no_agent started_job : Dispatch
  send_failed : Text → Dispatch

abbrev pub report_error : Text → Text → Run → Run
report_error job message r =
    let s = emit (record { job_id = job; kind = error; payload = message }) r in
    record s { pending = delete job s.pending }

abbrev pub no_agent_message : Text → Text
no_agent_message site = codes "site " ++ (site ++ codes " has no connected agent")

-- One round of the loop of `Start`.
unfoldable pub start_site : Text → Dispatch → Run → Run
unfolding emit
start_site site d r =
    let job = job_id_of r.id site in
    let s = record r { pending = insert job true r.pending } in
    elim d [
      | no_agent ↦ report_error job (no_agent_message site) s
      | started_job ↦ s
      | send_failed message ↦ report_error job message s
    ]

abbrev pub start_sites : List (Text × Dispatch) → Run → Run
start_sites [] r = r
start_sites ((site, d) ∷ ds) r = start_sites ds (start_site site d r)

-- `Manager.Start`, with what the gateway answers for each site, while no event comes in.
unfoldable pub start : ℕ → Text → List (Text × Dispatch) → Run
unfolding start_site check_done new_run
start now id ds =
    check_done now (start_sites ds (new_run id (map (λ (d : Text × Dispatch). d.0) ds)))

-- The `cancel` that `Subscribe` returns.
unfoldable pub unsubscribe : ℕ → Run → Run
unsubscribe id r = record r { subs = remove_sub id r.subs }

-- Events come in, and sends go out.
pub data Step : Type 0 where
  emits : JobEvent → Step
  delivers : ℕ → Step

unfoldable pub step : Step → Run → Option Run
unfolding emit deliver
step (emits ev) r = some (emit ev r)
step (delivers i) r = deliver i r

abbrev pub and_then : Option Run → (Run → Option Run) → Option Run
and_then none k = none
and_then (some r) k = k r

abbrev pub steps : List Step → Run → Option Run
steps [] r = some r
steps (s ∷ ss) r = and_then (step s r) (λ t. steps ss t)

-- Events as the gateway hands them over, each with the time of it.
abbrev pub on_events : List (ℕ × JobEvent) → Run → Run
on_events [] r = r
on_events ((now, ev) ∷ evs) r = on_events evs (on_event now ev r)
