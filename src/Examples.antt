-- ===== src/Examples.antt =====
-- A concrete runtime: a channel is a flag and the list of what was sent, an identifier is printed
-- as that many letters. The children run the development on small sessions.
mod Sessions
mod Policies
mod Workers
mod Burials
pub mod Cycles
mod Histories
mod Loops
mod Clearings
use Prim.Native.Char.{Char}
use Prim.Native.String.{String}
use eventage_rs.Prelude.{
  ℕ, zero, suc, ◌≡◌, refl, ap, sym, ◌≢◌, Bool, true, false, Option, none, some, List, [], ◌∷◌, ◌++◌,
  if◌then◌else◌,
}
use eventage_rs.Event.{Event, EventId}
use eventage_rs.Runtime.{Runtime, TrySend, sent, full, closed}

pub record Queue : Type 0 where
  pub open_end : Bool
  pub items : List Event

abbrev pub opened_queue : Queue
opened_queue = record { open_end = true; items = [] }

abbrev pub push : Queue → Event → Queue
push q e = record q { items = q.items ++ e ∷ [] }

abbrev pub send : Queue → Event → Option Queue
send q e = elim q.open_end [ true ↦ some (push q e) | false ↦ none ]

abbrev pub try_send : Queue → Event → TrySend Queue
try_send q e = elim q.open_end [ true ↦ sent (push q e) | false ↦ closed ]

abbrev pub unary : ℕ → String
unary zero = ""
unary (suc n) = String.◌∷◌ "i" (unary n)

abbrev pub letters : String → ℕ
letters String.[] = 0
letters (String.◌∷◌ c s) = suc (letters s)

pub letters-unary : (i : ℕ) → letters (unary i) ≡ i
letters-unary zero = refl
letters-unary (suc i) = ap suc (letters-unary i)

pub send_opened :
    (s : Queue) (e : Event)
    → s.open_end ≡ true
    → (s' : Queue) × (send s e ≡ some s') × (s'.open_end ≡ true) × (s'.items ≡ s.items ++ e ∷ [])
send_opened s e h = (push s e, rw h refl, h, refl)

handed : TrySend Queue → List Event
handed (sent q) = q.items
handed full = []
handed closed = []

sent_items :
    (o : Bool) (q q' : Queue) (e : Event)
    → (elim o [ true ↦ sent (push q e) | false ↦ closed ]) ≡ sent q'
    → q'.items ≡ q.items ++ e ∷ []
unfolding handed
sent_items true q q' e h = sym (ap handed h)
sent_items false q q' e h = cc

pub try_send_items :
    (q q' : Queue) (e : Event) → try_send q e ≡ sent q' → q'.items ≡ q.items ++ e ∷ []
try_send_items q q' e h = sent_items q.open_end q q' e h

still_open :
    (o : Bool) (q : Queue) → o ≡ true → (elim o [ true ↦ sent q | false ↦ closed ]) ≢ closed
still_open true q h k = cc
still_open false q h k = cc

pub try_send_opened : (s : Queue) (e : Event) → s.open_end ≡ true → try_send s e ≢ closed
try_send_opened s e h = still_open s.open_end (push s e) h

abbrev pub queues : Runtime
queues = record {
  Sender = Queue;
  unbounded_channel = opened_queue;
  channel = λ n. opened_queue;
  send = send;
  try_send = try_send;
  is_open = λ q. q.open_end;
  queued = λ q. q.items;
  to_string = unary;
  parse_str = λ s. some (letters s);
  unbounded_open = refl;
  unbounded_empty = refl;
  send_open = send_opened;
  send_closed = λ s e h. rw h refl;
  try_send_open = try_send_opened;
  try_send_closed = λ s e h. rw h refl;
  try_send_sent = try_send_items;
  parse-to_string = λ i. ap some (letters-unary i);
}
