-- ===== src/Runtime.antt =====
-- What the crate takes from `tokio::sync::mpsc` and from `uuid`, as an interface: the model's
-- functions have it as an argument, and the laws are the documented behaviour of those crates.
use eventage_rs.Prelude.{
  ℕ, String, ◌≡◌, ◌≢◌, Bool, true, false, Option, none, some, List, [], ◌∷◌, ◌++◌,
}
use eventage_rs.Event.{Event, EventId}

-- The results of `Sender::try_send`.
pub data TrySend (S : Type 0) : Type 0 where
  sent : S → TrySend S
  full : TrySend S
  closed : TrySend S

-- `Sender` is the sending half of a channel with what its receiver has been handed so far.
pub record Runtime : Type 1 where
  pub Sender : Type 0
  pub unbounded_channel : Sender
  pub channel : ℕ → Sender
  pub send : Sender → Event → Option Sender
  pub try_send : Sender → Event → TrySend Sender
  pub is_open : Sender → Bool
  pub queued : Sender → List Event
  pub to_string : EventId → String
  pub parse_str : String → Option EventId
  -- A new channel is open and empty.
  pub unbounded_open : is_open unbounded_channel ≡ true
  pub unbounded_empty : queued unbounded_channel ≡ []
  -- An unbounded send fails only on a dropped receiver, and otherwise appends.
  pub send_open :
      (s : Sender) (e : Event)
      → is_open s ≡ true
      → (s' : Sender) × (send s e ≡ some s')
        × (is_open s' ≡ true)
        × (queued s' ≡ queued s ++ e ∷ [])
  pub send_closed : (s : Sender) (e : Event) → is_open s ≡ false → send s e ≡ none
  -- A bounded send to a live receiver is accepted or reported as full, never as closed.
  pub try_send_open : (s : Sender) (e : Event) → is_open s ≡ true → try_send s e ≢ closed
  pub try_send_closed : (s : Sender) (e : Event) → is_open s ≡ false → try_send s e ≡ closed
  pub try_send_sent :
      (s s' : Sender) (e : Event) → try_send s e ≡ sent s' → queued s' ≡ queued s ++ e ∷ []
  -- A printed identifier parses back.
  pub parse-to_string : (i : EventId) → parse_str (to_string i) ≡ some i
