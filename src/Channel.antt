-- ===== src/Channel.antt =====
-- src/bus.rs, the subscriptions: the sending halves that the bus keeps, and the fan-out.
use eventage_rs.Prelude.{Bool, true, false, none, some, List, [], ◌∷◌}
use eventage_rs.Event.{Event}
use eventage_rs.Runtime.{Runtime, sent, full, closed}

pub data SenderInner (S : Type 0) : Type 0 where
  unbounded : S → SenderInner S
  bounded : S → SenderInner S

module _ (rt : Runtime) where
  open rt use {Sender, send, try_send}

  -- `false` if the receiver has dropped; a full bounded queue loses the event.
  unfoldable pub try_deliver : SenderInner Sender → Event → Bool × SenderInner Sender
  try_deliver (unbounded tx) e = elim (send tx e) [
    | none ↦ (false, unbounded tx)
    | some tx' ↦ (true, unbounded tx')
  ]
  try_deliver (bounded tx) e = elim (try_send tx e) [
    | sent tx' ↦ (true, bounded tx')
    | full ↦ (true, bounded tx)
    | closed ↦ (false, bounded tx)
  ]

  unfoldable pub keep_delivered :
      Bool × SenderInner Sender → List (SenderInner Sender) → List (SenderInner Sender)
  keep_delivered (true, tx) rest = tx ∷ rest
  keep_delivered (false, tx) rest = rest

  -- `subs.retain(|tx| tx.try_deliver(event.clone()))`.
  unfoldable pub fan_out : List (SenderInner Sender) → Event → List (SenderInner Sender)
  fan_out [] e = []
  fan_out (tx ∷ subs) e = keep_delivered (try_deliver tx e) (fan_out subs e)
