-- ===== src/Epitaph.antt =====
-- src/eviction.rs: `EpitaphStrategy` and its background task. The bounded queue comes with
-- `EpitaphQueue`; the texts of ids, values and errors and the trimming of a text are arguments.
pub mod Drained
use Prim.Native.String.{◌++◌ as append_text}
use eventage_rs.Prelude.{
  ℕ, zero, suc, ◌+◌, ◌≡◌, ◌<◌, String, Bool, true, false, Option, none, some, List, [], ◌∷◌, ◌++◌,
  map, length, insert,
}
use eventage_rs.Json.{Value, null, boolean, number, text, array, object, end, field, nat_value}
use eventage_rs.Event.{Event, EventId}
use eventage_rs.Event
use eventage_rs.Event.Kinds
use eventage_rs.Message.{ChatMessage, system_message, user_message, LlmResponse}
use eventage_rs.Runtime.{Runtime}
use eventage_rs.Store.{BranchId, BranchData}
use eventage_rs.Bus.{Bus, publish}
use eventage_rs.Strategy.React.{Result, ok, err, AgentError, LlmProvider}

abbrev pub epitaph_queue_depth : ℕ
epitaph_queue_depth = 256

-- What the strategy takes from `tokio::sync::mpsc`: a bounded queue whose receiver stays alive. A
-- send fails only on a full queue, and the receiver takes the oldest.
pub record EpitaphQueue : Type 1 where
  pub Queue : Type 0
  pub channel : ℕ → Queue
  pub try_send : Queue → BranchData → Option Queue
  pub recv : Queue → Option (BranchData × Queue)
  pub waiting : Queue → List BranchData
  pub capacity : Queue → ℕ
  pub channel_empty : (n : ℕ) → waiting (channel n) ≡ []
  pub channel_capacity : (n : ℕ) → capacity (channel n) ≡ n
  pub try_send_room :
      (q : Queue) (b : BranchData)
      → length (waiting q) < capacity q
      → (q' : Queue) × (try_send q b ≡ some q')
  pub try_send_some :
      (q q' : Queue) (b : BranchData)
      → try_send q b ≡ some q'
      → (waiting q' ≡ waiting q ++ b ∷ []) × (capacity q' ≡ capacity q)
  pub recv_none : (q : Queue) → recv q ≡ none → waiting q ≡ []
  pub recv_some :
      (q q' : Queue) (b : BranchData)
      → recv q ≡ some (b, q')
      → (waiting q ≡ b ∷ waiting q') × (capacity q' ≡ capacity q)

abbrev pub non_empty_object : Value → Bool
non_empty_object (object end) = false
non_empty_object (object (field key v fs)) = true
non_empty_object null = false
non_empty_object (boolean b) = false
non_empty_object (number n) = false
non_empty_object (text t) = false
non_empty_object (array vs) = false

abbrev pub join_lines : List String → String
join_lines [] = ""
join_lines (l ∷ []) = l
join_lines (l ∷ m ∷ ls) = append_text l (append_text "\n" (join_lines (m ∷ ls)))

abbrev pub epitaph_prompt : String
epitaph_prompt =
    "You generate concise epitaphs for rejected agent execution branches. Given a chronological list of events from a failed or abandoned trajectory, write one or two sentences that capture what was attempted and why it failed or was abandoned. Be factual and brief — this summary will be stored as negative context to guide future attempts away from the same mistake."

module _ (rt : Runtime) (eq : EpitaphQueue) (H : Type 0) (draw : ℕ → EventId) (now : ℕ)
    (render : Value → String) (trim : String → String) (error_text : AgentError → String)
    (llm : LlmProvider H) where
  open rt use {to_string}
  open eq use {Queue, channel, try_send, recv}

  -- The strategy with the state of its task; `shared` is the state of the provider.
  pub record EpitaphStrategy : Type 0 where
    pub queue : Queue
    pub store : List (BranchId × String)
    pub bus : Option (Bus rt)
    pub shared : H
    pub drawn : ℕ

  abbrev pub new : H → EpitaphStrategy
  new shared = record {
    queue = channel epitaph_queue_depth;
    store = [];
    bus = none;
    shared = shared;
    drawn = 0;
  }

  -- The first bus attached wins.
  unfoldable pub publish_to : Bus rt → EpitaphStrategy → EpitaphStrategy
  publish_to b s = elim s.bus [ none ↦ record s { bus = some b } | some first ↦ s ]

  unfoldable pub on_evict : BranchData → EpitaphStrategy → EpitaphStrategy
  on_evict branch s = elim (try_send s.queue branch) [ none ↦ s | some q ↦ record s { queue = q } ]

  unfoldable pub event_line : Event → String
  event_line e = elim (non_empty_object e.payload) [
    | true ↦ append_text "[" (append_text e.kind (append_text "] " (render e.payload)))
    | false ↦ append_text "[" (append_text e.kind "]")
  ]

  abbrev pub parent_text : Option EventId → String
  parent_text none = "root"
  parent_text (some i) = to_string i

  unfoldable pub epitaph_messages : BranchData → List ChatMessage
  unfolding event_line
  epitaph_messages b =
      system_message epitaph_prompt
      ∷ user_message (
          append_text "Branch " (
            append_text (to_string b.id) (
              append_text " (diverged from " (
                append_text (parent_text b.parent_event_id)
                  (append_text "):\n\n" (join_lines (map event_line b.events)))))))
      ∷ []

  abbrev pub summary_or : BranchId → Option String → String
  summary_or i (some s) = trim s
  summary_or i none = append_text "Branch " (append_text (to_string i) " — no summary generated.")

  abbrev pub epitaph_of : BranchId → Result LlmResponse → String
  epitaph_of i (ok response) = summary_or i response.content
  epitaph_of i (err e) =
      append_text "Branch "
        (append_text (to_string i) (append_text " — epitaph generation failed: " (error_text e)))

  unfoldable pub generate_epitaph : BranchData → H → String × H
  unfolding epitaph_messages
  generate_epitaph b shared =
      let (answer, shared') = llm.complete (epitaph_messages b) [] shared in
      (epitaph_of b.id answer, shared')

  abbrev pub epitaph_event : EventId → BranchData → String → Event
  epitaph_event id b epitaph = Event.new id now Kinds.system_epitaph (
      object (
        field "branch_id" (text (to_string b.id))
          (field "events_lost" (nat_value (length b.events)) (field "epitaph" (text epitaph) end))))

  -- Only with a bus, and before the map has the epitaph.
  abbrev pub publish_epitaph : BranchData → String → EpitaphStrategy → EpitaphStrategy
  publish_epitaph b epitaph s = elim s.bus [
    | none ↦ s
    | some bus ↦ record s {
      bus = some (publish rt bus (epitaph_event (draw s.drawn) b epitaph));
      drawn = suc s.drawn;
    }
  ]

  unfoldable pub bury : BranchData → EpitaphStrategy → EpitaphStrategy
  unfolding generate_epitaph
  bury b s =
      let (epitaph, shared) = generate_epitaph b s.shared in
      let s' = publish_epitaph b epitaph (record s { shared = shared }) in
      record s' { store = insert b.id epitaph s'.store }

  -- One round of the task; with an empty queue it waits.
  unfoldable pub epitaph_task : EpitaphStrategy → EpitaphStrategy
  unfolding bury
  epitaph_task s = elim (recv s.queue) [ none ↦ s | some (b, q) ↦ bury b (record s { queue = q }) ]

  -- What happens to a strategy in the course of time.
  pub data Happening : Type 0 where
    evicts : BranchData → Happening
    attaches : Bus rt → Happening
    rounds : Happening

  abbrev pub happen : Happening → EpitaphStrategy → EpitaphStrategy
  happen (evicts b) s = on_evict b s
  happen (attaches b) s = publish_to b s
  happen rounds s = epitaph_task s

  abbrev pub run : List Happening → EpitaphStrategy → EpitaphStrategy
  run [] s = s
  run (h ∷ hs) s = run hs (happen h s)

  abbrev pub drain : ℕ → EpitaphStrategy → EpitaphStrategy
  drain zero s = s
  drain (suc n) s = drain n (epitaph_task s)
