-- ===== src/Strategy/ToolCalls/Tickets.antt =====
-- src/agent/strategy.rs, `execute_tools`: the log as proposals and results, and how it grows.
use mathlib.Core.List.{append_assoc, append-nil}
use eventage_rs.Prelude.{
  ℕ, ◌≤◌, ◌≡◌, refl, ap, ap₂, sym, subst, ◌∙◌, String, false, Option, none, some, List, [], ◌∷◌,
  ◌++◌, filter_map, filter_map-append, contains, contains-append, arith, str_eq, if◌then◌else◌,
}
use eventage_rs.Event.{Event, EventId}
use eventage_rs.Event.Kinds
use eventage_rs.Runtime.{Runtime}
use eventage_rs.Bus.{log, publish, link, append, transform}
use eventage_rs.Bus.Rollback.{log-publish}
use eventage_rs.Recovery.{str_field}
use eventage_rs.Strategy.{World, emit}

-- A call as the log shows it: its id, and the event that proposed it.
abbrev pub Ticket : Type 0
Ticket = Option String × Option EventId

abbrev pub proposal_of : Event → Option Ticket
proposal_of e =
    if str_eq e.kind Kinds.tool_call_proposed
    then some (str_field e "tool_call_id", some e.id)
    else none

abbrev pub result_of : Event → Option Ticket
result_of e =
    if str_eq e.kind Kinds.tool_result
    then some (str_field e "tool_call_id", e.parent_event_id)
    else none

-- The proposals and the results of a log, in order.
abbrev pub proposals : List Event → List Ticket
proposals events = filter_map proposal_of events

abbrev pub results : List Event → List Ticket
results events = filter_map result_of events

module _ (rt : Runtime) (H : Type 0) (draw : ℕ → EventId) where
  -- The bus has no transforms, and the ids still to be drawn are not in its log.
  pub record Ready (w : World rt H) : Type 0 where
    pub plain : w.bus.transforms ≡ []
    pub unused : (j : ℕ) → w.drawn ≤ j → contains w.bus.store.active_path (draw j) ≡ false

  -- Between two worlds the log grew, by these proposals and these results.
  pub record Adds (w w' : World rt H) (ps rs : List Ticket) : Type 0 where
    pub added : List Event
    pub logged : log w'.bus ≡ log w.bus ++ added
    pub proposed : proposals added ≡ ps
    pub resulted : results added ≡ rs
    pub ready : Ready w'

  pub Adds-nil : (w : World rt H) → Ready w → Adds w w [] []
  Adds-nil w r = record {
    added = [];
    logged = sym (append-nil (log w.bus));
    proposed = refl;
    resulted = refl;
    ready = r;
  }

  -- The log does not say what the shared state is.
  pub Adds-shared :
      (w : World rt H) (shared : H) → Ready w → Adds w (record w { shared = shared }) [] []
  Adds-shared w shared r = record {
    added = [];
    logged = sym (append-nil (log w.bus));
    proposed = refl;
    resulted = refl;
    ready = record { plain = r.plain; unused = r.unused };
  }

  pub Adds-trans :
      (w w' w'' : World rt H) (ps rs ps' rs' : List Ticket)
      → Adds w w' ps rs
      → Adds w' w'' ps' rs'
      → Adds w w'' (ps ++ ps') (rs ++ rs')
  Adds-trans w w' w'' ps rs ps' rs' a b = record {
    added = a.added ++ b.added;
    logged = b.logged ∙ ap (λ l. l ++ b.added) a.logged ∙ append_assoc (log w.bus) a.added b.added;
    proposed = filter_map-append proposal_of a.added b.added ∙ ap₂ ◌++◌ a.proposed b.proposed;
    resulted = filter_map-append result_of a.added b.added ∙ ap₂ ◌++◌ a.resulted b.resulted;
    ready = b.ready;
  }

module _ (rt : Runtime) (H : Type 0) (draw : ℕ → EventId) (now : ℕ) (agent_id trace_id : String)
    (injective : (j k : ℕ) → draw j ≡ draw k → j ≡ k) where
  -- An event on the next id is appended, and the world is ready for one more.
  pub emit-Adds :
      (w : World rt H) (make : EventId → Event)
      → (make (draw w.drawn)).id ≡ draw w.drawn
      → Ready rt H draw w
      → Adds rt H draw w
          (emit rt H draw now agent_id trace_id w make)
          (proposals (link w.bus.store (make (draw w.drawn)) ∷ []))
          (results (link w.bus.store (make (draw w.drawn)) ∷ []))
  unfolding emit publish append
  emit-Adds w make named r =
      let none_given : transform w.bus.transforms (make (draw w.drawn)) ≡ make (draw w.drawn) =
        rw (r.plain) refl in
      record {
        added = link w.bus.store (make (draw w.drawn)) ∷ [];
        logged =
            subst
              (λ t.
                log (publish rt w.bus (make (draw w.drawn))) ≡ log w.bus ++ link w.bus.store t ∷ [])
              none_given
              (log-publish rt w.bus (make (draw w.drawn))
                (rw none_given (rw named (r.unused w.drawn (omega arith)))));
        proposed = refl;
        resulted = refl;
        ready = record {
          plain = r.plain;
          unused = λ j h. rw none_given (
              rw named (
                rw (contains-append w.bus.store.active_path (draw w.drawn ∷ []) (draw j)) (
                  rw (r.unused j (omega arith))
                    (ground (arith, λ (q : draw j ≡ draw w.drawn). injective j w.drawn q)))));
        };
      }
