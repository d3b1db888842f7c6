-- ===== src/Strategy/React/Growth.antt =====
-- src/agent/strategy.rs, `ReactStrategy`: what a part of a cycle may add to the log.
use mathlib.Core.List.{append-nil}
use eventage_rs.Prelude.{
  ℕ, ◌≡◌, refl, sym, ◌∙◌, String, Bool, true, false, Option, none, some, List, [], ◌∷◌, ◌++◌,
  if◌then◌else◌,
}
use eventage_rs.Event.{Event, EventId}
use eventage_rs.Event.Kinds
use eventage_rs.Runtime.{Runtime}
use eventage_rs.Hook.{HookAction, proceed, skip, deny, abort_cycle}
use eventage_rs.Bus.{log, link}
use eventage_rs.Strategy.{World, emit}
use eventage_rs.Strategy.ToolCalls.Tickets.{
  Ticket, proposals, results, Ready, Adds, Adds-trans, emit-Adds,
}
use eventage_rs.Strategy.React.{
  Result, ok, err, StepOutcome, done, go_on, with_cached, if_proceed, after_step,
}

pub if_proceed-case {ℓ κ} :
    {A : Type ℓ} (P : A → Type κ) (action : HookAction) (a b : A)
    → P a
    → P b
    → P (if_proceed action a b)
if_proceed-case P proceed a b h k = h
if_proceed-case P skip a b h k = k
if_proceed-case P abort_cycle a b h k = k
if_proceed-case P (deny reason) a b h k = k

pub if-case {ℓ κ} :
    {A : Type ℓ} (P : A → Type κ) (b : Bool) (x y : A) → P x → P y → P (if b then x else y)
if-case P true x y h k = h
if-case P false x y h k = k

pub after_step-case {ℓ κ} :
    {W : Type ℓ} (P : Result Unit × W → Type κ) (o : Result StepOutcome) (w : W)
    (rest : Result Unit × W)
    → ((q : Result Unit) → P (q, w))
    → P rest
    → P (after_step o w rest)
after_step-case P (err e) w rest h k = h (err e)
after_step-case P (ok done) w rest h k = h (ok tt)
after_step-case P (ok go_on) w rest h k = k

module _ (rt : Runtime) (H : Type 0) (draw : ℕ → EventId) where
  -- Between two worlds the log grew by proposals and results that match one to one, in order.
  pub record Balanced (w w' : World rt H) : Type 0 where
    pub tickets : List Ticket
    pub grew : Adds rt H draw w w' tickets tickets

  pub Balanced-quiet : (w w' : World rt H) → Adds rt H draw w w' [] [] → Balanced w w'
  Balanced-quiet w w' a = record { tickets = []; grew = a }

  pub Balanced-trans : (w w' w'' : World rt H) → Balanced w w' → Balanced w' w'' → Balanced w w''
  Balanced-trans w w' w'' a b = record {
    tickets = a.tickets ++ b.tickets;
    grew = Adds-trans rt H draw w w' w'' a.tickets a.tickets b.tickets b.tickets a.grew b.grew;
  }

  pub Adds-step :
      (w : World rt H) (step : ℕ)
      → Ready rt H draw w
      → Adds rt H draw w (record w { step = step }) [] []
  Adds-step w step r = record {
    added = [];
    logged = sym (append-nil (log w.bus));
    proposed = refl;
    resulted = refl;
    ready = record { plain = r.plain; unused = r.unused };
  }

pub with_cached-id : (cached : Option ℕ) (e : Event) → (with_cached cached e).id ≡ e.id
with_cached-id none e = refl
with_cached-id (some c) e = refl

pub with_cached-kind : (cached : Option ℕ) (e : Event) → (with_cached cached e).kind ≡ e.kind
with_cached-kind none e = refl
with_cached-kind (some c) e = refl

module _ (rt : Runtime) (H : Type 0) (draw : ℕ → EventId) (now : ℕ) (agent_id trace_id : String)
    (injective : (j k : ℕ) → draw j ≡ draw k → j ≡ k) where
  pub emit_message :
      (w : World rt H) (make : EventId → Event)
      → (make (draw w.drawn)).id ≡ draw w.drawn
      → (make (draw w.drawn)).kind ≡ Kinds.assistant_message
      → Ready rt H draw w
      → Adds rt H draw w (emit rt H draw now agent_id trace_id w make) [] []
  emit_message w make named kind r =
      let a : Adds rt H draw w (emit rt H draw now agent_id trace_id w make)
          (proposals (link w.bus.store (make (draw w.drawn)) ∷ []))
          (results (link w.bus.store (make (draw w.drawn)) ∷ [])) =
        emit-Adds rt H draw now agent_id trace_id injective w make named r in
      record {
        added = a.added;
        logged = a.logged;
        proposed = a.proposed ∙ rw kind refl;
        resulted = a.resulted ∙ rw kind refl;
        ready = a.ready;
      }
