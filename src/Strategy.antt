-- ===== src/Strategy.antt =====
-- src/agent/strategy.rs and src/agent/tool.rs: what a cycle works with. `H` is the state that hooks,
-- tools and the provider share; the ids of new events are drawn in order from `draw`. The children
-- have the execution of tool calls and the strategies.
pub mod ToolCalls
pub mod React
use Prim.Native.String.{◌++◌ as append_text}
use eventage_rs.Prelude.{
  ℕ, suc, ◌-◌, String, Bool, true, false, not, Option, none, some, List, [], ◌∷◌, ◌++◌, map, filter,
  find, any, length, drop, is_empty, is_some, if◌then◌else◌, str_eq,
}
use eventage_rs.Json.{Value, text}
use eventage_rs.Event.{Event, EventId, with_meta}
use eventage_rs.Event
use eventage_rs.Event.MetaKeys
use eventage_rs.Runtime.{Runtime}
use eventage_rs.Bus.{EventBus, Bus, publish, all_rejected_branches}
use eventage_rs.Recovery.{Outcome}

-- How the task of one tool call ends; `took` is its running time in milliseconds.
pub data TaskEnd : Type 0 where
  took : ℕ → Outcome → TaskEnd
  panicked : TaskEnd

-- `execute` runs on the shared state and may change it, also when its task fails, panics or is
-- dropped by the time limit; what it gives depends on that state.
pub record Tool (H : Type 0) : Type 0 where
  pub name : String
  pub description : String
  pub parameters : Value
  pub is_terminal : Bool
  pub execute : Value → H → TaskEnd × H

-- `HashMap<String, Arc<dyn Tool>>`, one tool for each name.
abbrev pub ToolRegistry : Type 0 → Type 0
ToolRegistry H = List (Tool H)

unfoldable pub remove : {H : Type 0} → ToolRegistry H → String → ToolRegistry H × Bool
remove tools name =
    (filter (λ t. not (str_eq t.name name)) tools, is_some (find (λ t. str_eq t.name name) tools))

unfoldable pub register : {H : Type 0} → ToolRegistry H → Tool H → ToolRegistry H
unfolding remove
register tools tool = (remove tools tool.name).0 ++ tool ∷ []

abbrev pub clear : {H : Type 0} → ToolRegistry H → ToolRegistry H
clear tools = []

unfoldable pub names : {H : Type 0} → ToolRegistry H → List String
names tools = map (λ t. t.name) tools

unfoldable pub get_tool : {H : Type 0} → ToolRegistry H → String → Option (Tool H)
get_tool tools name = find (λ t. str_eq t.name name) tools

-- `sort_by` on the names, with `before` the order of texts.
abbrev pub insert_sorted :
    {H : Type 0} → (String → String → Bool) → Tool H → List (Tool H) → List (Tool H)
insert_sorted before tool [] = tool ∷ []
insert_sorted before tool (t ∷ ts) =
    let rest = insert_sorted before tool ts in
    if before t.name tool.name then t ∷ rest else tool ∷ t ∷ ts

unfoldable pub definitions :
    {H : Type 0} → (String → String → Bool) → ToolRegistry H → List (Tool H)
definitions before [] = []
definitions before (t ∷ ts) = insert_sorted before t (definitions before ts)

-- `KeywordToolSelector`, with `has_part` the search of a text in a text.
unfoldable pub select_by_keywords :
    {H : Type 0} → (String → String → Bool) → List String → List (Tool H) → List (Tool H)
select_by_keywords has_part keywords tools =
    filter (λ t. any (λ kw. has_part t.name kw) keywords) tools

pub record ToolExecOptions : Type 0 where
  pub max_concurrent : ℕ
  pub timeout : Option ℕ
  pub max_result_chars : Option ℕ
  pub validate_args : Bool

abbrev pub default_options : ToolExecOptions
default_options = record {
  max_concurrent = 4;
  timeout = some 300_000;
  max_result_chars = some 30_000;
  validate_args = true;
}

abbrev pub max_rejected_branches_in_context : ℕ
max_rejected_branches_in_context = 3

module _ (rt : Runtime) (H : Type 0) where
  -- `step` is the step of the hook context, `drawn` the number of ids drawn so far.
  pub record World : Type 0 where
    pub bus : Bus rt
    pub shared : H
    pub step : ℕ
    pub drawn : ℕ

unfoldable pub recent_rejected_branches : {S : Type 0} → EventBus S → List (List Event)
recent_rejected_branches b =
    let branches : List (List Event) =
      filter (λ events. not (is_empty events))
        (map (λ branch. branch.1) (all_rejected_branches b)) in
    drop (length branches - max_rejected_branches_in_context) branches

module _ (rt : Runtime) (H : Type 0) (draw : ℕ → EventId) (now : ℕ)
    (agent_id trace_id : String) where
  -- `ctx.event`.
  abbrev pub event : EventId → String → Value → Event
  event id kind payload =
      with_meta (with_meta (Event.new id now kind payload) MetaKeys.agent_id (text agent_id))
        MetaKeys.trace_id (text trace_id)

  -- The publication of an event built on the next id.
  unfoldable pub emit : World rt H → (EventId → Event) → World rt H
  emit w make = record w { bus = publish rt w.bus (make (draw w.drawn)); drawn = suc w.drawn }
