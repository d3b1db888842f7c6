-- ===== src/Event/Kinds.antt =====
-- src/event.rs, `kinds`: the names of the event kinds.
use eventage_rs.Prelude.{String}

abbrev pub user_message : String
user_message = "user.message"

abbrev pub assistant_message : String
assistant_message = "assistant.message"

abbrev pub tool_call_proposed : String
tool_call_proposed = "tool.call.proposed"

abbrev pub tool_result : String
tool_result = "tool.result"

abbrev pub system_heartbeat : String
system_heartbeat = "system.heartbeat"

abbrev pub system_message : String
system_message = "system.message"

abbrev pub agent_cycle_start : String
agent_cycle_start = "agent.cycle.start"

abbrev pub agent_cycle_end : String
agent_cycle_end = "agent.cycle.end"

abbrev pub checkpoint : String
checkpoint = "system.checkpoint"

abbrev pub branch_sealed : String
branch_sealed = "system.branch_sealed"

abbrev pub system_rollback : String
system_rollback = "system.rollback"

abbrev pub system_pruned : String
system_pruned = "system.pruned"

abbrev pub system_epitaph : String
system_epitaph = "system.epitaph"

abbrev pub system_plugins : String
system_plugins = "system.plugins"

abbrev pub agent_message : String
agent_message = "agent.message"

abbrev pub agent_spawned : String
agent_spawned = "agent.spawned"

abbrev pub agent_completed : String
agent_completed = "agent.completed"

abbrev pub agent_stuck : String
agent_stuck = "agent.stuck"

abbrev pub agent_context_summarized : String
agent_context_summarized = "agent.context.summarized"

abbrev pub context_assembled : String
context_assembled = "agent.context.assembled"

abbrev pub context_audit_requested : String
context_audit_requested = "agent.context.audit.requested"

abbrev pub context_audit_result : String
context_audit_result = "agent.context.audit.result"

abbrev pub llm_request : String
llm_request = "llm.request"

abbrev pub llm_response : String
llm_response = "llm.response"

abbrev pub assistant_delta : String
assistant_delta = "assistant.delta"

abbrev pub permission_request : String
permission_request = "permission.request"

abbrev pub permission_decision : String
permission_decision = "permission.decision"

abbrev pub budget_warning : String
budget_warning = "budget.warning"

abbrev pub budget_exhausted : String
budget_exhausted = "budget.exhausted"

abbrev pub mcp_elicitation_request : String
mcp_elicitation_request = "mcp.elicitation.request"

abbrev pub mcp_elicitation_response : String
mcp_elicitation_response = "mcp.elicitation.response"

abbrev pub mcp_tools_changed : String
mcp_tools_changed = "mcp.tools.changed"

abbrev pub system_recovered : String
system_recovered = "system.recovered"
