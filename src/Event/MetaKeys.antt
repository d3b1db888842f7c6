-- ===== src/Event/MetaKeys.antt =====
-- src/event.rs, `meta_keys`: the standard metadata keys.
use eventage_rs.Prelude.{String}

abbrev pub agent_id : String
agent_id = "agent_id"

abbrev pub trace_id : String
trace_id = "trace_id"

abbrev pub to_agent_id : String
to_agent_id = "to_agent_id"

abbrev pub elapsed_ms : String
elapsed_ms = "elapsed_ms"

abbrev pub llm_input_tokens : String
llm_input_tokens = "llm_input_tokens"

abbrev pub llm_output_tokens : String
llm_output_tokens = "llm_output_tokens"

abbrev pub llm_cached_input_tokens : String
llm_cached_input_tokens = "llm_cached_input_tokens"

abbrev pub llm_estimated_input_tokens : String
llm_estimated_input_tokens = "llm_estimated_input_tokens"

abbrev pub ephemeral : String
ephemeral = "ephemeral"
