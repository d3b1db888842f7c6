-- ===== src/HookChain.antt =====
-- src/agent/hook.rs: the chains of hooks. A hook is its methods on a state `S`, which holds the bus,
-- the hooks' own flags and whatever else they reach; `M` is the type of messages.
pub mod Consent
pub mod Withdrawal
use eventage_rs.Prelude.{
  ℕ, ◌+◌, ◌%◌, ◌==◌, String, Bool, not, List, [], ◌∷◌, ◌++◌, map, filter, length, is_empty,
}
use eventage_rs.Json.{Value}
use eventage_rs.Hook.{HookAction, Reason, proceed, skip, deny, abort_cycle}

pub record CycleHook (S M : Type 0) : Type 0 where
  pub before_step : S → HookAction × S
  pub before_llm : S × List M → HookAction × (S × List M)
  pub before_tool : String → Value → S → HookAction × S
  pub after_tool : String → Value → S → S

-- What the loop does with the action of one hook: only `proceed` goes on to the rest.
unfoldable pub go_on : {S : Type 0} → HookAction → S → HookAction × S → HookAction × S
go_on proceed s rest = rest
go_on skip s rest = (skip, s)
go_on abort_cycle s rest = (abort_cycle, s)
go_on (deny reason) s rest = (deny reason, s)

-- The loop over the hooks' methods.
unfoldable pub chain : {S : Type 0} → List (S → HookAction × S) → S → HookAction × S
chain [] s = (proceed, s)
chain (h ∷ hs) s = let (action, s') = h s in go_on action s' (chain hs s')

module _ {S M : Type 0} where
  unfoldable pub before_step : List (CycleHook S M) → S → HookAction × S
  before_step hooks s = chain (map (λ h. h.before_step) hooks) s

  unfoldable pub before_llm : List (CycleHook S M) → S × List M → HookAction × (S × List M)
  before_llm hooks s = chain (map (λ h. h.before_llm) hooks) s

  unfoldable pub before_tool : List (CycleHook S M) → String → Value → S → HookAction × S
  before_tool hooks name args s = chain (map (λ h. h.before_tool name args) hooks) s

  unfoldable pub after_tool : List (CycleHook S M) → String → Value → S → S
  after_tool [] name result s = s
  after_tool (h ∷ hooks) name result s = after_tool hooks name result (h.after_tool name result s)

abbrev pub u64_mod : ℕ
u64_mod = 0x1_0000_0000_0000_0000

pub record DynamicHookChain (H : Type 0) : Type 0 where
  pub hooks : List (ℕ × H)
  pub next_id : ℕ

module _ {H : Type 0} where
  abbrev pub empty_chain : DynamicHookChain H
  empty_chain = record { hooks = []; next_id = 0 }

  -- `fetch_add` wraps around.
  unfoldable pub add_arc : DynamicHookChain H → H → DynamicHookChain H × ℕ
  add_arc c h = (
    record { hooks = c.hooks ++ (c.next_id, h) ∷ []; next_id = (c.next_id + 1) % u64_mod },
    c.next_id,
  )

  unfoldable pub remove : DynamicHookChain H → ℕ → DynamicHookChain H × Bool
  remove c id =
      let hooks : List (ℕ × H) = filter (λ p. not (p.0 == id)) c.hooks in
      (record c { hooks = hooks }, not (length hooks == length c.hooks))

  unfoldable pub remove_all : DynamicHookChain H → DynamicHookChain H
  remove_all c = record c { hooks = [] }

  unfoldable pub add_all : DynamicHookChain H → List H → DynamicHookChain H
  add_all c [] = c
  add_all c (h ∷ hs) = add_all (add_arc c h).0 hs

  unfoldable pub replace_all : DynamicHookChain H → List H → DynamicHookChain H
  replace_all c hs = add_all (remove_all c) hs
