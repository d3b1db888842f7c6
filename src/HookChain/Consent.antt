-- ===== src/HookChain/Consent.antt =====
-- A chain lets an operation go ahead only if each of its hooks does (src/agent/hook.rs, `HookChain`).
use eventage_rs.Prelude.{◌≡◌, refl, sym, ap, ◌∙◌, List, [], ◌∷◌, ◌++◌}
use eventage_rs.Hook.{HookAction, proceed, skip, deny, abort_cycle}
use eventage_rs.HookChain.{chain, go_on}

module _ {S : Type 0} where
  go_on-proceed :
      (a : HookAction) (s : S) (rest : HookAction × S)
      → (go_on a s rest).0 ≡ proceed
      → (a ≡ proceed) × (rest.0 ≡ proceed)
  unfolding go_on
  go_on-proceed proceed s rest h = (refl, h)
  go_on-proceed skip s rest h = absurd cc
  go_on-proceed abort_cycle s rest h = absurd cc
  go_on-proceed (deny reason) s rest h = absurd cc

  go_on-state :
      (a : HookAction) (s : S) (rest : HookAction × S) → a ≡ proceed → go_on a s rest ≡ rest
  unfolding go_on
  go_on-state a s rest h = rw h refl

  -- If a chain goes ahead, then the hooks before any place of it, the hook at that place and the
  -- hooks after it all did, each on the state that those before it left; the state at the end is
  -- the last one's.
  pub chain-consent :
      (before : List (S → HookAction × S)) (h : S → HookAction × S)
      (later : List (S → HookAction × S)) (s : S)
      → (chain (before ++ h ∷ later) s).0 ≡ proceed
      → ((chain before s).0 ≡ proceed)
        × ((h (chain before s).1).0 ≡ proceed)
        × (chain (before ++ h ∷ later) s ≡ chain later (h (chain before s).1).1)
  unfolding chain
  chain-consent [] h later s ahead =
      let (agreed, rest) = go_on-proceed (h s).0 (h s).1 (chain later (h s).1) ahead in
      (refl, agreed, go_on-state (h s).0 (h s).1 (chain later (h s).1) agreed)
  chain-consent (b ∷ before) h later s ahead =
      let s' : S = (b s).1 in
      let (agreed, rest) = go_on-proceed (b s).0 s' (chain (before ++ h ∷ later) s') ahead in
      let (first, here, final) = chain-consent before h later s' rest in
      let front : chain (b ∷ before) s ≡ chain before s' =
        go_on-state (b s).0 s' (chain before s') agreed in
      (
        ap (λ r. r.0) front ∙ first,
        ap (λ r. (h r.1).0) front ∙ here,
        go_on-state (b s).0 s' (chain (before ++ h ∷ later) s') agreed
            ∙ final
            ∙ ap (λ r. chain later (h r.1).1) (sym front),
      )
