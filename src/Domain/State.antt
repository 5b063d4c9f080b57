-- ===== src/Domain/State.antt =====
-- pkg/domain/state.go. A state that is read back from a store is taken to be one of the seven.
use ovl.Base.{Bool, true, false}

pub data State : Type 0 where
  draft ready submitted synced pushed remarked invalidated : State

-- `r.State == StateDraft || r.State == StateReady`, which the callers test.
abbrev pub is_editable : State → Bool
is_editable draft = true
is_editable ready = true
is_editable _ = false

-- `InChain`
unfoldable pub in_chain : State → Bool
in_chain draft = false
in_chain ready = false
in_chain _ = true

abbrev pub is_invalidated_state : State → Bool
is_invalidated_state invalidated = true
is_invalidated_state _ = false
