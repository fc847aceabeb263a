-- ===== src/Nmt/State/Codes.antt =====
-- The wire codes of the NMT states and of the NMT commands.
use powerlink_rs.Common.{ℕ, ◌≡◌, refl, ◌↔◌, ok, arith}
use powerlink_rs.Nmt.State.{
  NodeType, NmtState, state_code, state_try_from, state_from_u8_with_context,
}
use powerlink_rs.Nmt.Event.{
  NmtStateCommand, state_command_code, state_command_try_from, NmtManagingCommand,
  managing_command_code, managing_command_try_from, NmtServiceRequest, service_request_code,
  service_request_try_from,
}

-- A byte reads as a state exactly when it is the code of that state: no two states share a code,
-- every state can be read back, and no other byte is taken.
pub state_try_from_iff : (v : ℕ) (s : NmtState) → (state_try_from v ≡ ok s) ↔ (state_code s ≡ v)
unfolding state_try_from state_code
state_try_from_iff v s = (λ h. ground arith, λ h. ground arith)

pub state_try_from-code : (s : NmtState) → state_try_from (state_code s) ≡ ok s
state_try_from-code s = (state_try_from_iff (state_code s) s).1 refl

-- Whatever the node type is, a byte is read in context as it is read without.
pub state_from_u8_with_context-eq-state_try_from :
    (v : ℕ) (t : NodeType) → state_from_u8_with_context v t ≡ state_try_from v
unfolding state_from_u8_with_context state_try_from
state_from_u8_with_context-eq-state_try_from v t = ground arith

-- A byte reads as a state command, a managing command or a service request exactly when it is
-- the code of that command or request.
pub command_try_from_iff :
    (v : ℕ)
    → ((c : NmtStateCommand) → (state_command_try_from v ≡ ok c) ↔ (state_command_code c ≡ v))
      × ((c : NmtManagingCommand)
          → (managing_command_try_from v ≡ ok c) ↔ (managing_command_code c ≡ v))
      × ((c : NmtServiceRequest)
          → (service_request_try_from v ≡ ok c) ↔ (service_request_code c ≡ v))
unfolding state_command_try_from state_command_code managing_command_try_from managing_command_code
    service_request_try_from service_request_code
command_try_from_iff v = (
  λ c. (λ h. ground arith, λ h. ground arith),
  λ c. (λ h. ground arith, λ h. ground arith),
  λ c. (λ h. ground arith, λ h. ground arith),
)
