-- ===== src/Core/Exception.antt =====
-- crates/rv64-core/src/exception.rs.
use lish.Prelude.{ℕ}

pub data Exception : Type 0 where
  instruction_address_misaligned : ℕ → Exception
  instruction_access_fault : ℕ → Exception
  illegal_instruction : ℕ → Exception
  breakpoint : Exception
  load_address_misaligned : ℕ → Exception
  load_access_fault : ℕ → Exception
  store_address_misaligned : ℕ → Exception
  store_access_fault : ℕ → Exception
  environment_call_from_u_mode : Exception
  environment_call_from_s_mode : Exception
  environment_call_from_m_mode : Exception
  instruction_page_fault : ℕ → Exception
  load_page_fault : ℕ → Exception
  store_page_fault : ℕ → Exception

-- `Result<A, Exception>`.
pub data Result {ℓ} (A : Type ℓ) : Type ℓ where
  ok : A → Result A
  err : Exception → Result A

-- The mcause code.
unfoldable pub cause : Exception → ℕ
cause (instruction_address_misaligned _) = 0
cause (instruction_access_fault _) = 1
cause (illegal_instruction _) = 2
cause breakpoint = 3
cause (load_address_misaligned _) = 4
cause (load_access_fault _) = 5
cause (store_address_misaligned _) = 6
cause (store_access_fault _) = 7
cause environment_call_from_u_mode = 8
cause environment_call_from_s_mode = 9
cause environment_call_from_m_mode = 11
cause (instruction_page_fault _) = 12
cause (load_page_fault _) = 13
cause (store_page_fault _) = 15
