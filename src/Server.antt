-- ===== src/Server.antt =====
-- apps/server/src: the parts of the control plane, and the errors of shared/app-error.ts.
pub mod Maps
pub mod Sessions
pub mod Keys
pub mod Hub
pub mod Isolation
pub mod Resources
pub mod Tasks
mod Tests
use smart_form.Base.{String}

-- The details that an error may carry besides are not read by the code modelled here.
pub data AppError : Type 0 where
  validation_error : String → AppError
  not_found_error : String → String → AppError
  conflict_error : String → AppError
  forbidden_error : String → AppError
  plain_error : String → AppError
