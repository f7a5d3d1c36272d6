-- ===== src/Contracts.antt =====
-- packages/contracts: the types that the server, the web client and the desktop agent share.
pub mod Json
pub mod Task
pub mod Artifact
pub mod Resource
pub mod Protocol
pub mod Program
