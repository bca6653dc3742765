-- ===== src/Translator.antt =====
-- pkg/managerdriver/translator.go: from the intermediate representation to endpoints.
pub mod Ingresses
pub mod Mapping
pub mod Expressions
pub mod Weights
pub mod Endpoints
pub mod Rules
pub mod Routing
pub mod Assemble
