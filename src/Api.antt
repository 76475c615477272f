-- ===== src/Api.antt =====
-- The decisions of api/ that do not depend on its framework.
pub mod Comments
pub mod Resource
pub mod Vomit
pub mod Validation
pub mod Json
pub mod Requests
pub mod Answers
pub mod Welcome
