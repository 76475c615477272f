-- ===== src/Scum.antt =====
-- The markup library of the folder scum.
pub mod Issue
pub mod Warnings
pub mod Search
pub mod Tag
pub mod Dictionary
pub mod Utf8
pub mod Token
pub mod Checks
pub mod Steps
pub mod Plan
pub mod Actions
pub mod Tokenizer
pub mod Ast
pub mod State
pub mod Parser
pub mod Serialization
pub mod Codenames
