-- ===== src/Lint.antt =====
-- tools/oxlint/anti-slop: the parts of the lint rules that several rules share.
pub mod Scopes
pub mod Aliases
pub mod Rules
pub mod Dictionaries
