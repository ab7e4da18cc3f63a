-- ===== src/Citations.antt =====
-- scripts/check_citations.py: the citations of spec declarations by line span, and their check.
pub mod Patterns
pub mod Span
pub mod Collect
pub mod Main
pub mod Tests
