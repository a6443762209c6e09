-- ===== src/Retrieval.antt =====
-- graph/retrieval: the windows of a long text (text_window.py), what a caller may read (access.py)
-- and the neighbours that a search adds (expand.py).
pub mod Windows
pub mod Access
pub mod Expand
mod Tests
