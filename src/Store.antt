-- ===== src/Store.antt =====
-- src/zippylog/store.hpp and store.cpp. `Path` has the static functions on store paths; `Backend`
-- is what a kind of store supplies (the pure virtual functions), `Contents` what `Store` builds on
-- it, `Simple` the directory store that fills it; `StreamName` and `Output` choose and keep the
-- streams that are written to; `Uri` opens a store.
pub mod Path
pub mod Backend
pub mod Contents
pub mod Simple
pub mod StreamName
pub mod Output
pub mod Uri
mod Examples
