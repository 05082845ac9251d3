-- ===== src/Daemon/Touch.antt =====
-- `TouchDevice` of src/apps/daemon/touch.hpp. A `std::set` of indices is an ascending list.
pub mod Defs
pub mod Emits
pub mod Process
pub mod Lifts
pub mod Single
