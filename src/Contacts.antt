-- ===== src/Contacts.antt =====
-- src/contacts: the contacts of the touchscreen, how they are found, and how they change over time.
pub mod Convolution
pub mod Contact
pub mod Detection
pub mod Validation
pub mod Stability
pub mod Tracking
pub mod Finder
