-- ===== src/Tests.antt =====
-- Runs of the models on concrete data, with numbers in place of `f64`.
pub mod Numbers
pub mod Reads
pub mod Descriptors
pub mod Frames
pub mod Images
pub mod Devices
pub mod Contacts
pub mod Setup
pub mod Tracking
pub mod Convolution
pub mod Dft
pub mod Clusters
pub mod Detection
pub mod Rows
pub mod Fitting
pub mod Nodes
pub mod Runs
pub mod Loading
