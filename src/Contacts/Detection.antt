-- ===== src/Contacts/Detection.antt =====
-- src/contacts/detection: how contacts are found in a heatmap.
pub mod Cluster
pub mod Neutral
pub mod Detector
pub mod Maximas
pub mod Overlaps
pub mod Gaussian
pub mod Kernels
pub mod Fitting
