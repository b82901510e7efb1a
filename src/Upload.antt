-- ===== src/Upload.antt =====
-- babel/src/upload_job.rs: how the files of a node are mapped to the chunks of an archive, and how
-- these are uploaded. In Sources, Destinations and Reader a `Vec` that the source takes from its end
-- (`last_mut`, `pop`) is the list of its items from the last.
pub mod Destinations
pub mod Sources
pub mod Blueprint
pub mod Reader
pub mod Slots
pub mod Parallel
