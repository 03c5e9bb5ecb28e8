-- ===== src/Transfer.antt =====
-- internal/filetransfer: files that are sent in slices and verified before they are stored.
pub mod Names
pub mod Receiver
pub mod Sender
