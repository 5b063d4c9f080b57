-- ===== src/Vessel.antt =====
-- What runs aboard: the handlers that change a report (vessel/httpapi), the locks, the tables of the
-- vessel, the outbox, the inbox and the upload of attachments.
pub mod Handlers
pub mod Locks
pub mod Outbox
pub mod Upload
pub mod Inbox
pub mod Store
pub mod Sync
pub mod Cascade
