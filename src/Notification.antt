-- ===== src/Notification.antt =====
-- pkg/notification: the mailer (email) and the push notifications (firebase).
pub mod Email
pub mod Firebase
