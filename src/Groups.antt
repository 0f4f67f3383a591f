-- ===== src/Groups.antt =====
-- internal/groups: actions on WhatsApp groups, the classification of their errors, and photos.
pub mod Errors
pub mod Orientation
pub mod Phones
pub mod Service
