-- ===== src/KBucket.antt =====
-- src/kbucket/kbucket.hpp: `contact_actions` and the class template `KBucket`.
pub mod Distance
pub mod Contacts
pub mod Valid
pub mod Erase
pub mod Kontakt
pub mod Metric
mod Tests
