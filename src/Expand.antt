-- ===== src/Expand.antt =====
-- runex/src/domain/expand.rs: from a typed token to the text that replaces it. `Keys` matches a
-- rule's key, `Render` fills its template in, `Rules` scans the configuration; the other modules
-- describe what these do.
pub mod Keys
pub mod Render
pub mod Rules
pub mod Which
pub mod Captures
pub mod Rendering
pub mod Agreement
pub mod Priority
pub mod Firing
pub mod Listing
pub mod Blank
pub mod Pattern
pub mod Glob
pub mod Number
