-- ===== src/Sml.antt =====
-- The markup of the posts, in sml/.
pub mod Eater
pub mod Link
pub mod SafeLinks
pub mod KeptLinks
pub mod Render
pub mod CleanHtml
