-- ===== src/Captures.antt =====
-- The capture list of src/web/app.js: the names of captures and the references made of them
-- (`Names`), the box that narrows the list down (`Search`), and the captures picked out to be opened
-- as one (`Picking`).
pub mod Names
pub mod Picking
pub mod Listing
pub mod Search
pub mod Touch
pub mod Upload
pub mod Moments
