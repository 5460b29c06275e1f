-- ===== src/Operator.antt =====
-- The operator's page, operator/internal/ui/web/app.js: one word of the search (`Fuzzy`), the
-- letters it marks in a row (`Marks`), the list of pods with what a search leaves of it and what is
-- captured of that (`Pods`), the websharks and the cards of captures (`Cards`), and the polling that keeps them
-- (`Polling`).
pub mod Cards
pub mod Fuzzy
pub mod Marks
pub mod Pods
pub mod Polling
