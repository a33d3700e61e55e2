-- ===== src/Budget.antt =====
-- The daily ceilings on what the calls of the models cost (src/gemini/budget.ts).
mod Cache
mod Window
mod Refused
mod Races
mod Examples
