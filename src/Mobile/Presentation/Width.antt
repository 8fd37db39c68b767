-- ===== src/Mobile/Presentation/Width.antt =====
-- The width of the terminal's grid.
