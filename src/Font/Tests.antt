-- ===== src/Font/Tests.antt =====
-- The theorem on fonts, where numbers are printed in unary.
