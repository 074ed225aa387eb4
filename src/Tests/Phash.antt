-- ===== src/Tests/Phash.antt =====
-- Hashes of small pictures.
