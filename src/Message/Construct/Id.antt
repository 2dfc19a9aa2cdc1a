-- ===== src/Message/Construct/Id.antt =====
-- todo
