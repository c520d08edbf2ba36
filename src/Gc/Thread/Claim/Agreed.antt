-- ===== src/Gc/Thread/Claim/Agreed.antt =====
-- The threads that claim an object agree on its copy.
