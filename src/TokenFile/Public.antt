-- ===== src/TokenFile/Public.antt =====
-- What the public file of the machine token may hold.
