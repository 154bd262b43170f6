-- ===== src/Tests/Requests.antt =====
-- Process 1 misses message 1 of process 2, and asks it.
