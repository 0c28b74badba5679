-- ===== src/Process/Probe.antt =====
-- x
