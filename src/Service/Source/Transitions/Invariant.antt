-- ===== src/Service/Source/Transitions/Invariant.antt =====
-- telemetry/service.py: whatever its threads do, the service keeps to the diagram of its states.
