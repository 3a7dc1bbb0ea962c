-- ===== src/Event.antt =====
-- Real-time events: app/services/event_store.py (numbering and replay),
-- app/services/event_connection_manager.py (clients and who may see what) and
-- app/services/event_broadcaster.py (both together).
pub mod Store
pub mod Clients
pub mod Replay
pub mod Delivery
mod Tests
