-- ===== src/Tickets.antt =====
-- src/tickets: routing tickets, their signature format, and the single use of their ids.
pub mod Replay
pub mod Paseto
pub mod Ticket
pub mod Request
