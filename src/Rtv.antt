-- ===== src/Rtv.antt =====
-- The relay module src/rtv: the arbitration of control, the tickets, and the table of
-- hosts and viewers.
pub mod Arbiter
pub mod Ticket
pub mod Hub
