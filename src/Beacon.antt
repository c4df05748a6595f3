-- ===== src/Beacon.antt =====
-- What the scripts ask of a beacon node before they move capital (scripts/lib/common.ts): the shape of
-- its replies, the preflights of `fund`, `top-up` and `request-exit`, and which chain it is on.
pub mod Shape
pub mod Read
pub mod Fresh
pub mod Exit
pub mod Chain
mod Examples
