-- ===== src/Prw/Proto.antt =====
-- internal/prw/proto.go: the wire format of remote write requests.
pub mod Wire
pub mod Loop
pub mod Messages
pub mod RoundTrip
