-- ===== src/Convert.antt =====
-- pkg/ffstreamserver/grpc/goconv: the conversions between the program's data and its messages. A
-- pointer to a message is an option, and a getter on nil gives the zero value.
pub mod Counters
pub mod Rates
pub mod Config
pub mod SrtStats
pub mod Quality
