-- ===== src/Scim.antt =====
-- pkg/adapter/scim/scim.go: `Names` has the attribute names and the filter text, `Config` the
-- configuration checks of New, `Responses` what the adapter reads of a resource, `Desired` the
-- comparison and the values to write, `Service` Observe and Apply, `Web` the addresses, and `Http`
-- the requests.
pub mod Names
pub mod Filter
pub mod Config
pub mod Responses
pub mod Desired
pub mod Service
pub mod Web
pub mod Http
