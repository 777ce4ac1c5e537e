-- ===== src/Osc.antt =====
-- cloud-controller-manager/osc/oapi_itf.go: the clients of the Outscale API and of the load balancer
-- API as interfaces, with the data of their SDKs as far as the code reads it. A field that is a
-- pointer in Go is an `Option`. A client's call takes the state of the outside world and returns the
-- next one; what it does there is a parameter of the model.
mod Data
mod Clients
pub mod Idle
pub mod ListSets
mod Sdk
pub use Data.*
pub use Clients.*
