-- ===== src/CrHandler.antt =====
-- K8sCRHandler of the package k8scrhandler: a cache of the custom resources of one kind, and the
-- callbacks that are told of changes.
pub mod Events
pub mod Cache
pub mod Mirror
pub mod Loop
pub mod Callbacks
mod Names
pub mod Registered
pub mod Owners
pub mod Patches
mod Scenarios
