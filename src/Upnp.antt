-- ===== src/Upnp.antt =====
-- UpnpMicroStack.c: the UPnP stack of the server.
pub mod Actions
pub mod Callback
pub mod Eventing
pub mod Expiry
pub mod Responses
pub mod Ssdp
pub mod Subscribe
pub mod Subscribers
pub mod Tests
