-- ===== src/Http.antt =====
-- network/http_server: the web server of the settings page. content.c is Response and Content,
-- http_server.c is Request (parsing a request) and Connection (the lwIP callbacks).
--
-- A C string is the list of its characters before the terminating 0.
pub mod Response
pub mod Content
pub mod Request
pub mod Received
pub mod Sending
pub mod Connection
pub mod Listener
