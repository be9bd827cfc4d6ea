-- ===== src/Http.antt =====
-- adapter/inbound-http/src: the HTTP interface. The parsers of the libraries (addresses, base64, urls,
-- uuids, JSON) are parameters, a request is what axum hands to a handler.
pub mod Dto
pub mod Failure
pub mod Reader
pub mod Emails
pub mod Listings
pub mod Accepted
pub mod Reading
pub mod Batch
pub mod Paged
