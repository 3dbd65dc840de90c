-- ===== src/Store.antt =====
-- hub/store: the in-memory stores of a hub. Every operation runs under the store's mutex, so it is
-- one step on the store's state; the context argument and the error result, always nil, are left out.
pub mod Versioned
pub mod Subscriptions
pub mod Alerts
pub mod Catalog
pub mod Results
