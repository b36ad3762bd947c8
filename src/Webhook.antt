-- ===== src/Webhook.antt =====
-- kubernetes/prod/system/external-dns/external-dns/app/netbox-dns-webhook.py: ExternalDNS's
-- changes written to NetBox DNS.
pub mod Zones
pub mod Plan
pub mod Endpoints
pub mod Handler
pub mod Tests
