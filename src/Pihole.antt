-- ===== src/Pihole.antt =====
-- docker/netbox/dns-sync/netbox_pihole_sync.py: NetBox's DNS records copied to the Pi-holes.
pub mod Plan
pub mod Scan
pub mod Loop
pub mod Clean
pub mod Converge
pub mod Cnames
pub mod Settles
pub mod Keep
pub mod Resolves
pub mod Wanted
pub mod Server
pub mod Round
pub mod Memory
pub mod Tests
