-- ===== src/Queries.antt =====
-- What the app caches of the backend: the hooks of frontend/src/features, each a query under a key or
-- a mutation with what its success does to the cache. The cache is TanStack Query's and stands behind
-- an interface. Options that a caller adds, such as `enabled: false`, are the caller's.
pub mod Options
pub mod OrderHooks
pub mod BillingHooks
pub mod KotHooks
pub mod KitchenHooks
pub mod DeliveryHooks
pub mod TableHooks
pub mod RoomHooks
pub mod PaymentHooks
pub mod ShiftHooks
pub mod SettingHooks
pub mod LoyaltyHooks
pub mod CustomerHooks
pub mod StaffHooks
pub mod PricingHooks
pub mod NotificationHooks
pub mod DashboardHooks
pub mod ReportHooks
pub mod BusinessHooks
pub mod MenuHooks
pub mod AuthHooks
pub mod GuestHooks
pub mod WebsiteHooks
pub mod IntegrationHooks
pub mod SubscriptionHooks
pub mod AuditHooks
pub mod PlatformHooks
pub mod Registry
mod Keys
mod Resources
mod Parents
pub mod Refresh
pub mod Enabled
pub mod Declared
pub mod Coherence
pub mod Coverage
mod Tests
