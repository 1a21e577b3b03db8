-- ===== src/Api.antt =====
-- The calls of the backend that frontend/src/api has, a module for each object there. A call is the
-- client it goes through, its method, its path, its query parameters, its body and its headers; the
-- type of the answer and `normalize` are left to the caller.
pub mod Calls
pub mod Paths
pub mod Contract
pub mod Orders
pub mod Bills
pub mod Kots
pub mod Service
pub mod Deliveries
pub mod Payments
pub mod Shifts
pub mod Tables
pub mod Rooms
pub mod Locations
pub mod Categories
pub mod Items
pub mod Pricing
pub mod Charges
pub mod Toggles
pub mod Settings
pub mod Features
pub mod Businesses
pub mod Loyalty
pub mod Customers
pub mod Staff
pub mod Notifications
pub mod Reports
pub mod Office
pub mod Integrations
pub mod Subscriptions
pub mod Audit
pub mod Accounts
pub mod Guests
pub mod Websites
pub mod PlatformAccounts
pub mod PlatformBusinesses
pub mod PlatformPlans
