-- ===== src/Lib.antt =====
-- WhyNotGrace POS: a model of the web client, the TypeScript program under frontend/src, and what is
-- proved of it.
--
-- The client is a single-page app for restaurants. Its parts and the files here that model them:
--
--   * Request, Client (frontend/src/api/client.ts): the HTTP client that every feature calls.
--     `authorize` is the request interceptor, `is_final` the guard and `on_error` the body of the
--     response interceptor up to its `await`, `refresh_access_token`, `refresh_gives` and
--     `refresh_throws` the two halves of refreshAccessToken, `flush_queue` is flushQueue, and
--     `on_refreshed` and `on_refresh_failed` are the rest of the interceptor. `step` runs one event.
--   * Auth (frontend/src/stores/authStore.ts) with Auth/Bootstrap
--     (frontend/src/hooks/useAuthBootstrap.ts): the session, what of it survives a reload, and the
--     silent refresh on a page load.
--   * Access (frontend/src/config/navigation.ts, frontend/src/routes, frontend/src/App.tsx): the
--     sidebar and the guards of the routes; Access/Home has the links of the page at "/".
--   * Cart (frontend/src/stores/cartStore.ts): the lines of a cart, their estimated
--     subtotal, and in Cart/Select the tap on a simple dish.
--   * Pos (the rest of that store, and
--     frontend/src/features/pos/components/CartPanel.tsx): placing an order at the counter.
--   * Platform (frontend/src/api/platformClient.ts, frontend/src/stores/platformAuthStore.ts,
--     frontend/src/hooks/usePlatformAuthBootstrap.ts): the same session for the platform's own staff.
--   * Menu (frontend/src/types/api.ts) and Customize
--     (frontend/src/features/pos/components/ItemCustomizeDialog.tsx): the dialog in which a dish's
--     variant and options are chosen, and the line it puts into the cart.
--   * Kitchen (frontend/src/features/kitchen, frontend/src/lib/printReceipt.ts): a ticket's way
--     through the kitchen, and its printing for each station.
--   * Errors (frontend/src/api/errors.ts, frontend/src/lib/queryClient.ts): what is kept of an error,
--     and which queries are tried again.
--   * Qr (frontend/src/stores/qrSessionStore.ts, frontend/src/stores/qrCartStore.ts,
--     frontend/src/features/qr): the session that a guest's scan opens, and the guest's order; Qr/Item
--     has the guest's menu.
--   * Live (frontend/src/hooks/useLiveUpdates.ts): the socket that tells what to fetch again, with the
--     close event that the cleanup leaves under way.
--   * Tables (frontend/src/features/tables/components/TableMoveDialog.tsx): moving a table's order;
--     Tables/Floor has the page that opens the dialog, frontend/src/features/tables/TablesPage.tsx, and
--     Tables/Backend what the service checks, from backend/app/services/order_service.py.
--   * Billing (frontend/src/features/billing/components): manual payments and discounts, in
--     Billing/Items the voids and the dishes given away, in Billing/Whole the same of a whole bill;
--     Billing/Backend has what the service checks, from backend/app/services/billing_service.py, and
--     Billing/Served the list of lines and the service together.
--   * Till (frontend/src/features/shifts/ShiftPage.tsx): opening and closing the cash drawer.
--   * Grouping (frontend/src/features/billing/BillingPage.tsx and
--     frontend/src/features/settings/components/CounterRulesSection.tsx): lists shown in groups.
--   * Charges (frontend/src/features/settings/components/ChargeBandsSection.tsx and
--     ChargeBandDialog.tsx): the ladders of charge bands and the dialog of one band.
--   * Format (frontend/src/lib/format.ts): elapsed time and trends.
--   * Api (frontend/src/api): every call of the backend as a value, a module for each object there:
--     `list` of Api/Tables is tablesApi.list, and so on; `remove` stands for `delete`. Api/Contract has
--     the paths of frontend/src/types/api.ts, against which they are checked.
--   * Queries (the hooks.ts files of frontend/src/features): every query with its key, its call, when it
--     runs and polls, and every mutation with what its success does to the cache, those for signing in
--     and out included, whose change of the session stands in Auth and Platform; Queries/Registry
--     lists them. Queries/Keys reads a call back from a key and Queries/Resources a key from a path.
--   * MenuEditor (frontend/src/features/menu/components/MenuItemDialog.tsx): the dialog of a dish, with
--     its drafts in MenuEditor/Drafts and the calls for a stored dish in MenuEditor/Live.
--   * MenuImport (frontend/src/features/platform/components/MenuImportSection.tsx): a menu read off
--     photographs, its draft and the edits of it; MenuImport/Section has the requests.
--   * Settings (frontend/src/features/settings/BusinessSettingsPage.tsx): the settings' form, which is
--     set once, and what a save sends.
--   * Subscription (frontend/src/features/platform/components/SubscriptionPanel.tsx): the plan of a
--     business as the platform's staff see it; Subscription/Backend has what the service does with it,
--     from backend/app/services/subscription_service.py, and Subscription/Lifecycle both together.
--   * Progress (frontend/src/features/delivery/DeliveryPage.tsx,
--     frontend/src/features/qr/QrOrderStatusPage.tsx,
--     frontend/src/features/orders/components/OrderDetailDialog.tsx): what is offered by status and
--     role; Progress/Backend has the guards of the service that these pages mirror.
--   * Reads (frontend/src/App.tsx and the pages that it routes to and the sidebar lists): the queries of each page,
--     with those of the dialogs and cards on it, and of the shell; Reads/Backend has the roles and features that the routes of backend/app/api ask for.
--   * Writes (the same pages): the changes that each page and its dialogs offer, by role and feature;
--     Writes/Backend has the checks of role and feature of the routes that they go to. That the
--     backend refuses a lapsed business altogether (402) is left out of both.
--   * Prelude: tests, lists, text and numbers that these share.
--
-- The parts meet in the session: the client reads the access token from the store and writes the
-- refreshed tokens to it, the bootstrap fills the store on a page load, and the guards read it. The
-- dialog's line goes through the cart's `add_line`, and the placed order is read off the cart. A hook
-- makes its call with Api, and the statuses that Progress and Kitchen ask for are checked against the
-- service's guards.
--
-- Conventions. A store is a record and each of its actions a function to the new record. Code that
-- awaits is split at the `await`, and the answer is an event or an argument; the microtasks between
-- an answer and the code that waits for it count as one event. `null` and `undefined` are `none`.
-- Numbers are JavaScript doubles: `Number` is an interface with no laws, and a theorem that needs
-- exact sums says so by `IsExact`, and one that needs an order of amounts or to read a number back from
-- its text has that as a hypothesis. Ids from crypto.randomUUID() are arguments. There is no fuel: all
-- loops are structural.
--
-- Not modelled: markup and styling, texts and their translations, the HTTP library (a request that it
-- sends is put into a list and an event answers it), the query cache itself (Queries says what a hook
-- hands to it), and the Python service under backend, whose answers are events here, but for the
-- guards in Progress/Backend, Billing/Backend and Tables/Backend, the plans in Subscription/Backend and the rights in
-- Reads/Backend and Writes/Backend.
pub mod Prelude
pub mod Auth
pub mod Request
pub mod Client
pub mod Platform
pub mod Access
pub mod Errors
pub mod Cart
pub mod Pos
pub mod Menu
pub mod Customize
pub mod Kitchen
pub mod Qr
pub mod Live
pub mod Tables
pub mod Billing
pub mod Api
pub mod Queries
pub mod MenuEditor
pub mod Progress
pub mod Format
pub mod Till
pub mod Grouping
pub mod Charges
pub mod MenuImport
pub mod Subscription
pub mod Settings
pub mod Reads
pub mod Writes
