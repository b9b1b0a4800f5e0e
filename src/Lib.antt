-- ===== src/Lib.antt =====
-- Business trips and their expense reports: a model of the backend's core and what is proved of it.
--
-- The program. The service (backend/app) keeps trips, which an applicant writes, submits to the
-- manager, travels and completes, and expense reports, one for each trip, whose approval settles the
-- trip. Its services (backend/app/services) read and write one PostgreSQL database through a session
-- for each request; a request that raises commits nothing. Rules without a database stand apart
-- (trip_rules.py, expense_rules.py, trip_status.py), and every transition of a state goes through
-- history.py, which writes one row of history and at most one notification.
--
-- The files.
--   Base and its children: Boolean tests, lists, integers, texts, a stable sort.
--   Enums, Errors, Clock, Patch: enums.py, errors.py, the clock's readings, the payloads of PATCH.
--   Db/Rows: the tables of backend/app/models. Db/Table: rows under keys, with the laws of lookups in
--     Db/Table/Laws. Db/Session: the session, as a state of what is committed and what the open
--     transaction sees; a service is an action on it, and Db/Session/Ends has one rule for each action.
--   Numbering, Codes, Centers, History: the services of these names.
--   Trip/Status, Trip/Rules, Trip/View, Trip/Edit, Trip/Flow: trip_status.py, trip_rules.py and
--     trips.py; Trip/Flow/Spec is the life of a trip as a step relation, Trip/Invariant what every
--     stored trip satisfies.
--   Expense/Rules, Expense/View, Expense/Edit, Expense/Items, Expense/Flow: expense_rules.py and
--     expenses.py; Expense/Flow/Spec is the life of a report, Expense/Items/Rewrites what a payload
--     makes of an item, Expense/Totals the agreement of totals and items, Expense/Settled that of
--     approved reports and settled trips.
--   Users/Status, Users/Signup: user_status.py, signup.py with the checks of admin/common.py that it
--     uses; the hash of a password is a parameter.
--   Auth/Scopes, Auth/Keys: api_scopes.py and api_keys.py; SHA-256, the random part of a key and the
--     routes that the framework finds are parameters. Auth/Principal: deps.py, whom a request comes from
--     and what it may do. Auth/Login: routers/auth.py. PyJWT and bcrypt are parameters.
--   Admin/Users: admin/users.py; Admin/Users/Accounts is what the requests keep, Admin/Users/Opens the
--     log-in after an approval. Admin/Common: admin/common.py. Admin/Departments, Admin/Centers,
--     Admin/Cards, Admin/Codes: the services of these names under admin.
--   Page, Trip/Listing, Expense/Listing, Timeline, Notifications, Cards: the lists, page by page, with
--     ILIKE and the order of texts as parameters. Notifications/Pages: several pages together.
--   Matching: matching.py, and Expense/Candidates the query that feeds it; the Korean date of an instant
--     is a parameter.
--   Site: the endpoints of routers/trips.py and routers/expenses.py that write, one after another.
--   Tests: runs on a small company; Tests/Office has the accounts.
--
-- The conventions. A function keeps its name. `handle` runs a service on the stored database and
-- answers its result with the database stored after it. Dates are ordinals, instants microseconds,
-- amounts integers of hundredths, as Numeric(14, 2) and Numeric(12, 2) keep them. The clock is an
-- argument. The messages of errors are left out; an exception that is no AppError is `unexpected` with
-- the name of its class. A token's expiry goes to PyJWT as an instant; whoever assumes something of
-- PyJWT says that it keeps whole seconds of it. Keys come from sequences and are unique, so a change
-- by key meets the first row that has it. A violated unique, NOT NULL or foreign key constraint that a
-- request can reach is an IntegrityError; sequences are rolled back with the rest. A query that orders
-- by created_at orders by the key here, as rows are created one after another. Every loop is a
-- recursion over a list, so there is no fuel.
--
-- The services on reports build their response after the commit, and building it may still fail: their
-- result is a response that may itself be an error (Expense/Edit, `Answer`).
--
-- What is not modelled. The framework's validation of payloads (lengths, the lower case of an e-mail) and
-- the races of concurrent requests, which run one after another here. An amount of a payload may have
-- more digits than hundredths, which Numeric(14, 2) rounds when the row is flushed; here it is taken as
-- already rounded.
-- The columns created_at and updated_at. Start-up, configuration, the sample data, the frontend.
pub mod Base
pub mod Enums
pub mod Errors
pub mod Db
pub mod Patch
pub mod Page
pub mod Clock
pub mod History
pub mod Numbering
pub mod Codes
pub mod Centers
pub mod Trip
pub mod Users
pub mod Auth
pub mod Admin
pub mod Notifications
pub mod Cards
pub mod Matching
pub mod Expense
pub mod Timeline
pub mod Site
pub mod Tests
