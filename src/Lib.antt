-- ===== src/Lib.antt =====
-- Verification library of the HR web clients: the logic of the browser applications that decides
-- what is sent to the server and what the user is told.
--
-- Parts, and the files that model them:
--
-- - Kiosk, the attendance screen of a kiosk (kiosk-web/src/pages/MainPage.tsx, records of
--   kiosk-web/src/lib/types.ts). Kiosk/Types: the records. Kiosk/Screen: the state of
--   `MainPage`, the mutation `checkMut` (`mutate`, `check_succeeded`, `check_failed`) and the
--   recognize loop: `tick` sends a frame, `land` takes the reply that is on its way,
--   `handle_match`, `handle_low_confidence` and `handle_miss` are the branches of the reply.
--   Kiosk/Machine: `Event`, what the operator, the timers, the camera and the network can do;
--   `handle`, the handlers; `commit`, the cleanup of the loop's effect, which React runs after
--   every step that renders the page, as the dependency `checkMut` is new at every render, and
--   which cancels the requests on their way; `older_arrived`, the reply to a request beside
--   which a later one was sent; `step`, both together. Kiosk/Manual: the order of the manual
--   sheet. Kiosk/Valid, Loop, Cooldown, Rounds and Rejection hold the proofs.
-- - Queue, the offline queue of check-ins (client-web/lib/offline-queue.ts) and the submission
--   that fills it (`submitMut` of client-web/app/(app)/today/page.tsx). Queue/Store: the object
--   store in key order, `tx` with transactions that may be refused, or aborted at the commit
--   after the promise has resolved, and the operations on one row. Queue/Flush: `flush_queue` as
--   it reads the rows once and posts them one after the other. Queue/Submit: `submit`.
--   Queue/Order, Attempts, NoLoss, Account and Stale hold the proofs.
-- - Session, the signed-in session (admin-web/src/stores/auth.ts, used alike by the other
--   clients).
-- - Api, the HTTP clients and their single-flight token refresh. Api/Request: requests and what
--   a client does with them. Api/Machine: the interceptors of admin-web/src/lib/api.ts, as a
--   step function over calls, answers and the end of the refresh (mobile/src/api/client.ts has
--   the same interceptors). Api/Pwa: those of client-web/lib/api.ts. Api/Message:
--   `apiErrorMessage` of the clients. Api/Balance, Replay, Final, PwaLaws and MessageLaws hold
--   the proofs.
-- - Ws, the admin panel's live connection (admin-web/src/lib/ws.ts). Ws/Machine: the class
--   `AdminWS`, a socket being the number of its creation. Ws/Lifetime: the events that run it,
--   with the proofs on connections; Ws/Delivery: the proofs on listeners.
-- - Notifications, the admin panel's notification store (admin-web/src/stores/notifications.ts)
--   and the translation of its texts (admin-web/src/lib/notifications-i18n.ts).
--   Notifications/Store: the operations of the store; Notifications/Legacy:
--   `translateNotification` and the patterns of `matchLegacyPattern` on code units.
--   Notifications/Unread, Patterns and Historic hold the proofs.
-- - Schedule, the monthly grid of shifts
--   (admin-web/src/pages/app/employees/MonthlyScheduleEditor.tsx). Schedule/Editor: state and
--   operations; Schedule/Cells, Months and Saving: the proofs.
-- - Users, the user accounts (admin-web/src/pages/app/users). Users/Form: the form of utils.ts
--   and the bodies that UserCreatePage.tsx and UserEditPage.tsx send. Users/Listing: the numbers
--   above the list of UsersListPage.tsx. Users/Saving and Totals: the proofs.
-- - Devices and Companies, the panel's devices (admin-web/src/pages/app/devices) and the owner's
--   companies (admin-web/src/pages/owner/companies): Form with the form and the bodies, Saving
--   with the proofs.
-- - Format, numbers shown as texts (admin-web/src/pages/app/attendance/utils.ts,
--   devices/utils.ts and kpi/utils.ts beside it). Format/Durations: durations and ages;
--   Format/Tones: the colour of a score; Format/Badges: the badges of states and kinds, those of
--   users/utils.ts too; Format/Exact: the proofs.
-- - Slugs, the short name of a company (admin-web/src/pages/owner/companies/CompanyForm.tsx).
--   Slugs/Text: `slugify` and `uniqueSlug` on texts as lists of code units; Slugs/Field: the
--   name and slug inputs of the form. Slugs/Shape, Fresh and Typing hold the proofs.
-- - Routes, the way through the panel (admin-web/src/App.tsx, components/ProtectedRoute.tsx,
--   components/Layout.tsx and pages/LoginPage.tsx beside it). Routes/Table: the table of routes;
--   Routes/Guard: `ProtectedRoute`, `RootRedirect`, `DashboardSwitcher`, and `follow`, which
--   follows the redirects; Routes/Menu: the three menus; Routes/Login: the answers of a sign-in
--   and of the effect that loads a profile, in the order of their arrival. Routes/Guarded,
--   Steps, Landing, Menus and SignIn hold the proofs, and Routes/Router a choice of routes for
--   the tests.
-- - Departments, the form of a department and the list
--   (admin-web/src/pages/app/departments/DepartmentForm.tsx and DepartmentsList.tsx).
--   Departments/Form: the form and its bodies; Departments/Picker: `forbiddenIds` with its two
--   loops, and `parentOptions`; Departments/Listing: the filters, groups, tree and numbers of
--   the list. Departments/Visit: one round of the loop; Closure: the set that the loop computes;
--   Cycles: what the form offers; Occurs, Rows and Hidden: which departments the tree shows;
--   Groups: the groups by branch.
-- - Staff, the employee that several pages share (admin-web/src/lib/types.ts). Employees, its
--   form (admin-web/src/pages/app/employees/EmployeeForm.tsx): Employees/Form with the form, the
--   bodies and the rules for departments, Employees/Saving with the proofs.
-- - Kpi, performance indicators (admin-web/src/pages/app/kpi/TemplateFormDialog.tsx and
--   BulkAssignTab.tsx). Kpi/Template: the form of a template, its tiers and its body; Kpi/Bulk:
--   the assignment to many. Kpi/Saving and Picking hold the proofs.
-- - Settings, two tabs of a company's settings
--   (admin-web/src/pages/app/settings/AttendanceRulesTab.tsx and WorkScheduleTab.tsx), which
--   share one object. Settings/Tabs: the forms and what they save; Settings/Days: the buttons of
--   the weekdays. Settings/Keys, Merging, ReadBack and Toggling hold the proofs.
-- - Theme, the theme and the sidebar (admin-web/src/lib/theme.ts and
--   admin-web/src/stores/ui.ts): Theme/Store with the mode and the document's class,
--   Theme/Sidebar with the sidebar's store, Theme/Following with the proofs.
-- - Shifts, the schedule of all employees (admin-web/src/pages/app/shifts/SchedulePanel.tsx).
--   Shifts/Panel: the state, the filters and the cells; Shifts/Actions: the save,
--   `applyDefaultRow`, `applyDefaultAll`, `clearRow` cut at its request, and `fillColumn`;
--   Shifts/Counts: `visibleStats`; Shifts/Hue: `templateHue`. Shifts/Cells, Defaults, Bulk,
--   Clearing and Saving hold the proofs.
-- - Attendance, the attendance of a day (admin-web/src/pages/app/attendance/LiveTab.tsx and
--   admin-web/src/pages/app/employees/LiveEarningsCard.tsx). Attendance/Records: the records;
--   Attendance/Today: `summariseToday` and the last checks; Attendance/Live: the filters,
--   counters, pills and branch chips. Attendance/Worked, Checks and Pills hold the proofs.
-- - Leaves, the leave requests and balances (admin-web/src/pages/app/leaves/RequestsTab.tsx and
--   BalancesTab.tsx). Leaves/Requests: the filters, the six orders and the counts of requests;
--   Leaves/Balances: the filters, the five orders, the cards and the totals of balances.
--   Leaves/Ordering, BalanceOrder and BalanceCards hold the proofs.
-- - Salary, the salary periods of a month (admin-web/src/pages/app/salary/PeriodsTab.tsx).
--   Salary/Periods: the parameters of the requests, the branch chips, the filters and orders of
--   the table; Salary/Csv: the quoted texts of `exportCsv`. Salary/Chips and Fields hold the
--   proofs.
-- - Common: names passed on from the libraries, Boolean tests, lemmas on lists and association
--   lists.
--
-- How the parts interact: the kiosk, the queue and the stores call the HTTP client of their
-- application, whose interceptors read and write the session; a client's answer is an argument
-- of the operation that waits for it. The notification store is fed by the frames that the live
-- connection hands to its listeners. The guards of the routes and the sign-in read and write the
-- session. The two tabs of the settings write one object. The two schedule editors share the
-- rows, the dates and the entries of a save; the forms share the conversion between missing
-- values and blank texts.
--
-- Conventions. A component is a state record with one function per operation; asynchronous code
-- is cut at each `await`, and the interleavings are lists of events. Most loops run over a list
-- of rows, requests or listeners, or over a count of days, and are structural. Four use fuel.
-- The redirects from a path end with three visits. The tree of departments is walked as deep as
-- the caller says, and a department whose way up ends is shown by every walk that is deeper; the
-- source's walk is as deep as its tree. The other two have a theorem that their fuel is enough:
-- the search for a free slug has as many tests as there are slugs and one more, since each
-- failing test meets another slug; the loop over the departments below one has two rounds more
-- than there are departments, since each round takes one id off the stack and no id enters it
-- twice. Times are milliseconds and identities of listeners and sockets are numbers, without
-- bound, since the source's are doubles far below their limit of exact integers. A random UUID
-- is a number. A date text `YYYY-MM-DD` is the record of its three numbers.
--
-- Parameters, for code that is not in the repository: the text functions of the platform
-- (trimming, lower case, splitting, the normal form of letters, the comparison of names, the
-- digits of a number, the value of a number's text, the first ten characters of a time),
-- `JSON.parse` and `JSON.stringify`, the server's answers, the failures of IndexedDB
-- transactions, `Date`'s day of the week, the rounded share of a total, the choice that
-- react-router makes among the routes, of which only two things are used (it is a route of the
-- table, and it is the only one that fits where only one does), the translation function, the
-- conversions between texts and numbers, the test whether an address belongs to the refresh or
-- to the authentication calls, and the constructor of a socket, which may throw.
--
-- Not modelled: rendering, styles, the tables of translations, speech, the camera, push messages
-- and the service worker, persistence of the session in the browser's storage, the formatters of
-- money and dates, amounts of money in floating point, the other forms and pages of the panel,
-- and the server itself, which is Python.
mod Common
pub mod Kiosk
pub mod Queue
pub mod Session
pub mod Api
pub mod Ws
pub mod Notifications
pub mod Schedule
pub mod Users
pub mod Devices
pub mod Companies
pub mod Format
pub mod Slugs
pub mod Routes
pub mod Departments
pub mod Staff
pub mod Employees
pub mod Kpi
pub mod Settings
pub mod Theme
pub mod Shifts
pub mod Attendance
pub mod Leaves
pub mod Salary
