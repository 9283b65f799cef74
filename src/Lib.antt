-- ===== src/Lib.antt =====
-- A model of Easy Docket, a ledger that works offline and syncs between devices, and proofs about it.
--
-- The program writes each change as an operation, stamped by a hybrid logical clock, to a log beside
-- the tables, and devices exchange their logs. The model follows the calls from the bottom up.
--
-- * Hlc (app/src/app/core/util/hlc.ts): the clock's state, `encodeHlc` as `encode`, `decodeHlc` as
--   `decode`, and the methods `tick` and `observe`, each a function from the wall time and the clock to
--   a result and the clock it leaves. Hlc/Order is about the stamps, Hlc/Progress about the methods.
-- * Models (app/src/app/core/models/domain.ts, oplog.ts): entity names, operations, and the interface
--   `Entity` of what the ledger uses of a row: its id, its stamp, and putting a stamp into it.
-- * Db (app/src/app/core/db/docket-db.ts): the tables as one association list, from an entity name and
--   an id to a row, and the log, which keeps one operation for each stamp. Db/Log has the log's laws.
-- * Ledger (app/src/app/core/repositories/ledger.service.ts): the service's state is the tables, the
--   log, the saved clock and the clock; `put`, `remove`, `merge`, `observe_stamps`, `mark_synced` and
--   `initialise` are functions on it. Ledger/Lww says what a set of operations means: for each key, the
--   operation with the greatest stamp. Ledger/Knows says that a ledger's log and tables are what a set
--   of operations means; Ledger/Merge, Converge, Write, Pending and Observe prove that
--   the operations keep it. Ledger/Puts is `put` for callers that do not look at the clock, Ledger/Saved
--   the clock that `merge` saves, Ledger/Preserved what a merge keeps of the tables.
-- * Dates (app/src/app/core/util/dates.ts): dates as texts. Dates/Civil is the calendar that the code
--   gets from JavaScript's `Date`, with its round trips below it; Dates/Written is about the texts,
--   Dates/Shift about `addDays`, Dates/Months about `addMonths`. Dates/Ranges is
--   `monthsIn`, Dates/Ranges/Cover is about the months that it has, Apart an induction over them.
-- * Sync (app/src/app/core/sync/sync.service.ts): the cycle and its status. Sync/Names has the names of
--   objects (sync-target.ts), Sync/Remote the destination (sync-adapter.ts) and the cipher
--   (app/src/app/core/crypto) as records that the rest takes, and the steps over the device and the
--   destination. Sync/Pull is `pull` with `applySnapshot`, Sync/Push is `push`, Sync/Snapshot is
--   `maybeSnapshot` with `prune`. Sync/Pull/Learns and Sync/Push/Delivers say what a device learns and
--   what it leaves at the destination, Sync/Relay how the two fit together, Sync/Snapshot/Safety what
--   snapshots leave alone, Sync/Cycle how a cycle ends; Sync/Fixes carries what no step changes. Sync/Memory is a destination for the tests.
-- * Schedule (app/src/app/core/recurring/schedule.ts): a rule's dates, the loop of `occurrencesUpTo` as
--   `scan`, `next_occurrence`, and occurrence ids. Schedule/Due has the list of the due dates that the
--   loop is compared with, Schedule/Plans the dates by unit, Schedule/Listed what the lists hold,
--   Schedule/Next the next occurrence, Schedule/Ids the ids.
-- * Csv (app/src/app/core/reports/csv.ts and import/csv-parse.ts): `toCsv`, and `parseCsv` as a reader
--   that goes through the text by rounds of its loop. Csv/RoundTrip relates the two.
-- * Money (app/src/app/core/util/money.ts): the reading and the writing of amounts, and what a
--   transaction does to an account. Money/RoundTrip and Money/Effect hold the proofs; the rows of the
--   ledger are records of Models/Records.
-- * Conversion (app/src/app/core/money/conversion.ts): amounts at a rate, sums in one currency and the quote
--   for a date, over a record of what the code does with floating-point numbers. Conversion/Latest is
--   about `rateFor`, Conversion/Sums about `sumInReporting`; Conversion/Whole is an instance for tests.
-- * Accounts (app/src/app/core/accounts/classification.ts, totals.ts, sections.ts): the sections of the
--   accounts screen and the balance sheet. Accounts/Filed is about the place of an account, Worth about
--   what it adds, Net about the whole.
-- * Budgets (app/src/app/core/budgets/period.ts and spend.ts): the windows of a budget, found from an
--   estimate by the two loops of `windowFor`, and in Budgets/Spend what a window has spent and carried.
--   Budgets/Search is about the loops, FirstDays about the calendar, Windows about the window that is
--   found, Carry about rollover.
-- * Categories (app/src/app/core/categories/tree.ts): the tree of categories and the roll-up to the top
--   level; Categories/Whole is about what the tree holds.
-- * Replicas (app/src/app/core/repositories/ledger.service.ts, of many devices): devices that write,
--   receive, push and restart, as a step relation over the functions of the ledger, and the worlds that
--   they reach. Replicas/Invariant is what holds in them, Clocks is about observed stamps, Moves about
--   writes, Receives about what comes from others, Keeps about every move, Converge about the whole.
-- * Rows (app/src/app/core/models/domain.ts): the rows of all tables as one type, for the services that
--   write through the ledger.
-- * Transactions (app/src/app/core/repositories/transactions.service.ts and cards/pay-bill.service.ts):
--   `save` with `assertValid`, and `pay`. Transactions/Valid is about what is saved, Payment about what
--   a payment does to the card.
-- * Materialiser (app/src/app/core/recurring/materialiser.service.ts): `run` and `skip` over the ledger.
--   Materialiser/Keeps is about what a run leaves alone, Creates about the due dates, Skips about
--   `skip`.
-- * Cards (app/src/app/core/cards/statement.ts): closes, due dates and the summary of a card.
--   Cards/Closes is about the dates, Bills about the amounts as sums, Owed about the whole summary.
-- * Reports (app/src/app/core/reports/aggregate.ts): `spendByCategory` and `totalsFor`; the collation is
--   a parameter. Reports/Spending is about the two together. Reports/Months is `flowByMonth`, with
--   Reports/Months/Buckets about its sums, Each about what a month takes and Flows about the whole.
--   Reports/Worth is `netWorthOver`; Reports/Worth/Order is about the sorted transactions, Points about
--   one pass through them, Amounts about what counts, LastDays about the dates of the points, Refused
--   about what makes it throw, Ends about the whole.
-- * Backup (app/src/app/core/backup/backup.ts, backup.service.ts): `build`, `export`, `inspect`
--   and `restore`, with files and their sealing as parameters. Backup/Restores is about what a restore
--   spares, Complete about where its rows go, RoundTrip about the whole.
-- * Envelope (app/src/app/core/crypto/envelope.ts): the bytes that go to a destination; Envelope/Frame
--   reads them back.
-- * Base (helpers): shared names. Texts are lists of code points, compared by code as JavaScript does
--   within the basic plane.
--
-- Bounds and fuel. Numbers are natural numbers; the code's are exact up to 2 ^ 53, which no stamp or
-- date comes near. Printing n takes n + 1 rounds at most. The year of a day is sought from a 366th of
-- its number upwards with fuel above the number, the month in 12 rounds; Dates/Civil/Laws shows that
-- both are found. `addDays` before the year 0 gives no date, and theorems on dates start in the year
-- 100, since `Date.UTC` reads lower years as others.
-- The loops of the schedule run as far as the code's own bounds, 25000 and 500 rounds. The
-- second loop of `windowFor` gets two rounds; Budgets/Windows shows that they are enough. A push takes as
-- many rounds as operations wait. `monthsIn` has the 1200 rounds of the code.
-- Not modelled: `Number` on texts that are not plain digits, failures of the database, concurrent
-- transactions (the database runs one at a time), the encryption and the transports of the sync, two
-- cycles at a time, the list of card bills, topPayees and unconvertedIn of the reports, the import of
-- transactions, the repositories other than that of transactions, backup files whose sections hold no
-- rows, and the screens.
pub mod Base
pub mod Hlc
pub mod Models
pub mod Db
pub mod Ledger
pub mod Dates
pub mod Schedule
pub mod Money
pub mod Csv
pub mod Conversion
pub mod Accounts
pub mod Categories
pub mod Budgets
pub mod Sync
pub mod Replicas
pub mod Cards
pub mod Rows
pub mod Transactions
pub mod Materialiser
pub mod Envelope
pub mod Backup
pub mod Reports
