-- ===== src/Lib.antt =====
-- OrbixHub: the back end of a workshop's system (back/src), one tenant at a time.
--
-- The parts and how they interact. The cash book (back/src/modules/cashier) keeps sessions, entries
-- and instalments; what a sale or an order of service was settled with is the sum of its entries,
-- and the expenses module enters through two methods of the same service. The orders of service
-- (back/src/modules/os) follow a table of statuses, and drive the stock
-- (back/src/modules/inventory) line by line after each change of status; other modules lock a
-- finished order through a registry. The total of an order follows its items, its timeline, which
-- the customer reads, its status; the cash book is asked before an order is deleted. A sale over
-- the counter (back/src/modules/sale) draws its number by repeated attempts, moves the stock of its
-- lines, and asks the cash book what was paid before its total changes. A tablet that was offline
-- replays its mutations (back/src/modules/sync): each is checked, passed to the service that owns
-- it, and recorded in a ledger; what others changed it pulls page after page.
--
-- Which file models which part:
--   * Cashier.Config, Cashier.Discount, Cashier.Payment: cashier.config.ts, cashier.discount.ts and
--     the pure functions of cashier.service.ts, with the source's names in snake_case
--     (`merge_cashier_config` is `mergeCashierConfig`, and so on);
--   * Cashier.Store: the rows, the constraints of the database, cashier.repository.ts;
--   * Cashier.Totals, Cashier.Sessions, Cashier.Entries, Cashier.Corrections, Cashier.Installments:
--     the methods of cashier.service.impl.ts, one function each; Cashier.Commands makes every
--     method that writes a command, and a history is a list of commands with who gives them;
--   * Inventory: stock-reconcile.ts and the entrances of inventory.service.ts that change a
--     balance;
--   * Os: os-status.ts, order-lock.registry.ts and the checks of `changeStatus` of os.service.ts;
--     Os.Consumption: its `reconcileOrderStock`; Os.Store: os.repository.ts; Os.Content, Os.Fields
--     and Os.Service: the methods that write (`add_item` is `addItem`, `create_order` is
--     `createOrder`, `change_order_status` is `changeStatus`, and so on); Os.Commands makes each of
--     them a command;
--   * Expenses: the pure functions of back/src/modules/expenses/expenses.config.ts; Expenses.Store:
--     expenses.repository.ts; Expenses.Bin: `cancel`, `restore` and `purge` of expenses.service.ts;
--     Expenses.Single: its `create`, with a rule if one is asked for; Expenses.Create: the branch of
--     it that is in instalments (`criarParcelado`); Expenses.Esteira: `materializar` and
--     `estenderRegra`, which make the dates of a rule ahead; Expenses.Edit: its `update`
--     (`update_expense`), with `redistribuirParcelamento`; Expenses.Payment: its `pay` and `unpay`,
--     which go through the cash book; Receivables: those of
--     back/src/modules/receivables/receivables.filtro.ts, but for the order by a column;
--   * NumeroSequencial: numero-sequencial.ts of back/src/common/database;
--   * Sale: sale.config.ts; Sale.Store: sale.repository.ts and what the service reaches of other
--     modules; Sale.Lines, Sale.Stock, Sale.Service, Sale.Edit: the methods of sale.service.ts
--     (`create_sale` is `createSale`, `update_sale` is `updateSale`, and so on);
--   * Sync: sync.lww.ts; Sync.Payload: `validatePayload` of sync.service.ts; Sync.Store: the rows, the
--     table of sync.repository.ts and the registry of sync.registry.ts; Sync.Push: `push` of
--     sync.service.ts; Sync.Pull: its `getChanges`, with `listChangedSince` of the services;
--     ChangedSince: changed-since.ts of back/src/common/database;
--   * Billing: subscription-access.ts and the guard of module-access.guard.ts;
--   * Report: `ranquearClientes` of back/src/modules/report/customers-ranking.ts;
--   * Money, Calendar: `round2` and the arithmetic of JavaScript's `Date`; Base: shared helpers.
--
-- How the code is read. A method of a service is a function from the tables to a result or an
-- error, with the tables after it (Base.Service): `transaction` undoes the writes of a block that
-- throws, what a method committed before a later error stays. Requests are served one after the
-- other. The caller, the clock and the generated ids come in as a request record. Where the code
-- meets others between a reading and a writing, what they commit is an argument (`rivals`). Stored
-- money is a number of cents, received money of thousandths; numbers have no upper bound (the
-- columns have 14 digits), and binary floating point is not modelled. No definition of the code
-- runs on fuel: all loops go through lists, and the attempts at a number are counted as in the
-- source. The requests of a device that pulls page after page are an argument, with what is enough
-- of them in the theorem.
--
-- Not modelled: the other reports and the listings, which only read; the photos, the templates, the
-- agenda and the public page of the orders, and what resolves the customer of a new one; the
-- categories of expenses and the daily job that extends their rules tenant by tenant; the service
-- of receivables, the subscriptions' own service, invoices, messages and identity; the front end;
-- the database itself but for the constraints that the modelled operations meet.
-- Row-level security is taken as given. The entries of the registries of replayed operations and of
-- pulled tables and the reading of their DTOs by class-validator are arguments.
pub mod Base
pub mod ChangedSince
pub mod NumeroSequencial
pub mod Money
pub mod Calendar
pub mod Cashier
pub mod Inventory
pub mod Os
pub mod Expenses
pub mod Receivables
pub mod Sync
pub mod Sale
pub mod Billing
pub mod Report
mod Tests
