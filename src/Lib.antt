-- ===== src/Lib.antt =====
-- A model of CashGuard's trading core, the Python code under apps/api/app: what may become of an
-- order, what stands between a signal and the broker, and what is made of the broker's answer.
--
-- The parts and how they interact. The allocator decides which signals of a run may become orders.
-- The risk engine judges each order before it is sent, from the
-- settings, the risk profile, the trades and the orders in the database; a violation stops the
-- order and is logged. A buy order's cost, with what other orders have been promised, must be
-- covered by the account's cash. An order that is sent comes back with the broker's answer, which
-- is interpreted before anything is written, and the order's status then moves through the
-- transition guard, which stages an event and an audit entry. The execution engine commits the
-- attempt before it sends a request, and settles the order by what the transmission ends in, unless
-- another process has settled it meanwhile. A circuit breaker is meant to stand
-- around the broker's API and turns the kill switch on, which the risk engine reads. Reconciliation
-- asks the broker again about an order that nothing has settled, after a wait, and interprets the
-- broker's record of it.
--
-- Lifecycle, Lifecycle/Evidence: execution/state_machine.py. `Known` are the keys of
--   `ORDER_STATUS_TRANSITIONS`, and a `Status` is one of them or any other text. The functions carry
--   their Python names; an order that Python mutates is returned, and `Staged` are the rows added to
--   the session. Lifecycle/Edges, Trail and History: the proofs.
-- Store: db/models/__init__.py, the rows and columns that the modelled code names.
-- Risk, Risk/Checks, Limits, Run: risk/engine.py. `Risk` has the database as a method sees it and
--   the monad of a method, a function from the database to a result or a `RiskViolation` and the
--   database after it; Checks has the checks on switches and counts, Limits those on amounts, and
--   Run `run_all_checks`. Risk/Judge, Enforced, ProfileLimits, AmountLimits and Admission: the
--   proofs. Risk/Sizing, Sector and Switch: drawdown sizing, `check_sector_and_correlation` and the
--   kill switch's two helpers, with their proofs.
-- Risk/Market, Risk/Cfd: risk/engine.py, `check_market_conditions` and `check_cfd_limits`;
--   Risk/Market/Enterable: the proof for the former.
-- Correlation: risk/correlation.py.
-- Allocator, Allocator/Score, Decide: services/signal_allocator.py, what a signal costs and scores,
--   the decision on one and the run over a batch, whose state is returned. Allocator/Granted,
--   Ranking, Totals and Winners: the proofs.
-- Broker, Broker/Acknowledgement: execution/acknowledgement.py, over JSON as Python parses it.
--   Broker/Inversion, Kept and Trust: the proofs. Broker/Record, Record/Reading, Fills, Verdict, History:
--   execution/broker_record.py; Record/Stated, Amounts, Prices, Final and Page: the proofs.
-- Safety: services/safety_policy.py, which broker's environment a runtime mode allows.
-- Execution: execution/engine.py. A method is a function from the session, with the order at
--   hand, to a result and the session after it. Execution/Intent, Create: `create_order_intent`,
--   over the orders as they are at its three reads. Execution/Submit: `submit_order` up to the
--   commit before the request is sent, with the gate of services/safety_policy.py;
--   Execution/Posted: the body that broker/trading212.py posts, whose numbers are floats;
--   Execution/Settle and Answer: the rest of it, one function for each `_record_` method.
--   Execution/Asking: `_read_broker_record`; Execution/Reconcile: `reconcile_order`;
--   Execution/Cancel: `cancel_order`, with the limits on reads of execution/cancellation.py;
--   Execution/Batch: `cancel_many`, each order of the batch in a session of its own;
--   Execution/Claim and Unknown: `reconcile_unknown_submission`, over one page of the history, whose
--   entries Broker/Snapshot maps (broker/trading212_mappers.py).
--   Execution/Transition, Gate, Dispatch, Written, Settled, Elsewhere, Silent, Repeated, Reconciled,
--   Requested, Cancelled, Resolution, Resolved, Claimed, Asked, Tallied, Reported, Promised and
--   Admitted: the proofs. Execution/Outbox: the commit with the database's constraints, the steps
--   of the processes that submit one order, and the phases promised of it; Execution/Refinement:
--   the proof.
-- Paper, Paper/Policy, Ledger, Execute, FollowUp: execution/paper_policy.py and paper_engine.py, orders
--   that are filled on paper; Paper/Operations and Submit: execution/paper_operations.py, commands
--   that name themselves. A method is a function from the session, with the account's rows, to
--   a result and the session after it; `execute` asks the engine of Risk. Paper/Rules, Refused,
--   Sound, Kept, Accounts, Reached, FollowedUp, Recorded and Submitted: the proofs.
-- Cash: execution/cash_reservation.py, less the wait for the right to admit an order, which is a lock
--   of the database.
-- Reconcile/Backoff: services/reconciliation_backoff.py. The loop on levels runs on six steps of fuel,
--   as many as there are levels, so that its own test ends it. Reconcile/Queue
--   and Owners: services/reconciliation_queue.py, the query conditions as tests of a row.
-- Circuit: broker/circuit_breaker.py. `admit` is the part of `call` before the function and
--   `settle` the part after it, since other calls run in between. Circuit/Invariant, Admission and
--   Opening: the proofs.
-- Common: the numbers, lists and texts that the parts share. Common/Numeric has the interfaces of
--   `Decimal` and `float`, and Common/FixedPoint an instance of them over whole numbers;
--   Common/Sorting is `list.sort`.
-- Each part's Tests has concrete runs.
--
-- Choices. `Decimal` and `float` are interfaces (`Decimals`, `Floats`), an argument of the code
-- that uses them; where a proof needs an order to be one, it says so (`IsOrdered`). Times are whole
-- microseconds, or ticks of the monotonic clock. Query results are computed from the rows. What
-- SQLAlchemy writes when a session is committed is an argument (`flush`), and what the proof relies
-- on is named (`WritesFresh`). `str()`, `int()` and `Decimal()` on a broker's values are arguments
-- (`Conversions`, `RecordConversions`), `str.upper` too. Counts of positions and limits are natural
-- numbers. Every loop is over a list, but for the one on backoff levels.
--
-- In the engine, identifiers are numbers in turn, the answer of services/live_dispatch.py is an
-- argument, and so are how `float()` changes a decimal, whether the commit of an acknowledgement fails,
-- what the flush at the end of `reconcile_order` raises, and whether the admission turn is taken in
-- time. The flushes of the other methods are taken to succeed: where one fails, the caller's
-- transaction undoes what the method has changed. A paper account's rows are in the order of its
-- queries, the newest first, so that the clock does not run backwards; its numbers fit the decimal
-- context, but for the test of `evaluate_paper_fill`. Quantities of orders are not negative.
--
-- Not modelled: the texts of messages and of exceptions, and the payloads of risk events; the HTTP
-- API, the workers, the adapters of brokers, but for the bodies of orders, and of market data, the
-- strategies, the backtests, the reports, the web application, and the migrations, which are frameworks' glue or independent of
-- the safety of an order; of execution/engine.py, the reports of execution quality, and alerts; and
-- of execution/paper_engine.py, portfolio_state and the summary. A batch of cancellations and a paper
-- command are taken without what other sessions do between their steps, which their locks keep out.
pub mod Common
pub mod Lifecycle
pub mod Store
pub mod Circuit
pub mod Correlation
pub mod Risk
pub mod Allocator
pub mod Broker
pub mod Reconcile
pub mod Cash
pub mod Safety
pub mod Execution
pub mod Paper
