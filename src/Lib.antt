-- ===== src/Lib.antt =====
-- A purchase of agentic-attribution, in the services that are written in TypeScript.
--
-- An agent asks the gateway for a purchase; without a payment the merchant answers with a challenge
-- (402), with one the gateway verifies the assertion that attributes the sale to a publisher and
-- forwards the request. The merchant verifies again, checks the payment against the listing and asks
-- the settlement service to settle. That service, outside of this development, asks the facilitator,
-- which verifies the signed authorization, refuses a nonce that it has settled before, and settles.
--
-- The parts and their files, each under the directory that has its name:
--
--   Types        packages/types/src: `Commission` (calculateCommission), `Assertion` (the signed form
--                of an assertion and verifyAssertion), `Eip3009` (toTypedMessage, toUint256,
--                eip712Domain).
--   Facilitator  facilitator/src: `Verify` (verifyPayment), `Ledger` (NonceLedger), `Request`
--                (validateRequest), `Handler` (handle with its routes and injected faults), `Server`
--                (index.ts: the state at startup, the body, the catch). The state of the service is
--                the record FacilitatorState.
--   Gateway      gateway/src: `Body` (readBoundedText), `KeyCache` (verificationKey, resetKeyCache),
--                `Answer` (the request, the answers, reportRejection), `Handler` (handle, proxy),
--                `Server` (node.ts: the environment, the body, the Request, the catch).
--   Merchant     merchant/src: `Config`, `X402` (the headers), `Settlement` (the client), `Answer` (the
--                offer and the answers), `Handler` (PurchaseHandler), `Catalog` (findListing and its
--                query), `Server` (index.ts: the body, the routes, reportRefusal).
--   Simulator    simulator/src: `Agent` (selectCheapestInStock), `Payment` (signAuthorization),
--                `Requests` (the three requests of the agent), `Fraud` (applyFraud, pickFraudMode and
--                the reasons expected for the attacks), `Runner` (start, stop and the loops that run
--                at once, as steps of one state; its children `Attempt` and `Stats` have runOnce and
--                the counters),
--                `Driver` (driver.ts: the server that starts and stops the runner).
--   System       the services wired together, from the agent's request through the gateway's server to
--                the merchant's and back; the hops of HTTP between them are parameters.
--   Js           what the code uses of JavaScript: JSON values and property access, BigInt and Number
--                texts, doubles, integers, trimming, the loop by which each server reads a body, and variables
--                of the environment.
--   Platform     what the runtime provides, as a record of functions: base64, UTF-8, JSON.parse and
--                JSON.stringify, Date.parse, lower case, Ed25519.
--   Prelude      exceptions, lists and Boolean tests that the parts share.
--   Tests        concrete runs.
--
-- A handler is one function from a request and the state to what it answers or throws, the state
-- after it, and what it sent: the calls of fetch, the settlements, the reports to the journal. An
-- `await` is a plain call: the facilitator looks a nonce up and adds it without an `await` between,
-- and the gateway's key cache is written behind its one `await`. A function that
-- throws returns `Throws`; a `try` is a match on it. A stage of a handler is a function of its own,
-- with the result that it branches on as an argument, so that a proof follows the code branch by
-- branch.
--
-- A number from a JSON text is kept as its canonical text, and a value of the wire is a `Json` of any
-- shape, as the types of the source promise nothing at run time. A property that is read off a value
-- is `none` where JavaScript has undefined. Only the simulator takes a search response at the type that
-- it casts it to. Amounts are naturals and integers. The facilitator's are BigInts, without bound. The
-- commission split is computed as `Js.Double` has it: each product and quotient is rounded to a
-- number with a significand of 53 bits, with exponents up to 1023 and parts down to 2 ** -1074 as fuel,
-- which is the range of the format; its law states the bound, 2 ** 53 for price times rate, below which
-- the rounding changes nothing. A price is a whole number of cents. Bodies are lists of chunks, so every
-- other loop is structural recursion.
--
-- What is not in src is a parameter: the Platform, the facilitator's `Chain` (viem), the network
-- (`fetch`), the pool that runs the catalog's query, `Number` and `toFixed` where they meet values of
-- any shape, the parsing of a URL. Where a theorem relies
-- on them it names what it relies on, such as `IsUnforgeable` for the signatures, `IsCarried` for a
-- value whose JSON text comes back as itself, or `Answers` for the query.
--
-- Not modelled: how a response is streamed out, logs and shutdown; the fraud rate of the runner, in whose
-- place a run draws whether it is a fraud; hoursAgo, a function of the clock, which is a parameter;
-- simulator/src/index.ts and smoke.ts, command lines that drive running services. Attempts of a runner
-- are counted one after another. The services in Go and PHP, the schemas and the browser tests are
-- outside of the development.
pub mod Prelude
pub mod Js
pub mod Platform
pub mod Types
pub mod Facilitator
pub mod Gateway
pub mod Merchant
pub mod Simulator
pub mod System
mod Tests
