-- ===== src/Lib.antt =====
-- The trading terminal of the matching engine: the TypeScript under app/frontend/src.
--
-- The terminal is a browser client of one WebSocket. Raw text becomes a typed frame at one narrowing
-- point, the reducer folds the frames and the sent orders into one state, the panels print and plot
-- that state, and the tickets turn what is typed into intents, which the frame builders turn into
-- frames for the server. The state of the page is a function of the sequence of dispatches, so the
-- properties are stated of sequences: of dispatches for the reducer, of browser events for the socket,
-- and of both and the tickets' callbacks for the page.
--
-- Which file models which part, children standing beside their parent:
--   Protocol/Frames, Protocol/Value, Protocol/Narrow: app/frontend/src/protocol/messages.ts, the frame
--     types, the values of parsed JSON, and parseServerFrame with int, str, levels and isExecType.
--   Protocol/Encode: app/frontend/src/protocol/encode.ts, newOrderFrame, cancelOrderFrame, the id
--     source createClOrdIdGenerator and serializeClientFrame; a thrown RangeError is a result.
--   Protocol/Fix: app/frontend/src/protocol/fix.ts, parseFixTags, fixMsgType and the tag table.
--   State/Orders, State/Model, State/Reducer: app/frontend/src/state/reducer.ts. Orders has the rows of
--     the blotter with nextOrder and passiveFill, Model the state and the actions, Reducer applyExec,
--     applySent and reducer; `run` folds the reducer over a sequence of dispatches.
--   State/Socket: app/frontend/src/state/useOrderBook.ts, one mount of the hook as a step function on
--     the events open, close, message, timer, send and unmount.
--   Market: app/frontend/src/market/ignition.ts and alpacaClient.ts and app/frontend/src/state/useIgnitionPrice.ts,
--     parseIgnitionOpen, fetchIgnitionOpen by the ways in which a fetch ends, and one mount of the hook as
--     a step function on answers, the retry timer and the clean-up.
--   Format: app/frontend/src/format.ts, formatPrice, formatQty, midpointLabel, midpointPx, parsePrice and
--     formatClockNanos, and the library function toFixed.
--   Ticket: app/frontend/src/components/OrderEntry.tsx and CancelTicket.tsx, the validations, the price
--     helpers and the submit and nudge handlers as functions of the form state; Ticket/Controls: every
--     control with the condition that enables it, and the imperative setPrice, as steps on that state.
--   Inspector: app/frontend/src/components/FixInspector.tsx, the filter, the keys, the selection, the copy,
--     the rows and the details, as functions of the log and of the states of the panel; Inspector/Panel
--     what the open panel shows.
--   App: app/frontend/src/App.tsx, handleSubmit and handleCancel, and the events of one page.
--     App/Terminal: App.tsx with its routes, app/frontend/src/pages/TradingPage.tsx and PriceChartPage.tsx, and
--     app/frontend/src/components/Navbar.tsx, all that can happen to the terminal as steps on its hooks, its
--     route and the state of the page that is mounted; App/Terminal/Screen what it shows; App/Rendered
--     when App renders, which is when it reads the id that the order ticket shows.
--   Views: app/frontend/src/depth.ts, priceSeries.ts and sessionStats.ts; of app/frontend/src/components,
--     Views/Panels the pure helpers of OpenOrders.tsx, Header.tsx, TradeTape.tsx and DepthLadder.tsx,
--     Views/Header deriveHeader, Views/Header/Strip the values as Header.tsx and SessionStats.tsx render
--     them, Views/Ladder DepthLadder.tsx, Views/Anchors levelAnchors of DepthCurve.tsx and the reference
--     prices of PriceChart.tsx, Views/Plot the scales of the two charts, Views/Plot/Prices and
--     Views/Plot/Curve what they draw, and Views/Tables the rows of the tape and of the blotter, and the
--     connection badge.
--   Double: the double arithmetic that these sources call, on exact numbers.
--   Prelude: shared names, Boolean tests, lists, texts and integers. The Tests and Checks modules run
--     the definitions on concrete inputs and apply the theorems to them.
--
-- Conventions and bounds. A `number` that has passed Number.isInteger is an integer without a bound;
-- a double is exact up to 2^53, and where the source tests for a safe integer the test is written
-- out. Sums and differences that the source does not test, such as the session volume, are exact
-- here while they stay below that bound. The half sum of midChipPx is taken in whole numbers, which
-- agrees for prices below 2^45. `undefined` and `null` results are `none`. A text is a list of code
-- points, which agrees with UTF-16 units on the ASCII texts that the code compares and cuts at.
-- String(n) is modelled for n below 10^21, where it has no exponent; the fuel of the decimal digits
-- is the number plus one, and every round takes one digit off. A transition that returns the object
-- that it was given is told apart from one that builds a new object only where it matters, in the
-- row loop of applyExec and for the renders of App.
-- Where the sources divide, or multiply a clock reading, the result is a double: a whole number over
-- a power of two, rounded to 53 bits with ties to even, without a bound on its exponent above; the
-- fuel of the rounding is the number itself, which exceeds the number of its bits. The quotients
-- stay below 2^53, and toFixed is used below 10^21. So is String(n), in Format/Digits: the shortest
-- digits that read back as the double, which differ from the exact ones beyond 2^53. The zero of a
-- double has no sign here. A number of parsed JSON is whole, a fraction over a power of two, or
-- infinite. JSON.parse is a parameter, whose exception is `none`, of the narrowing and of the
-- socket; so is JSON.stringify, of a frame and of the inspector's copy, and the local time of a
-- clock reading, in milliseconds since a local midnight, of everything that prints a time.
--
-- Not modelled: the Java server under app/backend, which appears as the sender of frames; element
-- names, styles, colours and the text anchors of the charts; the router, of which the model has what a
-- route mounts and that a change of the route mounts it afresh; the fetch of the external service that
-- supplies the opening price.
pub mod Prelude
pub mod Double
pub mod Protocol
pub mod State
pub mod Format
pub mod Ticket
pub mod Inspector
pub mod Market
pub mod Views
pub mod App
