-- ===== src/Lib.antt =====
-- Nexus SmartTrading: the order matching, the order books, the stop orders, the script scopes, the
-- rollouts, the market data messages and the spatial index of the service, with the theorems that make
-- them correct.
--
-- The program is a Python service of many parts that are coupled loosely. Modelled are those that keep
-- the state on which trades, charts and rollouts depend:
--   src/execution/models.py, src/execution/matching_engine.py: Matching. `submit_order` is
--     Matching.Engine.submit_order, its `while` loop match_loop, and the append with the sort
--     rest_order. Each side of the book is a list of orders with the number of their submission.
--   src/orderbook/rb_tree.py: OrderBook.Tree, OrderBook.Insert and OrderBook.Delete. A node with its
--     parent pointers is a subtree with the path of its ancestors; `_insert_fixup` is insert_fixup,
--     `_delete_fixup` is delete_fixup. OrderBook.Spec has the table that a tree stands for.
--   src/orderbook/l2_order_book.py: OrderBook.Book, which uses two of the trees.
--   src/buffers/ring_buffer.py: RingBuffer.
--   src/execution/oco_manager.py: Oco. The gateway is a list of the cancellations asked for.
--   src/trading/orders.py, src/trading/trailing_stop_processor.py: Trailing. Trailing.Outcomes has the
--     rules that a tick keeps to.
--   src/engine/scope.py: Scope.
--   src/gitops/models.py, src/gitops/blue_green_service.py: BlueGreen. The client is a parameter:
--     each answer is any function of the calls made before, which a trace lists, newest first.
--   src/data/paginator.py: Paginator. The callback that fetches batches is a parameter.
--   src/webhooks/dlq.py: DeadLetters.
--   src/licensing/models.py, src/licensing/service.py: Licensing.
--   src/market_data/deserializers/binary.py: Binary. `_ProtobufCodec` is Binary.Protobuf on
--     Binary.Varint, `_FlatBuffersCodec` is Binary.FlatBuffers on Binary.Words, and the serializer with
--     its deserializer Binary.Frame. Binary.RoundTrip and Binary.Errors prove things of them.
--   src/interaction/spatial_index.py: Spatial. `_split_elements` is Spatial.Split, the nodes with what
--     is done to them Spatial.Tree, and `SpatialIndex` Spatial.Index, whose query_loop is the loop over
--     the stack. A node is its subtree, without `parent`; the leaf that `_items` keeps for an identifier
--     is the one in which the tree holds it.
--   src/type_engine/types.py, src/type_engine/validator.py: TypeEngine. The groups of operators that
--     `_infer_binary` tells apart are functions of their own; TypeEngine.Typing has the typing rules.
-- Prelude has what they share: tests on numbers, lists, results with the exception classes, dicts as
-- association lists, whole numbers with a sign, and decimals as any type with a strict order.
--
-- Prices, quantities and times are whole numbers of a smallest unit, or, for the trailing stops,
-- any decimals; names and identifiers are numbers. Where the code writes to a shared order or node,
-- the model returns the new one. Loops are structural recursion, on the path up the tree and on the
-- other side of the book. Six loops are on fuel. BlueGreen.Manager.drain_loop waits for requests in
-- flight: it has one turn for each unit of the timeout, and one more, since every turn sleeps at
-- least one unit (BlueGreen.Drain). Paginator.pages has one turn for each time from the start to
-- the end, since its cursor moves back (Paginator.Batches). Binary.Varint.groups has one turn more
-- than the value, which each turn divides by 128 (Binary.Fields), and Binary.Protobuf.fields_loop
-- one for each byte of the body, since every field takes a byte (Binary.Errors.Wire).
-- Spatial.Index.query_loop has one turn for each node of the tree (Spatial.Visits), and
-- Spatial.Split.split_loop one for each element that is left (Spatial.Groups).
--
-- Not modelled: the indicators, the rendering and the editor, which compute with floats or build text,
-- and the adapters, servers and workers, which mostly call libraries.
pub mod Prelude
pub mod Matching
pub mod OrderBook
pub mod RingBuffer
pub mod Oco
pub mod Trailing
pub mod Scope
pub mod Binary
pub mod Spatial
pub mod TypeEngine
pub mod DeadLetters
pub mod Licensing
pub mod Paginator
pub mod BlueGreen
