-- ===== src/Md.antt =====
-- Market data: the order book of src/md/order_book.cpp.
pub mod OrderBook
pub mod Gateway
