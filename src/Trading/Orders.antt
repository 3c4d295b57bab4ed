-- ===== src/Trading/Orders.antt =====
-- src/utils/OrdersOperationService/OrdersOperationService.ts: the orders of a position, from their
-- submission to their execution, and the order that closes it. The children model the state
-- (Desk), what the parent process is told (Publish), the wait for an execution (Wait), opening
-- (Open) and closing (Close).
pub mod Desk
pub mod Publish
pub mod Wait
pub mod Open
pub mod Close
pub mod Rows
