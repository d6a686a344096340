-- ===== src/Worker.antt =====
-- worker/src: the part of a validator that handles batches of transactions.
pub mod BatchMaker
pub mod Batches
