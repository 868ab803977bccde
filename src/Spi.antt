-- ===== src/Spi.antt =====
-- spider_spi.cpp: the frames that `SpiWrite` puts on the bus.
pub mod Frame
pub mod Link
