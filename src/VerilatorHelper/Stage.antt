-- ===== src/VerilatorHelper/Stage.antt =====
-- VerilatorHelper.h: the debug registers of the stages.
mod Base
mod FrontEnd
mod Integer
mod Memory
pub use Base.*
pub use FrontEnd.*
pub use Integer.*
pub use Memory.*
