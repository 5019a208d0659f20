-- ===== src/Examples/Base.antt =====
-- An operation, for the examples.
use rsd_mp.VerilatorHelper.Stage.{OpId}

abbrev pub op_id : OpId
op_id = record { sid = 1; mid = 2 }
