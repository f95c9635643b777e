-- ===== src/Prelude/Rules.antt =====
-- Rule sets for the tactics.
use native.Mathlib.Omega.{arith}
use tp_sisop_1c_2017_david.Prelude.Tests.{ltb→lt, lt→ltb, leb→le, le→leb}

pub ruleset tests = (arith, ltb→lt, lt→ltb, leb→le, le→leb)
