-- ===== src/Interfaces.antt =====
-- unoq_ota/interfaces.py: what a source offers, and what is reported back to it.
use unoq_ota.Prelude.{ℤ, String}
use unoq_ota.Python.{Fields}

pub data Status : Type 0 where
  downloading verifying staged waiting_for_gate flashing committed rolled_back rejected verified :
      Status

-- `raw_manifest` is kept by the source and read by nothing, so it is left out.
pub record Update : Type 0 where
  pub version : String
  pub sequence : ℤ
  pub manifest : Fields
