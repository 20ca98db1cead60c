-- ===== src/Codec.antt =====
-- Python's `json` module, and the formatting of whole numbers. `encode` is
-- `json.dumps(info).encode("utf-8")` of a dict, and `decode` is `json.loads(data.decode())`.
use openeo_geopyspark_driver.Prelude.{ℕ, String, ◌≡◌}
use openeo_geopyspark_driver.Outcome.{Result, ok}
use openeo_geopyspark_driver.Json.{Json, Fields}

pub record JsonCodec (F : Type 0) : Type 1 where
  pub Bytes : Type 0
  pub encode : Fields F → Bytes
  pub decode : Bytes → Result (Fields F)
  pub dumps : Json F → String
  pub loads : String → Result (Json F)
  pub show_int : ℕ → String

-- What is written is read back.
pub record IsFaithful {F : Type 0} (C : JsonCodec F) : Type 0 where
  pub decode-encode : (d : Fields F) → C.decode (C.encode d) ≡ ok d
